-- ===== src/Debug/Session.antt =====
-- A session of the debugger: requests without parameters, the last of which lets the program run on.
use lt_kernel.Prelude.{
  ℕ, suc, ◌<◌, ◌≡◌, refl, sym, ap, ◌∙◌, ◌⊎◌, inl, inr, Bool, true, false, List, [], ◌++◌, ◌==◌,
  if◌then◌else◌, length, arith, Bool-cases,
}
use lt_kernel.Prelude.Result.{ok}
use lt_kernel.Status.{status_success}
use lt_kernel.Alloc.{give_back, granted}
use lt_kernel.Debug.{
  KeDebugContext, KeDebugPacket, KeDebugResponse, Debugger, u32_bytes, slice, free_live, recv_param,
  read_request, recv_request, data_bytes, header_bytes, send_packet, send_response,
}
use lt_kernel.Debug.Commands.{
  registers, undefined, command_of, reply, set_eflags, with_trap, without_trap,
}
use lt_kernel.Debug.Wait.{run_command, cleanup, wait_loop}
use lt_kernel.Debug.Packets.{
  slice-append, word_of-u32_bytes, kmalloc_bytes-granted, recv_packet_lem,
}

-- The packet of a request without parameters, with `rest` behind its two fields.
abbrev pub request_bytes : ℕ → List ℕ → List ℕ
request_bytes c rest = u32_bytes c ++ (u32_bytes 0 ++ rest)

abbrev pub request_packet : ℕ → List ℕ → List ℕ
request_packet c rest = u32_bytes (length (request_bytes c rest)) ++ request_bytes c rest

-- The debugger behind such a request.
abbrev pub received : ℕ → List ℕ → Debugger → Debugger
received c more d = record d {
  input = more;
  heap = give_back (suc d.heap.requests) (granted 1 d.heap);
  request = record d.request { command = c; param_size = 0 };
}

module _ (grant : ℕ → Bool) (c : ℕ) (rest more : List ℕ) (d : Debugger) (word : c < 0x100000000)
    (grants : grant d.heap.requests ≡ true) (few : length rest < 0x10000000)
    (has : d.input ≡ request_packet c rest ++ more) where
  abbrev behind : Debugger
  behind = record d { input = more; heap = granted 1 d.heap }

  abbrev packet : KeDebugPacket
  packet = record {
    size = length (request_bytes c rest);
    content = suc d.heap.requests;
    bytes = request_bytes c rest;
  }

  recv_param_lem :
      recv_param grant packet
        (record behind { request = record d.request { command = c; param_size = 0 } })
      ≡ ok (status_success, received c more d)
  unfolding recv_param free_live
  recv_param_lem =
      let y : (suc d.heap.requests == 0) ≡ false = ground arith in
      let x : (suc d.heap.requests == suc d.heap.requests) ≡ true = ground arith in rw (y, x) refl

  read_request_lem :
      read_request grant status_success packet behind ≡ ok (status_success, received c more d)
  unfolding read_request recv_param
  read_request_lem =
      let y : (suc d.heap.requests == 0) ≡ false = ground arith in
      let z : (length (request_bytes c rest) == 0) ≡ false = ground arith in
      let s1 : slice 4 (request_bytes c rest) ≡ ok (u32_bytes c) =
        slice-append (u32_bytes c) (u32_bytes 0 ++ rest) in
      let s2 : slice 4 (u32_bytes 0 ++ rest) ≡ ok (u32_bytes 0) = slice-append (u32_bytes 0) rest in
      rw (z, read_request, y, s1)
        (rw s2 (
          ap
            (λ k.
              recv_param grant packet
                (record behind { request = record d.request { command = k; param_size = 0 } }))
            (word_of-u32_bytes c word)
          ∙ recv_param_lem))

  pub recv_request_lem : recv_request grant d ≡ ok (status_success, received c more d)
  unfolding recv_request
  recv_request_lem =
      let r =
        recv_packet_lem grant (request_bytes c rest) d more (omega arith) (omega arith) grants
          has in
      rw (r, recv_request) read_request_lem

-- The status that a command without parameters is answered with, if it does not let the program run.
abbrev pub status_of : ℕ → ℕ
status_of c = if c == 4 then 0 else 1

-- The register command, or one that the debugger does not know.
abbrev pub IsPlain : ℕ → Type 0
IsPlain c = (c ≡ 4) ⊎ (command_of c ≡ undefined)

-- A step, a continue or a quit, and the flags that the program goes on with.
abbrev pub IsResuming : ℕ → Type 0
IsResuming c = (c ≡ 1) ⊎ (c ≡ 2) ⊎ (c ≡ 3)

abbrev pub resumed : ℕ → ℕ → ℕ
resumed c f = if c == 1 then with_trap f else without_trap f

abbrev pub answer : ℕ → KeDebugContext → KeDebugResponse
answer c context = record {
  command = c;
  status = status_of c;
  context = context;
  data_size = 0;
  data_ptr = 0;
  bytes = [];
}

not_registers : (c : ℕ) → command_of c ≡ undefined → (c == 4) ≡ false
not_registers c e = elim (Bool-cases (c == 4)) [
  | inr f ↦ f
  | inl t ↦
      let four : c ≡ 4 = ground arith in
      let q : registers ≡ undefined = ap command_of (sym four) ∙ e in absurd cc
]

module _ (grant : ℕ → Bool) (junk : ℕ → List ℕ) (fuel : ℕ) where
  pub run_command-plain :
      (c : ℕ) (d : Debugger)
      → IsPlain c
      → d.request.command ≡ c
      → run_command grant junk fuel (command_of c) d ≡ ok (false, reply c (status_of c) d)
  unfolding run_command
  run_command-plain c d (inl e) has = rw e refl
  run_command-plain c d (inr e) has =
      let t : (c == 4) ≡ false = not_registers c e in rw (e, has, t) refl

  pub run_command-resuming :
      (c : ℕ) (d : Debugger)
      → IsResuming c
      → run_command grant junk fuel (command_of c) d
        ≡ ok (true, reply c 0 (set_eflags (resumed c d.context.eflags) d))
  unfolding run_command
  run_command-resuming c d (inl e) = rw e refl
  run_command-resuming c d (inr (inl e)) = rw e refl
  run_command-resuming c d (inr (inr e)) = rw e refl

-- The packet of a response without data.
abbrev pub answer_packet : ℕ → KeDebugContext → List ℕ
answer_packet c context = u32_bytes 88 ++ header_bytes (answer c context)

send_packet_lem :
    (a : ℕ) (bytes : List ℕ) (e : Debugger)
    → length bytes ≡ 88
    → send_packet (record { size = 88; content = suc a; bytes = bytes ++ [] }) e
      ≡ ok (status_success, record e { output = e.output ++ (u32_bytes 88 ++ bytes) })
unfolding send_packet
send_packet_lem a bytes e len =
    let y : (suc a == 0) ≡ false = ground arith in
    let s = ap (λ n. slice n (bytes ++ [])) (sym len) ∙ slice-append bytes [] in
    rw (send_packet, y, s) refl

abbrev pub sent : ℕ → Debugger → Debugger
sent c d = record (reply c (status_of c) d) {
  heap = granted 1 d.heap;
  output = d.output ++ answer_packet c d.context;
}

pub send_response_lem :
    (grant : ℕ → Bool) (c : ℕ) (d : Debugger)
    → grant d.heap.requests ≡ true
    → send_response grant (reply c (status_of c) d) ≡ ok (status_success, sent c d)
unfolding send_response data_bytes
send_response_lem grant c d grants =
    let k = kmalloc_bytes-granted grant 88 d.heap grants (omega arith) (omega arith) in
    let y : (suc d.heap.requests == 0) ≡ false = ground arith in
    let e : Debugger = record (reply c (status_of c) d) { heap = granted 1 d.heap } in
    rw (send_response, k, y)
      (rw k (send_packet_lem d.heap.requests (header_bytes (answer c d.context)) e refl))

-- The debugger behind a request that is answered.
abbrev pub next : ℕ → List ℕ → Debugger → Debugger
next c more d = sent c (received c more d)

cleanup_none : (d : Debugger) → d.request.param ≡ 0 → d.response.data_ptr ≡ 0 → cleanup d ≡ ok d
unfolding cleanup free_live
cleanup_none d p q = rw (p, q) refl

module _ (grant : ℕ → Bool) (junk : ℕ → List ℕ) (fuel trace : ℕ) (d : Debugger) (c : ℕ)
    (rest more : List ℕ) (grants : (n : ℕ) → grant n ≡ true) (word : c < 0x100000000)
    (few : length rest < 0x10000000) (no_param : d.request.param ≡ 0)
    (has : d.input ≡ request_packet c rest ++ more) where
  pub wait_loop-plain :
      IsPlain c
      → wait_loop grant junk (suc fuel) trace d ≡ wait_loop grant junk fuel trace (next c more d)
  unfolding wait_loop
  wait_loop-plain p =
      rw (recv_request_lem grant c rest more d word (grants _) few has, wait_loop)
        (rw (run_command-plain grant junk trace c (received c more d) p refl) (
          rw (send_response_lem grant c (received c more d) (grants _))
            (rw (cleanup_none (next c more d) no_param refl) refl)))

  pub wait_loop-resuming :
      IsResuming c
      → wait_loop grant junk (suc fuel) trace d
        ≡ ok (reply c 0 (set_eflags (resumed c d.context.eflags) (received c more d)))
  unfolding wait_loop
  wait_loop-resuming p =
      rw (recv_request_lem grant c rest more d word (grants _) few has, wait_loop)
        (rw (run_command-resuming grant junk trace c (received c more d) p) (
          cleanup_none (reply c 0 (set_eflags (resumed c d.context.eflags) (received c more d)))
            no_param refl))
