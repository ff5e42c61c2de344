-- ===== src/Debug/Dangling.antt =====
-- The clean-up behind a request frees its parameters and keeps the pointer to them.
use lt_kernel.Prelude.{
  ℕ, suc, ◌<◌, ◌≤◌, ◌≡◌, ◌≢◌, refl, ◌∙◌, ◌⊎◌, inl, inr, Bool, true, false, List, ◌++◌, ◌==◌, length,
  arith,
}
use lt_kernel.Prelude.Result.{ok, fault, ◌>>=◌}
use lt_kernel.Alloc.{Alloc, give_back}
use lt_kernel.Debug.{Debugger, free_live}
use lt_kernel.Debug.Commands.{reply, set_eflags}
use lt_kernel.Debug.Wait.{cleanup, wait_loop}
use lt_kernel.Debug.Session.{
  request_packet, received, next, IsPlain, IsResuming, resumed, run_command-plain,
  run_command-resuming, recv_request_lem, send_response_lem,
}

-- An address that may be freed: NULL, or one in use.
abbrev pub IsFreeable : ℕ → Alloc → Type 0
IsFreeable p a = (p ≡ 0) ⊎ (a.live p ≡ true)

free_live_lem : (p : ℕ) (a : Alloc) → IsFreeable p a → free_live p a ≡ ok (give_back p a)
unfolding free_live give_back
free_live_lem p a (inl e) = rw e refl
free_live_lem p a (inr y) = rw (y, free_live) (ground arith)

requests-give_back : (p : ℕ) (a : Alloc) → (give_back p a).requests ≡ a.requests
unfolding give_back
requests-give_back p a = ground arith

-- The pointer of the request is one to memory that was freed.
record IsDangling (e : Debugger) : Type 0 where
  some_param : e.request.param ≢ 0
  old : e.request.param ≤ e.heap.requests
  freed : e.heap.live e.request.param ≡ false

free_live_fault : (p : ℕ) (a : Alloc) → p ≢ 0 → a.live p ≡ false → free_live p a ≡ fault
unfolding free_live
free_live_fault p a ne n = let z : (p == 0) ≡ false = ground arith in rw (z, n, free_live) refl

cleanup_fault :
    (e : Debugger) → e.request.param ≢ 0 → e.heap.live e.request.param ≡ false → cleanup e ≡ fault
unfolding cleanup
cleanup_fault e ne n = rw (free_live_fault e.request.param e.heap ne n, cleanup) refl

received_live :
    (c : ℕ) (more : List ℕ) (d : Debugger) (x : ℕ)
    → x ≤ d.heap.requests
    → (received c more d).heap.live x ≡ d.heap.live x
unfolding give_back
received_live c more d x h = ground arith

next_live :
    (c : ℕ) (more : List ℕ) (d : Debugger) (x : ℕ)
    → x ≤ d.heap.requests
    → (next c more d).heap.live x ≡ d.heap.live x
unfolding give_back
next_live c more d x h = ground arith

module _ (grant : ℕ → Bool) (junk : ℕ → List ℕ) (fuel trace : ℕ) (c : ℕ) (rest more : List ℕ)
    (grants : (n : ℕ) → grant n ≡ true) (word : c < 0x100000000)
    (few : length rest < 0x10000000) where
  wait_loop_fault :
      (e : Debugger)
      → IsDangling e
      → IsPlain c ⊎ IsResuming c
      → e.input ≡ request_packet c rest ++ more
      → wait_loop grant junk (suc fuel) trace e ≡ fault
  unfolding wait_loop
  wait_loop_fault e i (inl p) has =
      rw (recv_request_lem grant c rest more e word (grants _) few has, wait_loop)
        (rw (run_command-plain grant junk trace c (received c more e) p refl) (
          rw (send_response_lem grant c (received c more e) (grants _)) (
            rw
              (cleanup_fault (next c more e) i.some_param
                (next_live c more e e.request.param i.old ∙ i.freed))
              refl)))
  wait_loop_fault e i (inr p) has =
      rw (recv_request_lem grant c rest more e word (grants _) few has, wait_loop)
        (rw (run_command-resuming grant junk trace c (received c more e) p) (
          cleanup_fault (reply c 0 (set_eflags (resumed c e.context.eflags) (received c more e)))
            i.some_param (received_live c more e e.request.param i.old ∙ i.freed)))

  -- If kmalloc grants what is asked: when the loop of WaitForPacket cleans up behind a request with
  -- parameters, in use and apart from the data of the response, which are NULL or in use, and the next
  -- request has no parameters and is for the registers, unknown, a step, a continue or a quit, then the
  -- loop frees the old parameters a second time.
  pub wait_loop-cleanup :
      (d : Debugger)
      → d.request.param ≢ 0
      → d.request.param ≤ d.heap.requests
      → d.heap.live d.request.param ≡ true
      → d.response.data_ptr ≢ d.request.param
      → IsFreeable d.response.data_ptr d.heap
      → IsPlain c ⊎ IsResuming c
      → d.input ≡ request_packet c rest ++ more
      → (cleanup d >>= wait_loop grant junk (suc fuel) trace) ≡ fault
  unfolding cleanup give_back
  wait_loop-cleanup d ne old live apart free p has =
      let a = give_back d.request.param d.heap in
      let e : Debugger = record d { heap = give_back d.response.data_ptr a } in
      let kept : IsFreeable d.response.data_ptr a = elim free [
        | inl z ↦ inl z
        | inr y ↦ inr (ground arith)
      ] in
      let i : IsDangling e = record {
        some_param = ne;
        old =
            rw
              (requests-give_back d.response.data_ptr a ∙ requests-give_back d.request.param d.heap)
              old;
        freed = ground arith;
      } in
      rw (free_live_lem d.request.param d.heap (inr live), cleanup)
        (rw (free_live_lem d.response.data_ptr a kept) (wait_loop_fault e i p has))
