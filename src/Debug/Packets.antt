-- ===== src/Debug/Packets.antt =====
-- A packet that SendPacket writes is one that RecvPacket reads.
use lt_kernel.Prelude.{
  ℕ, suc, ◌<◌, ◌≡◌, ◌≢◌, refl, sym, ap, ◌∙◌, Bool, true, false, ◌||◌, List, [], ◌∷◌, ◌++◌, ◌==◌,
  leb, length, append-nil, arith,
}
use lt_kernel.Prelude.Result.{Result, ok}
use lt_kernel.Status.{KeStatus, status_success}
use lt_kernel.Alloc.{Alloc, granted, request_yes}
use lt_kernel.Debug.{
  KeDebugPacket, Debugger, u32_bytes, word_of, slice, read_bytes, kmalloc_bytes, recv_content,
  recv_packet, send_packet,
}

pub read_bytes-append : (xs ys : List ℕ) → read_bytes (length xs) (xs ++ ys) ≡ ok (xs, ys)
unfolding read_bytes
read_bytes-append [] ys = refl
read_bytes-append (x ∷ xs) ys = rw (read_bytes-append xs ys) refl

pub slice-append : (xs ys : List ℕ) → slice (length xs) (xs ++ ys) ≡ ok xs
unfolding slice
slice-append [] ys = refl
slice-append (x ∷ xs) ys = rw (slice-append xs ys) refl

pub slice-all : (xs : List ℕ) → slice (length xs) xs ≡ ok xs
slice-all xs = ap (slice (length xs)) (sym (append-nil xs)) ∙ slice-append xs []

pub word_of-u32_bytes : (n : ℕ) → n < 0x100000000 → word_of (u32_bytes n) ≡ n
word_of-u32_bytes n h = omega arith

pub kmalloc_bytes-granted :
    (grant : ℕ → Bool) (size : ℕ) (a : Alloc)
    → grant a.requests ≡ true
    → 0 < size
    → size < 0x80000000
    → kmalloc_bytes grant size a ≡ (suc a.requests, granted 1 a)
unfolding kmalloc_bytes
kmalloc_bytes-granted grant size a grants pos small =
    let t : (size == 0 || leb 0x80000000 size) ≡ false = ground arith in
    rw t (request_yes grant a grants)

-- What SendPacket does with a packet, and RecvPacket, on whatever line, with the bytes that it sent.
pub record IsCarried (p : KeDebugPacket) (d : Debugger) : Type 0 where
  pub sent : List ℕ
  pub sends : send_packet p d ≡ ok (status_success, record d { output = d.output ++ sent })
  pub receives :
      (grant : ℕ → Bool) (e : Debugger) (more : List ℕ)
      → grant e.heap.requests ≡ true
      → e.input ≡ sent ++ more
      → recv_packet grant e
        ≡ ok (
          status_success,
          record { size = p.size; content = suc e.heap.requests; bytes = p.bytes },
          record e { input = more; heap = granted 1 e.heap },
        )

module _ (grant : ℕ → Bool) (bytes : List ℕ) (e : Debugger) (more : List ℕ) (pos : 0 < length bytes)
    (small : length bytes < 0x80000000) (grants : grant e.heap.requests ≡ true) where
  abbrev received : Result (KeStatus × KeDebugPacket × Debugger)
  received = ok (
    status_success,
    record { size = length bytes; content = suc e.heap.requests; bytes = bytes },
    record e { input = more; heap = granted 1 e.heap },
  )

  recv_content_lem : recv_content grant (length bytes) (bytes ++ more) e ≡ received
  unfolding recv_content
  recv_content_lem =
      let z : (length bytes == 0) ≡ false = ground arith in
      let y : (suc e.heap.requests == 0) ≡ false = ground arith in
      let k = kmalloc_bytes-granted grant (length bytes) e.heap grants pos small in
      rw (z, recv_content, k, y) (rw (read_bytes-append bytes more) (rw k refl))

  pub recv_packet_lem :
      e.input ≡ u32_bytes (length bytes) ++ (bytes ++ more) → recv_packet grant e ≡ received
  unfolding recv_packet recv_content
  recv_packet_lem has =
      let n = length bytes in
      let r : read_bytes 4 (u32_bytes n ++ (bytes ++ more)) ≡ ok (u32_bytes n, bytes ++ more) =
        read_bytes-append (u32_bytes n) (bytes ++ more) in
      let w = word_of-u32_bytes n (omega arith) in
      rw (has, recv_packet, r)
        (ap (λ k. recv_content grant k (bytes ++ more) e) w ∙ recv_content_lem)

-- For a packet that is not NULL and has as many bytes as its size says, between 1 and 2^31 - 1:
-- SendPacket writes bytes from which RecvPacket, when its memory is granted, reads the same packet on
-- any line where they come next, and leaves what comes behind.
pub recv_packet-send_packet :
    (p : KeDebugPacket) (d : Debugger)
    → p.content ≢ 0
    → length p.bytes ≡ p.size
    → 0 < p.size
    → p.size < 0x80000000
    → IsCarried p d
unfolding send_packet
recv_packet-send_packet p d ne len pos small =
    let t : (p.content == 0 || p.size == 0) ≡ false = ground arith in
    let s = ap (λ n. slice n p.bytes) (sym len) ∙ slice-all p.bytes in
    record {
      sent = u32_bytes p.size ++ p.bytes;
      sends = rw (t, send_packet, s) refl;
      receives = λ grant e more grants has.
          rw (← len)
            (recv_packet_lem grant p.bytes e more (omega arith) (omega arith) grants (rw len has));
    }
