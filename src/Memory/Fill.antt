-- ===== src/Memory/Fill.antt =====
-- `MmSet` and `MmCopy`.
use lt_kernel.Prelude.{
  ℕ, zero, suc, ◌+◌, ◌<◌, ◌≤◌, ◌≡◌, ◌≢◌, refl, ◌∙◌, ◌&&◌, ◌⊎◌, inl, if◌then◌else◌, ltb, leb, arith,
}
use lt_kernel.Memory.{Mem, poke, copy_loop, mm_copy, set_loop, mm_set}

set_loop_lem :
    (size src byte : ℕ) (m : Mem) (x : ℕ)
    → set_loop size src byte m x ≡ (if leb src x && ltb x (src + size) then byte else m x)
unfolding set_loop
set_loop_lem zero src byte m x = ground arith
set_loop_lem (suc size) src byte m x =
    ground (arith, set_loop_lem size (src + 1) byte (poke m src byte) x)

-- `MmSet` writes the byte to each of the `size` addresses from `src` on, and to no other.
pub mm_set_lem :
    (src byte size : ℕ) (m : Mem) (x : ℕ)
    → src ≢ 0
    → mm_set src byte size m x ≡ (if leb src x && ltb x (src + size) then byte else m x)
unfolding mm_set
mm_set_lem src byte size m x ne = ground (arith, set_loop_lem size src byte m x)

copy_loop-outside :
    (size src dst : ℕ) (m : Mem) (x : ℕ)
    → (x < dst) ⊎ (dst + size ≤ x)
    → copy_loop size src dst m x ≡ m x
unfolding copy_loop
copy_loop-outside zero src dst m x out = refl
copy_loop-outside (suc size) src dst m x out =
    copy_loop-outside size (src + 1) (dst + 1) (poke m dst (m src)) x (omega arith) ∙ ground arith

copy_loop-inside :
    (size src dst : ℕ) (m : Mem) (i : ℕ)
    → i < size
    → (dst ≤ src) ⊎ (src + size ≤ dst)
    → copy_loop size src dst m (dst + i) ≡ m (src + i)
unfolding copy_loop
copy_loop-inside zero src dst m i lt apart = absurd (omega arith)
copy_loop-inside (suc size) src dst m zero lt apart =
    let e : dst + 0 ≡ dst = omega arith in
    let e' : src + 0 ≡ src = omega arith in
    rw (e, e')
      (copy_loop-outside size (src + 1) (dst + 1) (poke m dst (m src)) dst (inl (omega arith))
        ∙ ground arith)
copy_loop-inside (suc size) src dst m (suc i) lt apart =
    let e : dst + suc i ≡ dst + 1 + i = omega arith in
    let e' : src + suc i ≡ src + 1 + i = omega arith in
    rw (e, e')
      (copy_loop-inside size (src + 1) (dst + 1) (poke m dst (m src)) i (omega arith) (omega arith)
        ∙ ground arith)

-- `MmCopy` copies the `size` bytes at `src` to `dst` when the two do not overlap, and also when
-- they do and `dst` is not the higher one; it writes nowhere else.
pub mm_copy_lem :
    (src dst size : ℕ) (m : Mem)
    → src ≢ 0
    → (dst ≤ src) ⊎ (src + size ≤ dst)
    → ((i : ℕ) → i < size → mm_copy src dst size m (dst + i) ≡ m (src + i))
      × ((x : ℕ) → (x < dst) ⊎ (dst + size ≤ x) → mm_copy src dst size m x ≡ m x)
unfolding mm_copy
mm_copy_lem src dst size m ne apart = (
  λ i lt. ground (arith, copy_loop-inside size src dst m i),
  λ x out. ground (arith, copy_loop-outside size src dst m x),
)
