-- ===== src/Ext2/Copied.antt =====
-- What the loops of `Ext2ReadFile` append to the content, when every read of the disk succeeds.
use lt_kernel.Prelude.{
  ℕ, suc, ◌-◌, ◌*◌, ◌/◌, ◌≡◌, refl, sym, ap, ◌∙◌, inl, inr, Bool, false, Option, some, List, [],
  ◌∷◌, ◌++◌, ◌==◌, if◌then◌else◌, arith, Bool-cases, take, length, ltb, get_or, take-nil,
  append-nil, append_assoc, take-append, take-all, length-append,
}
use lt_kernel.Prelude.Words.{u32}
use lt_kernel.Status.{KeStatus, status_success, failed}
use lt_kernel.Ext2.{
  Ext2Disk, Reading, and_then, copy_block, copy_blocks, copy_again, copy_doubly, pointers,
}

-- The result `r` of a part that started in `s` and appended as much of the bytes as the file has left.
abbrev pub Copied : Reading → KeStatus × Reading → List ℕ → Type 0
Copied s r bytes =
    (r.0 ≡ status_success)
    × (r.1.out ≡ s.out ++ take s.left bytes)
    × (r.1.left ≡ s.left - length bytes)

pub Copied-nil : (s : Reading) → Copied s (status_success, s) []
Copied-nil s = (refl, rw (take-nil s.left, append-nil s.out) refl, omega arith)

take_min :
    (bs left : ℕ) (bytes : List ℕ)
    → length bytes ≡ bs
    → take (if ltb bs left then bs else left) bytes ≡ take left bytes
take_min bs left bytes h = elim (Bool-cases (ltb bs left)) [
  | inl e ↦ rw e (take-all bs bytes (omega arith) ∙ sym (take-all left bytes (ground arith)))
  | inr e ↦ rw e refl
]

pub and_then_go :
    (r : KeStatus × Reading) (f : Reading → KeStatus × Reading)
    → failed r.0 ≡ false
    → and_then r f ≡ f r.1
and_then_go r f e = rw e refl

pub and_then-Copied :
    (s : Reading) (r : KeStatus × Reading) (f : Reading → KeStatus × Reading) (xs ys : List ℕ)
    → Copied s r xs
    → ((t : Reading) → Copied t (f t) ys)
    → Copied s (and_then r f) (xs ++ ys)
and_then-Copied s r f xs ys c g =
    let next : and_then r f ≡ f r.1 = and_then_go r f (ap failed c.0) in
    let h = g r.1 in
    let appended : take s.left (xs ++ ys) ≡ take s.left xs ++ take r.1.left ys =
      take-append s.left xs ys ∙ ap (λ n. take s.left xs ++ take n ys) (sym c.2) in
    let left : (f r.1).1.left ≡ s.left - length (xs ++ ys) = omega (arith, length-append xs ys) in
    let out : (f r.1).1.out ≡ s.out ++ take s.left (xs ++ ys) =
      h.1
      ∙ ap (λ t. t ++ take r.1.left ys) c.1
      ∙ append_assoc s.out (take s.left xs) (take r.1.left ys)
      ∙ ap (λ t. s.out ++ t) (sym appended) in
    (ap (λ t. t.0) next ∙ h.0, ap (λ t. t.1.out) next ∙ out, ap (λ t. t.1.left) next ∙ left)

module _ (grant : ℕ → Bool) (junk : ℕ → List ℕ) (read : ℕ → ℕ → List ℕ → Option (List ℕ)) where
  module _ (disk : Ext2Disk) (image : ℕ → List ℕ)
      (sizes : (o : ℕ) → length (image o) ≡ disk.block_size)
      (reads : (o : ℕ) (old : List ℕ) → read o disk.block_size old ≡ some (image o)) where
    copy_block-Copied :
        (ptr : ℕ) (s : Reading)
        → Copied s (copy_block grant junk read disk ptr s) (image (u32 (ptr * disk.block_size)))
    unfolding copy_block
    copy_block-Copied ptr s =
        let o = u32 (ptr * disk.block_size) in
        rw (reads o s.held, copy_block)
          (
            refl,
            ap (λ t. s.out ++ t) (take_min disk.block_size s.left (image o) (sizes o)),
            ground (arith, sizes o),
          )

    -- The blocks behind the pointers of a list up to the first that is 0.
    abbrev pub joined : List ℕ → List ℕ
    joined [] = []
    joined (p ∷ ps) = if p == 0 then [] else image (u32 (p * disk.block_size)) ++ joined ps

    pub copy_blocks-Copied :
        (ptrs : List ℕ) (s : Reading)
        → Copied s (copy_blocks grant junk read disk ptrs s) (joined ptrs)
    unfolding copy_blocks
    copy_blocks-Copied [] s = Copied-nil s
    copy_blocks-Copied (p ∷ ps) s = elim (Bool-cases (p == 0)) [
      | inl e ↦ rw e (Copied-nil s)
      | inr e ↦ rw e (
          and_then-Copied s (copy_block grant junk read disk p s)
            (copy_blocks grant junk read disk ps) (image (u32 (p * disk.block_size))) (joined ps)
            (copy_block-Copied p s) (copy_blocks-Copied ps))
    ]

    -- One block once for each pointer of a list up to the first that is 0.
    abbrev pub again : ℕ → List ℕ → List ℕ
    again ptr [] = []
    again ptr (p ∷ ps) = if p == 0 then [] else image (u32 (ptr * disk.block_size)) ++ again ptr ps

    copy_again-Copied :
        (ptr : ℕ) (ptrs : List ℕ) (s : Reading)
        → Copied s (copy_again grant junk read disk ptr ptrs s) (again ptr ptrs)
    unfolding copy_again
    copy_again-Copied ptr [] s = Copied-nil s
    copy_again-Copied ptr (p ∷ ps) s = elim (Bool-cases (p == 0)) [
      | inl e ↦ rw e (Copied-nil s)
      | inr e ↦ rw e (
          and_then-Copied s (copy_block grant junk read disk ptr s)
            (copy_again grant junk read disk ptr ps) (image (u32 (ptr * disk.block_size)))
            (again ptr ps) (copy_block-Copied ptr s) (copy_again-Copied ptr ps))
    ]

    -- The pointers in a block.
    abbrev pub table : ℕ → List ℕ
    table p = pointers (disk.block_size / 4) (image (u32 (p * disk.block_size)))

    -- What is read of the double indirect blocks: of the table number `i`, the block at its pointer `i`
    -- as many times as the table has pointers.
    abbrev pub doubled : ℕ → List ℕ → List ℕ
    doubled i [] = []
    doubled i (p ∷ ps) =
        if p == 0 then [] else again (get_or (table p) i 0) (table p) ++ doubled (suc i) ps

    pub copy_doubly-Copied :
        (i : ℕ) (doubly ptrs : List ℕ) (s : Reading)
        → Copied s (copy_doubly grant junk read disk i doubly ptrs s) (doubled i ptrs)
    unfolding copy_doubly
    copy_doubly-Copied i doubly [] s = Copied-nil s
    copy_doubly-Copied i doubly (p ∷ ps) s = elim (Bool-cases (p == 0)) [
      | inl e ↦ rw e (Copied-nil s)
      | inr e ↦
          let o = u32 (p * disk.block_size) in
          rw (e, reads o doubly)
            (and_then-Copied s (copy_again grant junk read disk (get_or (table p) i 0) (table p) s)
              (copy_doubly grant junk read disk (suc i) (image o) ps)
              (again (get_or (table p) i 0) (table p)) (doubled (suc i) ps)
              (copy_again-Copied (get_or (table p) i 0) (table p) s)
              (copy_doubly-Copied (suc i) (image o) ps))
    ]
