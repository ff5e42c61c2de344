-- ===== src/Ext2/Owned.antt =====
-- The memory that `Ext2ReadFile` holds while it reads the blocks.
use lt_kernel.Prelude.{
  ℕ, suc, ◌<◌, ◌≤◌, ◌≡◌, ◌⊎◌, inl, inr, Bool, not, ◌&&◌, ◌||◌, Option, List, [], ◌∷◌, ◌==◌, arith,
  Bool-cases, Option-cases, ◌/◌, ◌*◌, get_or,
}
use lt_kernel.Prelude.Words.{u32}
use lt_kernel.Status.{KeStatus, failed}
use lt_kernel.Alloc.{Alloc, request}
use lt_kernel.Ext2.{
  Ext2Disk, Inode, Reading, and_then, copy_block, copy_blocks, copy_again, copy_doubly, read_singly,
  read_doubly, pointers, own_singly,
}

-- A pointer is NULL or a new address, behind that of the content.
abbrev pub New : Alloc → Alloc → ℕ → ℕ → Type 0
New a h fc p = (p ≡ 0) ⊎ ((fc < p) × (a.requests < p) × (p ≤ h.requests))

abbrev pub owned : ℕ → ℕ → ℕ → ℕ → ℕ → Bool
owned fc b si d x = not (x == 0) && ((x == fc) || ((x == b) || ((x == si) || (x == d))))

-- The heap `h` is the heap `a` with the memory behind the four pointers.
pub record Own (a h : Alloc) (fc b si d : ℕ) : Type 0 where
  pub later : a.requests ≤ h.requests
  pub content : (a.requests < fc) × (fc ≤ h.requests)
  pub block : New a h fc b
  pub singly : New a h fc si
  pub doubly : New a h fc d
  pub apart : (b ≡ si → b ≡ 0) × (b ≡ d → b ≡ 0) × (si ≡ d → si ≡ 0)
  pub live : (x : ℕ) → h.live x ≡ (owned fc b si d x || a.live x)
  pub counted : h.double_frees ≡ a.double_frees

-- A statement of the heap and the pointers of a state.
abbrev pub Holds : (Alloc → ℕ → ℕ → ℕ → ℕ → Type 0) → Reading → Type 0
Holds P s = P s.heap s.file_content s.block s.singly_block s.doubly_block

-- The heap before the single and before the double indirect blocks are read, and at the end.
abbrev pub Directly : Alloc → Alloc → ℕ → ℕ → ℕ → ℕ → Type 0
Directly a h fc b si d = Own a h fc b si d × (si ≡ 0) × (d ≡ 0)

abbrev pub Singly : Alloc → Alloc → ℕ → ℕ → ℕ → ℕ → Type 0
Singly a h fc b si d = Own a h fc b si d × (d ≡ 0)

module _ (grant : ℕ → Bool) (junk : ℕ → List ℕ) (read : ℕ → ℕ → List ℕ → Option (List ℕ)) where
  module _ (disk : Ext2Disk) (P : Alloc → ℕ → ℕ → ℕ → ℕ → Type 0) where
    copy_block-Holds :
        (ptr : ℕ) (s : Reading) → Holds P s → Holds P (copy_block grant junk read disk ptr s).1
    unfolding copy_block
    copy_block-Holds ptr s o =
        elim (Option-cases (read (u32 (ptr * disk.block_size)) disk.block_size s.held)) [
          | inl e ↦ rw (e, copy_block) o
          | inr (bytes, e) ↦ rw (e, copy_block) o
        ]

    pub and_then-Holds :
        (r : KeStatus × Reading) (f : Reading → KeStatus × Reading)
        → Holds P r.1
        → ((s : Reading) → Holds P s → Holds P (f s).1)
        → Holds P (and_then r f).1
    and_then-Holds r f o g = elim (Bool-cases (failed r.0)) [
      | inl e ↦ rw e o
      | inr e ↦ rw e (g r.1 o)
    ]

    pub copy_blocks-Holds :
        (ptrs : List ℕ) (s : Reading)
        → Holds P s
        → Holds P (copy_blocks grant junk read disk ptrs s).1
    unfolding copy_blocks
    copy_blocks-Holds [] s o = o
    copy_blocks-Holds (ptr ∷ ptrs) s o = elim (Bool-cases (ptr == 0)) [
      | inl e ↦ rw e o
      | inr e ↦ rw e (
          and_then-Holds (copy_block grant junk read disk ptr s)
            (copy_blocks grant junk read disk ptrs) (copy_block-Holds ptr s o)
            (copy_blocks-Holds ptrs))
    ]

    copy_again-Holds :
        (ptr : ℕ) (ptrs : List ℕ) (s : Reading)
        → Holds P s
        → Holds P (copy_again grant junk read disk ptr ptrs s).1
    unfolding copy_again
    copy_again-Holds ptr [] s o = o
    copy_again-Holds ptr (p ∷ ptrs) s o = elim (Bool-cases (p == 0)) [
      | inl e ↦ rw e o
      | inr e ↦ rw e (
          and_then-Holds (copy_block grant junk read disk ptr s)
            (copy_again grant junk read disk ptr ptrs) (copy_block-Holds ptr s o)
            (copy_again-Holds ptr ptrs))
    ]

    copy_doubly-Holds :
        (i : ℕ) (doubly ptrs : List ℕ) (s : Reading)
        → Holds P s
        → Holds P (copy_doubly grant junk read disk i doubly ptrs s).1
    unfolding copy_doubly
    copy_doubly-Holds i doubly [] s o = o
    copy_doubly-Holds i doubly (ptr ∷ ptrs) s o = elim (Bool-cases (ptr == 0)) [
      | inl e ↦ rw e o
      | inr e ↦ elim (Option-cases (read (u32 (ptr * disk.block_size)) disk.block_size doubly)) [
        | inl n ↦ rw (e, n) o
        | inr (bytes, n) ↦
            let ps = pointers (disk.block_size / 4) bytes in
            rw (e, n)
              (and_then-Holds (copy_again grant junk read disk (get_or ps i 0) ps s)
                (copy_doubly grant junk read disk (suc i) bytes ptrs)
                (copy_again-Holds (get_or ps i 0) ps s o) (copy_doubly-Holds (suc i) bytes ptrs))
      ]
    ]

  module _ (a h : Alloc) (fc b si d : ℕ) (o : Own a h fc b si d) (z : si ≡ 0) where
    request-singly : Own a (request grant h).1 fc b (request grant h).0 d
    unfolding request
    request-singly = elim (Bool-cases (grant h.requests)) [
      | inl e ↦ rw e record {
        later = ground arith;
        content = ground arith;
        block = ground arith;
        singly = ground arith;
        doubly = ground arith;
        apart = (λ e. ground arith, λ e. ground arith, λ e. ground arith);
        live = λ x. ground (arith, o.live x);
        counted = o.counted;
      }
      | inr e ↦ rw e record {
        later = ground arith;
        content = ground arith;
        block = ground arith;
        singly = ground arith;
        doubly = ground arith;
        apart = (λ e. ground arith, λ e. ground arith, λ e. ground arith);
        live = λ x. ground (arith, o.live x);
        counted = o.counted;
      }
    ]

  module _ (a h : Alloc) (fc b si d : ℕ) (o : Own a h fc b si d) (z : d ≡ 0) where
    request-doubly : Own a (request grant h).1 fc b si (request grant h).0
    unfolding request
    request-doubly = elim (Bool-cases (grant h.requests)) [
      | inl e ↦ rw e record {
        later = ground arith;
        content = ground arith;
        block = ground arith;
        singly = ground arith;
        doubly = ground arith;
        apart = (λ e. ground arith, λ e. ground arith, λ e. ground arith);
        live = λ x. ground (arith, o.live x);
        counted = o.counted;
      }
      | inr e ↦ rw e record {
        later = ground arith;
        content = ground arith;
        block = ground arith;
        singly = ground arith;
        doubly = ground arith;
        apart = (λ e. ground arith, λ e. ground arith, λ e. ground arith);
        live = λ x. ground (arith, o.live x);
        counted = o.counted;
      }
    ]

  module _ (disk : Ext2Disk) (inode : Inode) (a : Alloc) where
    pub read_singly-Singly :
        (s : Reading)
        → Holds (Directly a) s
        → Holds (Singly a) (read_singly grant junk read disk inode s).1
    unfolding read_singly
    read_singly-Singly s o =
        let q =
          request-singly a s.heap s.file_content s.block s.singly_block s.doubly_block o.0 o.1 in
        elim (Bool-cases (get_or inode.block 12 0 == 0)) [
          | inl e ↦ rw e (o.0, o.2)
          | inr e ↦ elim (Bool-cases ((request grant s.heap).0 == 0)) [
            | inl n ↦ rw (e, n) (q, o.2)
            | inr n ↦
                elim (Option-cases (
                  read (u32 (get_or inode.block 12 0 * disk.block_size)) disk.block_size
                    (junk (request grant s.heap).0))) [
                      | inl m ↦ rw (e, n, m) (q, o.2)
                      | inr (bytes, m) ↦
                          let s' : Reading = record s {
                            heap = (request grant s.heap).1;
                            singly_block = (request grant s.heap).0;
                          } in
                          rw (e, n, m)
                            (copy_blocks-Holds disk (Singly a)
                              (pointers (disk.block_size / 4) bytes) s' (q, o.2))
                    ]
          ]
        ]

    own_singly-Singly :
        (s : Reading) → Holds (Singly a) s → Holds (Singly a) (own_singly grant junk read s)
    own_singly-Singly s o = elim (Bool-cases (s.singly_block == 0)) [
      | inl e ↦ rw e (
        request-singly a s.heap s.file_content s.block s.singly_block s.doubly_block o.0
            (ground arith),
        o.1,
      )
      | inr e ↦ rw e o
    ]

    pub read_doubly-Own :
        (s : Reading)
        → Holds (Singly a) s
        → Holds (Own a) (read_doubly grant junk read disk inode s).1
    unfolding read_doubly
    read_doubly-Own s o =
        let s1 : Reading = own_singly grant junk read s in
        let q1 = own_singly-Singly s o in
        let s2 : Reading = record s1 {
          heap = (request grant s1.heap).1;
          doubly_block = (request grant s1.heap).0;
        } in
        let q2 : Holds (Own a) s2 =
          request-doubly a s1.heap s1.file_content s1.block s1.singly_block s1.doubly_block q1.0
            q1.1 in
        elim (Bool-cases (get_or inode.block 13 0 == 0)) [
          | inl e ↦ rw e o.0
          | inr e ↦ elim (Bool-cases (s1.singly_block == 0)) [
            | inl n ↦ rw (e, n) q1.0
            | inr n ↦ elim (Bool-cases ((request grant s1.heap).0 == 0)) [
              | inl m ↦ rw (e, n, m) q2
              | inr m ↦
                  elim (Option-cases (
                    read (u32 (get_or inode.block 13 0 * disk.block_size)) disk.block_size
                      (junk s1.singly_block))) [
                        | inl k ↦ rw (e, n, m, k) q2
                        | inr (bytes, k) ↦
                            rw (e, n, m, k)
                              (copy_doubly-Holds disk (Own a) 0 (junk (request grant s1.heap).0)
                                (pointers (disk.block_size / 4) bytes) s2 q2)
                      ]
            ]
          ]
        ]
