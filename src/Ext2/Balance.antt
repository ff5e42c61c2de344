-- ===== src/Ext2/Balance.antt =====
-- `Ext2ReadFile` frees what it allocates, on every path but for the content that it returns.
use lt_kernel.Prelude.{
  ℕ, suc, ◌≡◌, refl, ◌∙◌, ◌⊎◌, inl, inr, Bool, true, false, ◌||◌, Option, none, some, List, ◌==◌,
  if◌then◌else◌, arith, Bool-cases, take,
}
use lt_kernel.Status.{KeStatus, status_success, failed}
use lt_kernel.Alloc.{Alloc, request, give_back, IsSound}
use lt_kernel.Ext2.{
  Ext2Disk, Inode, Reading, and_then, read_begin, read_direct, read_singly, read_doubly, read_clean,
  ext2_read_file,
}
use lt_kernel.Ext2.Owned.{
  Own, owned, Holds, Directly, Singly, copy_blocks-Holds, read_singly-Singly, read_doubly-Own,
}

-- The memory in use is what it was, and nothing was freed that was not in use.
abbrev pub IsBack : Alloc → Alloc → Type 0
IsBack a h = ((x : ℕ) → h.live x ≡ a.live x) × (h.double_frees ≡ a.double_frees)

-- The heap after the call: without a content it is what it was and the status tells a failure; with
-- one, its address is new and in use. Nothing was freed that was not in use.
abbrev pub Balanced : Alloc → KeStatus → Option (ℕ × List ℕ) → Alloc → Type 0
Balanced a status none h = (failed status ≡ true) × IsBack a h
Balanced a status (some c) h =
    (failed status ≡ false)
    × (a.live c.0 ≡ false)
    × (h.double_frees ≡ a.double_frees)
    × ((x : ℕ) → h.live x ≡ ((x == c.0) || a.live x))

abbrev pub Balances : Alloc → KeStatus × Option (ℕ × List ℕ) × Alloc → Type 0
Balances a r = Balanced a r.0 r.1 r.2

module _ (grant : ℕ → Bool) (junk : ℕ → List ℕ) (read : ℕ → ℕ → List ℕ → Option (List ℕ)) where
  read_begin-Directly :
      (disk : Ext2Disk) (inode : Inode) (a : Alloc)
      → IsSound a
      → failed (read_begin grant junk read disk inode a).0 ≡ false
      → Holds (Directly a) (read_begin grant junk read disk inode a).1
  unfolding read_begin request
  read_begin-Directly disk inode a v =
      let z : (suc a.requests == 0) ≡ false = ground arith in
      let z' : (suc (suc a.requests) == 0) ≡ false = ground arith in
      elim (Bool-cases (grant a.requests)) [
        | inl e ↦ elim (Bool-cases (grant (suc a.requests))) [
          | inl n ↦
              rw (e, z, n, z')
                (λ f. (
                  record {
                    later = ground arith;
                    content = ground arith;
                    block = ground arith;
                    singly = ground arith;
                    doubly = ground arith;
                    apart = (λ e. ground arith, λ e. ground arith, λ e. refl);
                    live = λ x. ground (arith, v.above x, v.null);
                    counted = refl;
                  },
                  refl,
                  refl,
                ))
          | inr n ↦ rw (e, z, n) (λ f. absurd (ground arith))
        ]
        | inr e ↦ rw e (λ f. absurd (ground arith))
      ]

  cleaned :
      (s : Reading) (x : ℕ)
      → (read_clean grant junk read s).live x ≡ (
          if owned s.file_content s.block s.singly_block s.doubly_block x
          then false
          else s.heap.live x)
  unfolding read_clean give_back
  cleaned s x = ground arith

  -- With the content alone, at most it is freed.
  content_once :
      (s : Reading)
      → s.block ≡ 0
      → s.singly_block ≡ 0
      → s.doubly_block ≡ 0
      → (s.file_content ≡ 0) ⊎ (s.heap.live s.file_content ≡ true)
      → (read_clean grant junk read s).double_frees ≡ s.heap.double_frees
  unfolding read_clean give_back
  content_once s b i d (inl z) = rw (b, i, d, z) refl
  content_once s b i d (inr used) = rw (b, i, d) (ground arith)

  read_begin-failed :
      (disk : Ext2Disk) (inode : Inode) (a : Alloc)
      → IsSound a
      → failed (read_begin grant junk read disk inode a).0 ≡ true
      → IsBack a (read_clean grant junk read (read_begin grant junk read disk inode a).1)
  unfolding read_begin request
  read_begin-failed disk inode a v =
      let z : (suc a.requests == 0) ≡ false = ground arith in
      let z' : (suc (suc a.requests) == 0) ≡ false = ground arith in
      elim (Bool-cases (grant a.requests)) [
        | inl e ↦ elim (Bool-cases (grant (suc a.requests))) [
          | inl n ↦ rw (e, z, n, z') (λ f. absurd (ground arith))
          | inr n ↦
              rw (e, z, n)
                (λ f. (
                  λ x. cleaned _ x ∙ ground (arith, v.above x, v.null),
                  content_once _ refl refl refl (inr (ground arith)),
                ))
        ]
        | inr e ↦ rw e (λ f. (
          λ x. cleaned _ x ∙ ground (arith, v.above x, v.null),
          content_once _ refl refl refl (inl refl),
        ))
      ]

  -- Each block is freed while it is in use: the blocks are in use and different.
  cleaned_once :
      (a : Alloc) (s : Reading)
      → Holds (Own a) s
      → (read_clean grant junk read s).double_frees ≡ a.double_frees
  unfolding read_clean give_back
  cleaned_once a s o =
      ground
        (arith, o.live s.file_content, o.live s.block, o.live s.singly_block, o.live s.doubly_block)

  kept_once :
      (a : Alloc) (s : Reading)
      → Holds (Own a) s
      → (read_clean grant junk read (record s { file_content = 0 })).double_frees ≡ a.double_frees
  unfolding read_clean give_back
  kept_once a s o = ground (arith, o.live s.block, o.live s.singly_block, o.live s.doubly_block)

  read_clean-failed :
      (a : Alloc) (s : Reading)
      → IsSound a
      → Holds (Own a) s
      → IsBack a (read_clean grant junk read s)
  unfolding read_clean give_back
  read_clean-failed a s v o = (λ x. ground (arith, o.live x, v.above x, v.null), cleaned_once a s o)

  read_clean-done :
      (a : Alloc) (s : Reading)
      → IsSound a
      → Holds (Own a) s
      → ((read_clean grant junk read (record s { file_content = 0 })).double_frees ≡ a.double_frees)
        × ((x : ℕ)
            → (read_clean grant junk read (record s { file_content = 0 })).live x
              ≡ ((x == s.file_content) || a.live x))
  unfolding read_clean give_back
  read_clean-done a s v o = (kept_once a s o, λ x. ground (arith, o.live x, v.above x, v.null))

  -- A part of the function: freed if it failed, and in the state `P` if not.
  abbrev Fine : Alloc → (Alloc → ℕ → ℕ → ℕ → ℕ → Type 0) → KeStatus × Reading → Type 0
  Fine a P r =
      (failed r.0 ≡ true → IsBack a (read_clean grant junk read r.1))
      × (failed r.0 ≡ false → Holds P r.1)

  and_then-Fine :
      (a : Alloc) (P Q : Alloc → ℕ → ℕ → ℕ → ℕ → Type 0) (r : KeStatus × Reading)
      (f : Reading → KeStatus × Reading)
      → Fine a P r
      → ((s : Reading) → Holds P s → Fine a Q (f s))
      → Fine a Q (and_then r f)
  and_then-Fine a P Q r f o g = elim (Bool-cases (failed r.0)) [
    | inl e ↦ rw e (o.0, λ n. absurd (ground arith))
    | inr e ↦ rw e (g r.1 (o.1 e))
  ]

  Balances-end :
      (a : Alloc) (r : KeStatus × Reading)
      → IsSound a
      → Fine a (Own a) r
      → Balances a (
          if failed r.0 then (r.0, none, read_clean grant junk read r.1) else (
            status_success,
            some (r.1.file_content, r.1.out),
            read_clean grant junk read (record r.1 { file_content = 0 }),
          ))
  Balances-end a r v o = elim (Bool-cases (failed r.0)) [
    | inl e ↦ rw (e, e) (refl, o.0 e)
    | inr e ↦
        let w = read_clean-done a r.1 v (o.1 e) in
        rw e (refl, v.above _ (o.1 e).content.0, w.0, w.1)
  ]

  -- For any inode, any answers of `kmalloc` and any answers of the disk, whose reads (AtaRead) are
  -- taken to leave the heap as it is: when `Ext2ReadFile` fails, it returns no content and the memory
  -- in use is what it was; when it succeeds, it is what it was and the block of the content that it
  -- returns, which was not in use before. No call of kfree gets memory that is not in use.
  pub ext2_read_file-Balances :
      (disk : Option Ext2Disk) (inode : Option Inode) (content : Bool) (a : Alloc)
      → IsSound a
      → Balances a (ext2_read_file grant junk read disk inode content a)
  unfolding ext2_read_file
  ext2_read_file-Balances none inode content a v = (refl, (λ x. refl, refl))
  ext2_read_file-Balances (some disk) none content a v = (refl, (λ x. refl, refl))
  ext2_read_file-Balances (some disk) (some inode) false a v = (refl, (λ x. refl, refl))
  ext2_read_file-Balances (some disk) (some inode) true a v =
      let d =
        and_then (read_begin grant junk read disk inode a)
          (read_direct grant junk read disk inode) in
      let i = and_then d (read_singly grant junk read disk inode) in
      let directly : Fine a (Directly a) d =
        and_then-Fine a (Directly a) (Directly a) (read_begin grant junk read disk inode a)
          (read_direct grant junk read disk inode)
          (read_begin-failed disk inode a v, read_begin-Directly disk inode a v)
          (λ s o.
            let q = copy_blocks-Holds grant junk read disk (Directly a) (take 12 inode.block) s o in
            (
              λ f. read_clean-failed a (read_direct grant junk read disk inode s).1 v q.0,
              λ f. q,
            )) in
      let singly : Fine a (Singly a) i =
        and_then-Fine a (Directly a) (Singly a) d (read_singly grant junk read disk inode) directly
          (λ s o.
            let q = read_singly-Singly grant junk read disk inode a s o in
            (
              λ f. read_clean-failed a (read_singly grant junk read disk inode s).1 v q.0,
              λ f. q,
            )) in
      let doubly : Fine a (Own a) (and_then i (read_doubly grant junk read disk inode)) =
        and_then-Fine a (Singly a) (Own a) i (read_doubly grant junk read disk inode) singly (λ s o.
          let q = read_doubly-Own grant junk read disk inode a s o in
          (λ f. read_clean-failed a (read_doubly grant junk read disk inode s).1 v q, λ f. q)) in
      Balances-end a (and_then i (read_doubly grant junk read disk inode)) v doubly
