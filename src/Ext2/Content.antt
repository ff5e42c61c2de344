-- ===== src/Ext2/Content.antt =====
-- The content that `Ext2ReadFile` returns, when every allocation and every read succeeds.
use lt_kernel.Prelude.{
  ℕ, ◌-◌, ◌*◌, ◌≡◌, refl, ap, ◌∙◌, inl, inr, Bool, true, false, Option, some, List, [], ◌++◌, ◌==◌,
  if◌then◌else◌, arith, Bool-cases, take, length, get_or,
}
use lt_kernel.Prelude.Words.{u32}
use lt_kernel.Status.{KeStatus, status_success, failed}
use lt_kernel.Alloc.{Alloc, request}
use lt_kernel.Ext2.{
  Ext2Disk, Inode, Reading, and_then, copy_doubly, own_singly, read_begin, read_direct, read_singly,
  read_doubly, ext2_read_file,
}
use lt_kernel.Ext2.Copied.{
  Copied, Copied-nil, and_then_go, and_then-Copied, joined, table, doubled, copy_blocks-Copied,
  copy_doubly-Copied,
}

Copied-same :
    (s t : Reading) (r : KeStatus × Reading) (bytes : List ℕ)
    → t.out ≡ s.out
    → t.left ≡ s.left
    → Copied t r bytes
    → Copied s r bytes
Copied-same s t r bytes o l c = (
  c.0,
  c.1 ∙ ap (λ x. x ++ take t.left bytes) o ∙ ap (λ n. s.out ++ take n bytes) l,
  c.2 ∙ ap (λ n. n - length bytes) l,
)

module _ (grant : ℕ → Bool) (junk : ℕ → List ℕ) (read : ℕ → ℕ → List ℕ → Option (List ℕ))
    (granted : (n : ℕ) → grant n ≡ true) where
  request-granted : (a : Alloc) → ((request grant a).0 == 0) ≡ false
  unfolding request
  request-granted a = rw (granted a.requests) (ground arith)

  module _ (disk : Ext2Disk) (image : ℕ → List ℕ)
      (sizes : (o : ℕ) → length (image o) ≡ disk.block_size)
      (reads : (o : ℕ) (old : List ℕ) → read o disk.block_size old ≡ some (image o))
      (inode : Inode) where
    abbrev ptr_at : ℕ → ℕ
    ptr_at i = get_or inode.block i 0

    -- The content of the file as the code reads it: the direct blocks, those of the single indirect
    -- block, and what is read of the double indirect block.
    abbrev pub file_blocks : List ℕ
    file_blocks =
        (joined grant junk read disk image sizes reads (take 12 inode.block)
          ++ (if ptr_at 12 == 0
              then []
              else joined grant junk read disk image sizes reads
                  (table grant junk read disk image sizes reads (ptr_at 12))))
        ++ (if ptr_at 13 == 0
            then []
            else doubled grant junk read disk image sizes reads 0
                (table grant junk read disk image sizes reads (ptr_at 13)))

    read_direct-Copied :
        (s : Reading)
        → Copied s
            (read_direct grant junk read disk inode s)
            (joined grant junk read disk image sizes reads (take 12 inode.block))
    unfolding read_direct
    read_direct-Copied s =
        copy_blocks-Copied grant junk read disk image sizes reads (take 12 inode.block) s

    read_singly-Copied :
        (s : Reading)
        → Copied s (read_singly grant junk read disk inode s) (
            if ptr_at 12 == 0
            then []
            else joined grant junk read disk image sizes reads
                (table grant junk read disk image sizes reads (ptr_at 12)))
    unfolding read_singly
    read_singly-Copied s = elim (Bool-cases (ptr_at 12 == 0)) [
      | inl e ↦ rw e (Copied-nil s)
      | inr e ↦
          rw
            (
              e,
              request-granted s.heap,
              reads (u32 (ptr_at 12 * disk.block_size)) (junk (request grant s.heap).0),
            )
            (copy_blocks-Copied grant junk read disk image sizes reads
              (table grant junk read disk image sizes reads (ptr_at 12))
              (record s {
                heap = (request grant s.heap).1;
                singly_block = (request grant s.heap).0;
              }))
    ]

    own_singly-granted : (s : Reading) → ((own_singly grant junk read s).singly_block == 0) ≡ false
    own_singly-granted s = elim (Bool-cases (s.singly_block == 0)) [
      | inl e ↦ rw e (request-granted s.heap)
      | inr e ↦ rw (e, e) refl
    ]

    own_singly-out : (s : Reading) → (own_singly grant junk read s).out ≡ s.out
    own_singly-out s = elim (Bool-cases (s.singly_block == 0)) [
      | inl e ↦ rw e refl
      | inr e ↦ rw e refl
    ]

    own_singly-left : (s : Reading) → (own_singly grant junk read s).left ≡ s.left
    own_singly-left s = elim (Bool-cases (s.singly_block == 0)) [
      | inl e ↦ rw e refl
      | inr e ↦ rw e refl
    ]

    read_doubly-Copied :
        (s : Reading)
        → Copied s (read_doubly grant junk read disk inode s) (
            if ptr_at 13 == 0
            then []
            else doubled grant junk read disk image sizes reads 0
                (table grant junk read disk image sizes reads (ptr_at 13)))
    unfolding read_doubly
    read_doubly-Copied s =
        let s1 : Reading = own_singly grant junk read s in
        elim (Bool-cases (ptr_at 13 == 0)) [
          | inl e ↦ rw e (Copied-nil s)
          | inr e ↦
              let s2 : Reading = record s1 {
                heap = (request grant s1.heap).1;
                doubly_block = (request grant s1.heap).0;
              } in
              let ps = table grant junk read disk image sizes reads (ptr_at 13) in
              let loop =
                copy_doubly grant junk read disk 0 (junk (request grant s1.heap).0) ps s2 in
              let c : Copied s loop (doubled grant junk read disk image sizes reads 0 ps) =
                Copied-same s s2 loop _ (own_singly-out s) (own_singly-left s) (
                  copy_doubly-Copied grant junk read disk image sizes reads 0
                    (junk (request grant s1.heap).0) ps s2) in
              rw
                (
                  e,
                  own_singly-granted s,
                  request-granted s1.heap,
                  reads (u32 (ptr_at 13 * disk.block_size)) (junk s1.singly_block),
                )
                c
        ]

    read_begin-granted :
        (a : Alloc)
        → (failed (read_begin grant junk read disk inode a).0 ≡ false)
          × ((read_begin grant junk read disk inode a).1.out ≡ [])
          × ((read_begin grant junk read disk inode a).1.left ≡ inode.size)
    unfolding read_begin
    read_begin-granted a =
        rw (request-granted a, request-granted (request grant a).1) (refl, refl, refl)

    -- When every `kmalloc` and every read of the disk succeeds, `Ext2ReadFile` succeeds, and the
    -- content is the first `size` bytes of the direct blocks in their order up to the first pointer 0,
    -- then of the blocks of the single indirect block up to its first 0, and then, for the table number
    -- `i` of the double indirect block, of the one block at its pointer `i`, repeated for each pointer
    -- of that table.
    pub ext2_read_file-file_blocks :
        (a : Alloc)
        → ((ext2_read_file grant junk read (some disk) (some inode) true a).0 ≡ status_success)
          × ((p : ℕ) × ((ext2_read_file grant junk read (some disk) (some inode) true a).1
                ≡ some (p, take inode.size file_blocks)))
    unfolding ext2_read_file
    ext2_read_file-file_blocks a =
        let b = read_begin grant junk read disk inode a in
        let g = read_begin-granted a in
        let d = and_then b (read_direct grant junk read disk inode) in
        let i = and_then d (read_singly grant junk read disk inode) in
        let r = and_then i (read_doubly grant junk read disk inode) in
        let direct : Copied b.1 d
            (joined grant junk read disk image sizes reads (take 12 inode.block)) =
          rw (and_then_go b (read_direct grant junk read disk inode) g.0)
            (read_direct-Copied b.1) in
        let c : Copied b.1 r file_blocks =
          and_then-Copied b.1 i (read_doubly grant junk read disk inode) _ _
            (and_then-Copied b.1 d (read_singly grant junk read disk inode) _ _ direct
              read_singly-Copied)
            read_doubly-Copied in
        let f : failed r.0 ≡ false = ap failed c.0 in
        let out : r.1.out ≡ take inode.size file_blocks =
          c.1 ∙ ap (λ t. t ++ take b.1.left file_blocks) g.1 ∙ ap (λ n. take n file_blocks) g.2 in
        rw f (refl, (r.1.file_content, ap (λ t. some (r.1.file_content, t)) out))
