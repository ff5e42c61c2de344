-- ===== src/Ext2/Locate.antt =====
-- Where `Ext2ReadInode` finds an inode.
use lt_kernel.Prelude.{
  ℕ, suc, ◌+◌, ◌*◌, ◌/◌, ◌%◌, ◌<◌, ◌≤◌, ◌≡◌, refl, ◌∙◌, inl, inr, Bool, true, false, Option, none,
  some, List, ◌==◌, arith, Bool-cases, Option-cases, ◌||◌, length, get_or, ltb,
}
use native.Mathlib.Nat.{mul-add-div_right, div-eq_of_lt, mul-add-mod_self_right, mod-eq_of_lt}
use lt_kernel.Prelude.Words.{u32}
use lt_kernel.Prelude.Result.{Result, ok, fault}
use lt_kernel.Status.{KeStatus, status_success, status_failure}
use lt_kernel.Alloc.{Alloc, request, give_back}
use lt_kernel.Ext2.{Ext2Disk, Inode, inode_of, inode_bytes, ext2_read_inode}

-- The offset on the disk of the inode `index` of the group `group`.
abbrev pub slot : Ext2Disk → ℕ → ℕ → ℕ
slot disk group index =
    u32 (get_or disk.group_dec group 0 * disk.block_size + index * disk.super_block.inode_size)

div_slot : (per group index : ℕ) → index < per → (group * per + index) / per ≡ group
div_slot per group index h =
    mul-add-div_right (omega arith) group index ∙ rw (div-eq_of_lt h) (omega arith)

mod_slot : (per group index : ℕ) → index < per → (group * per + index) % per ≡ index
mod_slot per group index h = mul-add-mod_self_right group per index ∙ mod-eq_of_lt h

module _ (grant : ℕ → Bool) (junk : ℕ → List ℕ) (read : ℕ → ℕ → List ℕ → Option (List ℕ)) where
  taken :
      (a : Alloc)
      → grant a.requests ≡ true
      → (x : ℕ) → (request grant a).1.live x ≡ ((x == suc a.requests) || a.live x)
  unfolding request
  taken a g x = ground arith

  refused : (a : Alloc) → grant a.requests ≡ false → (x : ℕ) → (request grant a).1.live x ≡ a.live x
  unfolding request
  refused a g x = rw g refl

  given_back :
      (a : Alloc)
      → a.live (suc a.requests) ≡ false
      → grant a.requests ≡ true
      → (x : ℕ) → (give_back (request grant a).0 (request grant a).1).live x ≡ a.live x
  unfolding request give_back
  given_back a fresh g x = ground arith

  -- What `Ext2ReadInode` answers, by the answers of `kmalloc` and of the disk.
  abbrev pub Located :
      Alloc → Bool → Option (List ℕ) → Result (KeStatus × Option Inode × Alloc) → Type 0
  Located a false none r =
      (h : Alloc) × (r ≡ ok (status_failure, none, h)) × ((x : ℕ) → h.live x ≡ a.live x)
  Located a false (some bytes) r = r ≡ fault
  Located a true none r =
      (h : Alloc) × (r ≡ ok (status_failure, none, h)) × ((x : ℕ) → h.live x ≡ a.live x)
  Located a true (some bytes) r =
      (h : Alloc) × (r ≡ ok (status_success, some (inode_of bytes), h))
      × ((x : ℕ) → h.live x ≡ ((x == suc a.requests) || a.live x))

  -- The inode number `group * inodesPerGroup + index + 1` is the inode `index` of its group, for an
  -- index below `inodesPerGroup` and a group that has a descriptor, and inodes of at most 128 bytes,
  -- the size that is allocated: if `kmalloc` grants the request, `Ext2ReadInode` answers the inode that
  -- the disk holds at that slot and keeps the new memory; if the read fails it fails, and the memory
  -- in use is what it was. If `kmalloc` refuses, a read that fails gives the failure, with the memory in
  -- use as it was, and a read that succeeds is a write through NULL.
  pub ext2_read_inode-Located :
      (disk : Ext2Disk) (group index : ℕ) (a : Alloc)
      → index < disk.super_block.inodes_per_group
      → group < length disk.group_dec
      → disk.super_block.inode_size ≤ inode_bytes
      → a.live (suc a.requests) ≡ false
      → Located a
          (grant a.requests)
          (read (slot disk group index) disk.super_block.inode_size (junk (request grant a).0))
          (ext2_read_inode grant junk read disk
            (suc (group * disk.super_block.inodes_per_group + index))
            true
            a)
  unfolding ext2_read_inode request give_back
  ext2_read_inode-Located disk group index a hi hg hs fresh =
      let per = disk.super_block.inodes_per_group in
      let d = div_slot per group index hi in
      let m = mod_slot per group index hi in
      let z : (per == 0) ≡ false = ground arith in
      let l : ltb group (length disk.group_dec) ≡ true = ground arith in
      let k : ltb inode_bytes disk.super_block.inode_size ≡ false = ground arith in
      let y : (suc a.requests == 0) ≡ false = ground arith in
      elim (Bool-cases (grant a.requests)) [
        | inl g ↦
            elim (Option-cases
              (read (slot disk group index) disk.super_block.inode_size (junk (suc a.requests)))) [
                | inl e ↦ rw (d, m, z, l, g, y, e) (_, refl, given_back a fresh g)
                | inr (bytes, e) ↦ rw (d, m, z, l, g, y, e, k) (_, refl, λ x. taken a g x)
              ]
        | inr g ↦
            elim (Option-cases
              (read (slot disk group index) disk.super_block.inode_size (junk 0))) [
                | inl e ↦ rw (d, m, z, l, g, e) (_, refl, λ x. refused a g x)
                | inr (bytes, e) ↦ rw (d, m, z, l, g, e) refl
              ]
      ]
