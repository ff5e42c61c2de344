-- ===== src/Ext2.antt =====
-- The ext2 reader of kernel/fs/ext2.c. `AtaRead` is a parameter here: it takes the offset, the size
-- and what the buffer holds, and answers what the buffer holds afterwards, `none` for a negative
-- return. A buffer from `kmalloc` holds `junk`.
pub mod Owned
pub mod Balance
pub mod Content
pub mod Copied
pub mod Locate
mod Tests
use lt_kernel.Prelude.{
  ℕ, zero, suc, ◌+◌, ◌-◌, ◌*◌, ◌/◌, ◌%◌, ◌^◌, ◌<◌, Bool, true, false, Option, none, some, List, [],
  ◌∷◌, ◌++◌, ◌==◌, if◌then◌else◌, ltb, length, take, drop, get_or, bit_and, not,
}
use lt_kernel.Prelude.Words.{u32, u16}
use lt_kernel.Prelude.Result.{Result, ok, fault, stuck, ◌>>=◌}
use lt_kernel.Status.{
  KeStatus, status_success, status_failure, status_invalid_parameter, status_null_parameter,
  status_alloc_failed, failed,
}
use lt_kernel.Alloc.{Alloc, request, give_back}

-- little-endian numbers
abbrev pub le16 : List ℕ → ℕ → ℕ
le16 bytes at = get_or bytes at 0 + 256 * get_or bytes (at + 1) 0

abbrev pub le32 : List ℕ → ℕ → ℕ
le32 bytes at = le16 bytes at + 65536 * le16 bytes (at + 2)

-- a block as an array of `n` pointers
abbrev pub pointers : ℕ → List ℕ → List ℕ
pointers zero bytes = []
pointers (suc n) bytes = le32 bytes 0 ∷ pointers n (drop 4 bytes)

-- the fields of `Ext2SuperBlock` that the code reads
pub record SuperBlock : Type 0 where
  pub inodes_count : ℕ
  pub blocks_count : ℕ
  pub log_block_size : ℕ
  pub blocks_per_group : ℕ
  pub inodes_per_group : ℕ
  pub inode_size : ℕ

abbrev pub super_block_of : List ℕ → SuperBlock
super_block_of bytes = record {
  inodes_count = le32 bytes 0;
  blocks_count = le32 bytes 4;
  log_block_size = le32 bytes 24;
  blocks_per_group = le32 bytes 32;
  inodes_per_group = le32 bytes 40;
  inode_size = le16 bytes 88;
}

-- `group_dec` holds the field `inodeTable` of each descriptor.
pub record Ext2Disk : Type 0 where
  pub super_block : SuperBlock
  pub block_size : ℕ
  pub groups : ℕ
  pub group_dec : List ℕ

abbrev pub group_table : ℕ → List ℕ → List ℕ
group_table zero bytes = []
group_table (suc n) bytes = le32 bytes 8 ∷ group_table n (drop 32 bytes)

pub record Inode : Type 0 where
  pub mode : ℕ
  pub size : ℕ
  pub block : List ℕ

abbrev pub inode_of : List ℕ → Inode
inode_of bytes = record {
  mode = le16 bytes 0;
  size = le32 bytes 4;
  block = pointers 15 (drop 40 bytes);
}

-- `sizeof(Ext2Inode)`
abbrev pub inode_bytes : ℕ
inode_bytes = 128

-- `blocksCount / blocksPerGroup + ((blocksCount % blocksPerGroup) ? 1 : 0)`
abbrev pub groups_of : ℕ → ℕ → ℕ
groups_of n per = u32 (n / per + (if n % per == 0 then 0 else 1))

module _ (grant : ℕ → Bool) (junk : ℕ → List ℕ) (read : ℕ → ℕ → List ℕ → Option (List ℕ)) where
  -- The status, `*superBlock`, its address, and the heap.
  unfoldable pub read_super_block : Alloc → KeStatus × Option SuperBlock × ℕ × Alloc
  unfolding request give_back
  read_super_block a =
      let r = request grant a in
      if r.0 == 0 then (status_alloc_failed, none, 0, r.1) else elim (read 1024 1024 (junk r.0)) [
        | none ↦ (status_failure, none, 0, give_back r.0 r.1)
        | some bytes ↦ (status_success, some (super_block_of bytes), r.0, r.1)
      ]

  unfoldable pub read_group_desc : Ext2Disk → Alloc → KeStatus × Option (List ℕ) × Alloc
  unfolding request give_back
  read_group_desc disk a =
      let r = request grant a in
      let offset = (if disk.block_size == 1024 then 2048 else disk.block_size) in
      if r.0 == 0
      then (status_alloc_failed, none, r.1)
      else elim (read offset (disk.groups * 32) (junk r.0)) [
        | none ↦ (status_failure, none, give_back r.0 r.1)
        | some bytes ↦ (status_success, some (group_table disk.groups bytes), r.1)
      ]

  -- A division by a zero of the superblock is a `fault`. `1024 << logBlockSize` is taken for shifts
  -- below 32.
  unfoldable pub mounted : ℕ → SuperBlock → Result Ext2Disk
  mounted address sb =
      if sb.blocks_per_group == 0
      then fault
      else if sb.inodes_per_group == 0
      then fault
      else let i = groups_of sb.blocks_count sb.blocks_per_group in
        let j = groups_of sb.inodes_count sb.inodes_per_group in
        ok record {
          super_block = sb;
          block_size = u32 (1024 * 2 ^ sb.log_block_size);
          groups = u16 (if ltb j i then i else j);
          group_dec = [];
        }

  -- `device` and `disk` tell whether the parameters are not NULL. The disk is the new `*disk`.
  unfoldable pub ext2_read_disk_on_device :
      Bool → Bool → Alloc → Result (KeStatus × Option Ext2Disk × Alloc)
  unfolding request give_back read_super_block read_group_desc mounted
  ext2_read_disk_on_device false disk a = ok (status_null_parameter, none, a)
  ext2_read_disk_on_device true false a = ok (status_null_parameter, none, a)
  ext2_read_disk_on_device true true a =
      let r = request grant a in
      let s = read_super_block r.1 in
      if r.0 == 0 then ok (status_alloc_failed, none, r.1) else elim s.1 [
        | none ↦ ok (s.0, none, give_back r.0 s.3)
        | some sb ↦ do
          local ← mounted r.0 sb
          (let g = read_group_desc local s.3 in
              elim g.1 [
                | none ↦ ok (g.0, none, give_back s.2 (give_back r.0 g.2))
                | some table ↦ ok (status_success, some (record local { group_dec = table }), g.2)
              ])
      ]

  -- `num` is not negative; `inode` tells whether the parameter is not NULL. A request
  -- that is refused does not end the function: the inode is then read to the address NULL, a `fault` if
  -- the disk answers. A `fault` is also a write of more bytes than the allocated inode has, and a group
  -- with no descriptor.
  unfoldable pub ext2_read_inode :
      Ext2Disk → ℕ → Bool → Alloc → Result (KeStatus × Option Inode × Alloc)
  unfolding request give_back
  ext2_read_inode disk num false a = ok (status_null_parameter, none, a)
  ext2_read_inode disk zero true a = ok (status_invalid_parameter, none, a)
  ext2_read_inode disk (suc n) true a =
      let r = request grant a in
      let group = n / disk.super_block.inodes_per_group in
      let index = n % disk.super_block.inodes_per_group in
      let offset =
        u32
          (get_or disk.group_dec group 0 * disk.block_size + index * disk.super_block.inode_size) in
      if disk.super_block.inodes_per_group == 0
      then fault
      else if not (ltb group (length disk.group_dec))
      then fault
      else if r.0 == 0
      then elim (read offset disk.super_block.inode_size (junk 0)) [
        | none ↦ ok (status_failure, none, r.1)
        | some bytes ↦ fault
      ]
      else elim (read offset disk.super_block.inode_size (junk r.0)) [
        | none ↦ ok (status_failure, none, give_back r.0 r.1)
        | some bytes ↦
            if ltb inode_bytes disk.super_block.inode_size
            then fault
            else ok (status_success, some (inode_of bytes), r.1)
      ]

-- The locals of `Ext2ReadFile`: the pointers (0 for NULL), what `block` holds, the bytes written to
-- `fileContent`, and `fileSize`, the number of bytes left.
pub record Reading : Type 0 where
  pub heap : Alloc
  pub file_content : ℕ
  pub block : ℕ
  pub singly_block : ℕ
  pub doubly_block : ℕ
  pub held : List ℕ
  pub out : List ℕ
  pub left : ℕ

-- A part of the function: the status at its end, or at the jump to `clean`.
abbrev pub and_then : KeStatus × Reading → (Reading → KeStatus × Reading) → KeStatus × Reading
and_then r f = if failed r.0 then r else f r.1

module _ (grant : ℕ → Bool) (junk : ℕ → List ℕ) (read : ℕ → ℕ → List ℕ → Option (List ℕ)) where
  -- Read the block `ptr` and append as much of it as the file has left.
  unfoldable pub copy_block : Ext2Disk → ℕ → Reading → KeStatus × Reading
  copy_block disk ptr s = elim (read (u32 (ptr * disk.block_size)) disk.block_size s.held) [
    | none ↦ (status_failure, s)
    | some bytes ↦
        let size = (if ltb disk.block_size s.left then disk.block_size else s.left) in
        (
          status_success,
          record s { held = bytes; out = s.out ++ take size bytes; left = s.left - size },
        )
  ]

  -- `for (i = 0; i < n && ptrs[i]; i++)`, for the `n` pointers of the list.
  unfoldable pub copy_blocks : Ext2Disk → List ℕ → Reading → KeStatus × Reading
  unfolding copy_block
  copy_blocks disk [] s = (status_success, s)
  copy_blocks disk (ptr ∷ ptrs) s =
      if ptr == 0
      then (status_success, s)
      else and_then (copy_block disk ptr s) (copy_blocks disk ptrs)

  unfoldable pub read_direct : Ext2Disk → Inode → Reading → KeStatus × Reading
  unfolding copy_blocks
  read_direct disk inode s = copy_blocks disk (take 12 inode.block) s

  unfoldable pub read_singly : Ext2Disk → Inode → Reading → KeStatus × Reading
  unfolding copy_blocks request
  read_singly disk inode s =
      let ptr = get_or inode.block 12 0 in
      let r = request grant s.heap in
      let s' = record s { heap = r.1; singly_block = r.0 } in
      if ptr == 0
      then (status_success, s)
      else if r.0 == 0
      then (status_alloc_failed, s')
      else elim (read (u32 (ptr * disk.block_size)) disk.block_size (junk r.0)) [
        | none ↦ (status_failure, s')
        | some bytes ↦ copy_blocks disk (pointers (disk.block_size / 4) bytes) s'
      ]

  -- The loop on `j`, which reads `doublyBlock[i]` for each pointer `doublyBlock[j]`.
  unfoldable pub copy_again : Ext2Disk → ℕ → List ℕ → Reading → KeStatus × Reading
  unfolding copy_block
  copy_again disk ptr [] s = (status_success, s)
  copy_again disk ptr (p ∷ ptrs) s =
      if p == 0
      then (status_success, s)
      else and_then (copy_block disk ptr s) (copy_again disk ptr ptrs)

  -- The loop on `i`. `doubly` is what `doublyBlock` holds.
  unfoldable pub copy_doubly : Ext2Disk → ℕ → List ℕ → List ℕ → Reading → KeStatus × Reading
  unfolding copy_again
  copy_doubly disk i doubly [] s = (status_success, s)
  copy_doubly disk i doubly (ptr ∷ ptrs) s =
      if ptr == 0
      then (status_success, s)
      else elim (read (u32 (ptr * disk.block_size)) disk.block_size doubly) [
        | none ↦ (status_failure, s)
        | some bytes ↦
            let ps = pointers (disk.block_size / 4) bytes in
            and_then (copy_again disk (get_or ps i 0) ps s) (copy_doubly disk (suc i) bytes ptrs)
      ]

  -- `singlyBlock` is allocated here if it is NULL.
  abbrev pub own_singly : Reading → Reading
  own_singly s =
      if s.singly_block == 0
      then (let r = request grant s.heap in record s { heap = r.1; singly_block = r.0 })
      else s

  unfoldable pub read_doubly : Ext2Disk → Inode → Reading → KeStatus × Reading
  unfolding copy_doubly request
  read_doubly disk inode s =
      let ptr = get_or inode.block 13 0 in
      let s1 = own_singly s in
      let r = request grant s1.heap in
      let s2 = record s1 { heap = r.1; doubly_block = r.0 } in
      if ptr == 0
      then (status_success, s)
      else if s1.singly_block == 0
      then (status_alloc_failed, s1)
      else if r.0 == 0
      then (status_alloc_failed, s2)
      else elim (read (u32 (ptr * disk.block_size)) disk.block_size (junk s1.singly_block)) [
        | none ↦ (status_failure, s2)
        | some bytes ↦ copy_doubly disk 0 (junk r.0) (pointers (disk.block_size / 4) bytes) s2
      ]

  -- The allocation of `fileContent` and of `block`.
  unfoldable pub read_begin : Ext2Disk → Inode → Alloc → KeStatus × Reading
  unfolding request
  read_begin disk inode a =
      let r = request grant a in
      let b = request grant r.1 in
      let s : Reading = record {
        heap = r.1;
        file_content = r.0;
        block = 0;
        singly_block = 0;
        doubly_block = 0;
        held = [];
        out = [];
        left = inode.size;
      } in
      if r.0 == 0
      then (status_alloc_failed, s)
      else if b.0 == 0
      then (status_alloc_failed, record s { heap = b.1 })
      else (status_success, record s { heap = b.1; block = b.0; held = junk b.0 })

  -- What stands behind the label `clean`.
  unfoldable pub read_clean : Reading → Alloc
  unfolding give_back
  read_clean s =
      give_back s.doubly_block
        (give_back s.singly_block (give_back s.block (give_back s.file_content s.heap)))

  -- The status, `*content` with its address, and the heap. The parameters that are NULL are `none`,
  -- and `false` for `content`.
  unfoldable pub ext2_read_file :
      Option Ext2Disk → Option Inode → Bool → Alloc → KeStatus × Option (ℕ × List ℕ) × Alloc
  unfolding read_begin read_direct read_singly read_doubly read_clean
  ext2_read_file none inode content a = (status_null_parameter, none, a)
  ext2_read_file (some disk) none content a = (status_null_parameter, none, a)
  ext2_read_file (some disk) (some inode) false a = (status_null_parameter, none, a)
  ext2_read_file (some disk) (some inode) true a =
      let r =
        and_then
          (and_then (and_then (read_begin disk inode a) (read_direct disk inode))
            (read_singly disk inode))
          (read_doubly disk inode) in
      if failed r.0 then (r.0, none, read_clean r.1) else (
        status_success,
        some (r.1.file_content, r.1.out),
        read_clean (record r.1 { file_content = 0 }),
      )
