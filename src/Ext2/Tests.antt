-- ===== src/Ext2/Tests.antt =====
-- The ext2 reader at a concrete disk of blocks of 8 bytes: the first byte of a block is its offset.
use lt_kernel.Prelude.{ℕ, ◌≡◌, refl, true, false, Option, some, List, [], ◌∷◌, arith, ltb}
use lt_kernel.Status.{status_success}
use lt_kernel.Alloc.{Alloc, IsSound}
use lt_kernel.Ext2.{Ext2Disk, SuperBlock, Inode, ext2_read_inode, ext2_read_file}
use lt_kernel.Ext2.Balance.{Balances, ext2_read_file-Balances}
use lt_kernel.Ext2.Content.{ext2_read_file-file_blocks}
use lt_kernel.Ext2.Locate.{Located, ext2_read_inode-Located}

abbrev empty_heap : Alloc
empty_heap = record { requests = 0; live = λ x. false; double_frees = 0 }

empty_heap-IsSound : IsSound empty_heap
empty_heap-IsSound = record { above = λ x h. refl; null = refl }

abbrev small_super_block : SuperBlock
small_super_block = record {
  inodes_count = 20;
  blocks_count = 90;
  log_block_size = 0;
  blocks_per_group = 50;
  inodes_per_group = 10;
  inode_size = 128;
}

abbrev small_disk : Ext2Disk
small_disk = record {
  super_block = small_super_block;
  block_size = 8;
  groups = 2;
  group_dec = 5 ∷ 60 ∷ [];
}

abbrev small_inode : Inode
small_inode = record {
  mode = 32768;
  size = 20;
  block = 1 ∷ 2 ∷ 0 ∷ 0 ∷ 0 ∷ 0 ∷ 0 ∷ 0 ∷ 0 ∷ 0 ∷ 0 ∷ 0 ∷ 3 ∷ 0 ∷ 0 ∷ [];
}

abbrev image : ℕ → List ℕ
image o = o ∷ 0 ∷ 0 ∷ 0 ∷ 0 ∷ 0 ∷ 0 ∷ 0 ∷ []

abbrev read_image : ℕ → ℕ → List ℕ → Option (List ℕ)
read_image offset size old = some (image offset)

abbrev no_junk : ℕ → List ℕ
no_junk p = []

ext2_read_file-Balances_example : Balances empty_heap (
    ext2_read_file
      (λ n. ltb n 2)
      no_junk
      read_image
      (some small_disk)
      (some small_inode)
      true
      empty_heap)
ext2_read_file-Balances_example =
    ext2_read_file-Balances (λ n. ltb n 2) no_junk read_image (some small_disk) (some small_inode)
      true empty_heap empty_heap-IsSound

ext2_read_file-file_blocks_example :
    ((ext2_read_file
        (λ n. true)
        no_junk
        read_image
        (some small_disk)
        (some small_inode)
        true
        empty_heap).0
      ≡ status_success)
    × ((p : ℕ) × ((ext2_read_file
            (λ n. true)
            no_junk
            read_image
            (some small_disk)
            (some small_inode)
            true
            empty_heap).1
          ≡ some (
            p,
            8 ∷ 0 ∷ 0 ∷ 0 ∷ 0 ∷ 0 ∷ 0 ∷ 0 ∷ 16 ∷ 0 ∷ 0 ∷ 0 ∷ 0 ∷ 0 ∷ 0 ∷ 0 ∷ 192 ∷ 0 ∷ 0 ∷ 0 ∷ [],
          )))
ext2_read_file-file_blocks_example =
    ext2_read_file-file_blocks (λ n. true) no_junk read_image (λ n. refl) small_disk image
      (λ o. refl) (λ o old. refl) small_inode empty_heap

ext2_read_inode-Located_example :
    Located
      (λ n. true)
      no_junk
      read_image
      empty_heap
      true
      (some (image 736))
      (ext2_read_inode (λ n. true) no_junk read_image small_disk 13 true empty_heap)
ext2_read_inode-Located_example =
    ext2_read_inode-Located (λ n. true) no_junk read_image small_disk 1 2 empty_heap (omega arith)
      (omega arith) (omega arith) refl
