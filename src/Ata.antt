-- ===== src/Ata.antt =====
-- The disk reads and writes of kernel/drivers/ata.c. A sector that `AtaReadSectorPio` reads is a
-- parameter, `none` for its -EIO; the ports behind it are not modelled.
pub mod Read
pub mod Sectors
mod Tests
use lt_kernel.Prelude.{
  ℕ, zero, suc, ◌+◌, ◌-◌, ◌*◌, ◌/◌, ◌%◌, ◌<◌, Bool, true, false, not, Option, none, some, List, [],
  ◌∷◌, ◌++◌, ◌==◌, if◌then◌else◌, ltb, leb, take, drop,
}
use lt_kernel.Prelude.Words.{u32}
use lt_kernel.Prelude.Int.{ℤ, pos, negsuc}
use lt_kernel.Prelude.Result.{Result, ok, fault}
use lt_kernel.Alloc.{Alloc, request, give_back}

abbrev pub ata_block_size : ℕ
ata_block_size = 512

-- The loop of `AtaRead`: `n` sectors from `lba` on, behind what the buffer holds.
unfoldable pub read_sectors : (ℕ → Option (List ℕ)) → ℕ → ℕ → List ℕ → Option (List ℕ)
read_sectors sector zero lba buffer = some buffer
read_sectors sector (suc n) lba buffer = elim (sector lba) [
  | none ↦ none
  | some bytes ↦ read_sectors sector n (suc lba) (buffer ++ bytes)
]

-- What `AtaRead` returns, the bytes it writes to `buf`, the heap, and whether interrupts are enabled.
pub record Transfer : Type 0 where
  pub ret : ℤ
  pub bytes : List ℕ
  pub heap : Alloc
  pub irq : Bool

-- `offset + size` wraps to a block before the first one: a `fault`, the count of blocks is not positive.
unfoldable pub ata_read : (ℕ → Bool) → (ℕ → Option (List ℕ)) → ℕ → ℕ → Alloc → Result Transfer
ata_read grant sector offset size a =
    let block_begin = offset / ata_block_size in
    let block_end = u32 (offset + size) / ata_block_size in
    let r = request grant a in
    if ltb block_end block_begin
    then fault
    else if r.0 == 0
    then ok record { ret = pos 0; bytes = []; heap = r.1; irq = true }
    else elim (read_sectors sector (block_end - block_begin + 1) block_begin []) [
      | none ↦ ok record { ret = negsuc 4; bytes = []; heap = r.1; irq = false }
      | some buffer ↦ ok record {
        ret = pos size;
        bytes = take size (drop (offset % ata_block_size) buffer);
        heap = give_back r.0 r.1;
        irq = true;
      }
    ]

-- A call of `AtaWriteSectorPio`: the sector, the offset of its data in `buf`, and the size given.
pub record Write : Type 0 where
  pub lba : ℕ
  pub from : ℕ
  pub size : ℕ

-- `for (i = 0; i < count && size > 0; i++)`, for the `count` steps left.
unfoldable pub write_sectors : ℕ → ℕ → ℕ → ℕ → List Write
write_sectors zero lba from size = []
write_sectors (suc count) lba from size =
    if size == 0
    then []
    else if leb ata_block_size size
    then record { lba = lba; from = from; size = size }
      ∷ write_sectors count (suc lba) (from + ata_block_size) (size - ata_block_size)
    else record { lba = lba; from = from; size = size }
      ∷ write_sectors count (suc lba) (from + size) 0

-- The number returned and the sectors written. A size below 2^31 * 512 keeps the count an `int`.
unfoldable pub ata_write : ℕ → ℕ → ℤ × List Write
ata_write offset size =
    let count = (if ltb ata_block_size size then size / ata_block_size else 1) in
    if not (offset % ata_block_size == 0)
    then (negsuc 0, [])
    else (pos count, write_sectors count (offset / ata_block_size) 0 size)
