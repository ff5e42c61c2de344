-- ===== src/Frames.antt =====
-- The physical page frames of kernel/init/vmm.c: `memBitmap`, a bit for each frame (1 is used).
-- A bitmap is the list of its bytes; the kernel's has `bitmap_size` of them.
pub mod Bits
pub mod Init
pub mod Search
pub mod Release
mod Tests
use lt_kernel.Prelude.{
  ℕ, zero, suc, ◌+◌, ◌-◌, ◌*◌, ◌/◌, ◌%◌, ◌^◌, ◌<◌, Bool, true, false, Option, none, some, List, [],
  ◌∷◌, ◌==◌, if◌then◌else◌, length, get_or, set, All, replicate, ltb,
}
use lt_kernel.Prelude.Words.{u32, test_bit, set_bit, clear_bit}

abbrev pub page_size : ℕ
page_size = 4096

-- RAM_MAXPAGE, and MEM_BITMAP_SIZE
abbrev pub ram_max_page : ℕ
ram_max_page = 0x100000

abbrev pub bitmap_size : ℕ
bitmap_size = 131072

abbrev pub Bitmap : Type 0
Bitmap = List ℕ

-- `memBitmap[page / 8] & (1 << (page % 8))`
unfoldable pub is_used : Bitmap → ℕ → Bool
is_used bm page = test_bit (get_or bm (page / 8) 0) (page % 8)

unfoldable pub set_page_used : Bitmap → ℕ → Bitmap
set_page_used bm page = set bm (page / 8) (set_bit (get_or bm (page / 8) 0) (page % 8))

-- The macro takes an address, not a page.
unfoldable pub set_page_unused : Bitmap → ℕ → Bitmap
set_page_unused bm addr =
    let page = addr / page_size in set bm (page / 8) (clear_bit (get_or bm (page / 8) 0) (page % 8))

-- The inner loop of `GetFreePage`, with the rounds that are left: the first bit that is 0.
unfoldable pub find_bit : ℕ → ℕ → ℕ → Option ℕ
find_bit zero bit byte = none
find_bit (suc rounds) bit byte =
    let rest = find_bit rounds (bit + 1) byte in if test_bit byte bit then rest else some bit

-- The outer loop, over the bytes from index `byte` on.
unfoldable pub find_page : Bitmap → ℕ → Option ℕ
unfolding find_bit
find_page [] byte = none
find_page (b ∷ bs) byte =
    let rest = find_page bs (byte + 1) in
    if b == 255
    then rest
    else elim (find_bit 8 0 b) [ none ↦ rest | some bit ↦ some (8 * byte + bit) ]

-- `(void *)(-1)`
abbrev pub no_page : ℕ
no_page = 0xffffffff

-- The address of the frame, and the bitmap after it is marked.
unfoldable pub get_free_page : Bitmap → ℕ × Bitmap
unfolding find_page set_page_used
get_free_page bm = elim (find_page bm 0) [
  | none ↦ (no_page, bm)
  | some page ↦ (u32 (page * page_size), set_page_used bm page)
]

unfoldable pub release_page : Bitmap → ℕ → Bitmap
unfolding set_page_unused
release_page bm addr = set_page_unused bm addr

-- `for (; page < stop; page++) memBitmap[page] = 0xFF`, with the rounds that are left
unfoldable pub block_bytes : ℕ → ℕ → Bitmap → Bitmap
block_bytes zero page bm = bm
block_bytes (suc rounds) page bm = block_bytes rounds (page + 1) (set bm page 255)

-- `for (; page < stop; page++) set_page_used(page)`
unfoldable pub reserve_pages : ℕ → ℕ → Bitmap → Bitmap
unfolding set_page_used
reserve_pages zero page bm = bm
reserve_pages (suc rounds) page bm = reserve_pages rounds (page + 1) (set_page_used bm page)

-- `(gMbi.high_mem * 1024) / PAGE_SIZE`, in 32 bits
abbrev pub last_page : ℕ → ℕ
last_page high_mem = u32 (high_mem * 1024) / page_size

-- `MmSet(memBitmap, 0, size)` over the whole array
unfoldable pub cleared : ℕ → Bitmap
cleared size = replicate size 0

-- The part of `InitVmm` that sets `memBitmap` up, from the memory size in KiB and `pKernelLimit`.
unfoldable pub init_bitmap : ℕ → ℕ → Bitmap
unfolding block_bytes reserve_pages cleared
init_bitmap high_mem kernel_limit =
    let first = last_page high_mem / 8 in
    let blocked = block_bytes (ram_max_page / 8 - first) first (cleared bitmap_size) in
    reserve_pages (kernel_limit / 4096) 0 blocked

abbrev pub IsByte : ℕ → Type 0
IsByte b = b < 256

-- At most the kernel's size, and made of bytes.
pub record IsBitmap (bm : Bitmap) : Type 0 where
  pub small : length bm < bitmap_size + 1
  pub bytes : All IsByte bm

-- The frames that the bitmap speaks of.
abbrev pub pages : Bitmap → ℕ
pages bm = 8 * length bm
