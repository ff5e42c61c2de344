-- ===== src/Kmalloc.antt =====
-- The kernel heap: kernel/lib/kmalloc.c, with the headers and globals of kernel/init/heap.h.
-- A header is read and written at its address, and the blocks are found by walking from header to
-- header, as in the source. Sizes that are `int` in the source are never negative here: a size
-- that is not positive is 0. Loops run on fuel; `Kmalloc.Find` and `Kmalloc.Defrag` show that the
-- distance from the first block to the end of the heap is enough.
pub mod Tiles
pub mod Find
pub mod Grow
pub mod Cut
pub mod Served
pub mod Alloc
pub mod Defrag
pub mod Free
pub mod Init
mod Tests
use lt_kernel.Prelude.{
  ℕ, zero, suc, ◌+◌, ◌-◌, ◌*◌, ◌/◌, ◌%◌, ◌^◌, ◌<◌, Bool, true, false, not, ◌&&◌, ◌||◌, Option, none,
  some, List, [], ◌∷◌, ◌==◌, if◌then◌else◌, ltb, leb,
}
use lt_kernel.Prelude.Words.{u32}
use lt_kernel.Frames.{Bitmap, page_size, get_free_page}

-- `struct mem_block`: `size : 31` counts the header too, `state : 1` is BLOCK_USED or BLOCK_FREE.
pub record Block : Type 0 where
  pub size : ℕ
  pub used : Bool

abbrev pub block : ℕ → Bool → Block
block n b = record { size = n; used = b }

-- BLOCK_HEADER_SIZE, MINIMAL_BLOCK_SIZE, DEFAULT_BLOCK_SIZE
abbrev pub header_size : ℕ
header_size = 4

abbrev pub minimal_size : ℕ
minimal_size = 4

abbrev pub default_size : ℕ
default_size = page_size - header_size

abbrev pub Headers : Type 0
Headers = ℕ → Block

-- `gHeap`, `gKMallocCount` and `gKFreeCount`, the bounds of the heap in `gKernelInfo`, the frames,
-- and the calls of `AddPageToKernelPageDirectory`, latest first, as pairs of addresses.
pub record KHeap : Type 0 where
  pub hdr : Headers
  pub top : ℕ
  pub base : ℕ
  pub limit : ℕ
  pub bitmap : Bitmap
  pub mapped : List (ℕ × ℕ)
  pub mallocs : ℕ
  pub frees : ℕ

pub data Panic : Type 0 where
  heap_limit memory_full : Panic

-- `panicked` is a call of `panic`, which does not return; `stuck` means that the fuel ran out.
pub data Run (A : Type 0) : Type 0 where
  ok : A → KHeap → Run A
  panicked : Panic → Run A
  stuck : Run A

-- `m` and then the rest, a function of its value and its heap
abbrev pub and_then : {A B : Type 0} → Run A → (A → KHeap → Run B) → Run B
and_then (ok a h) k = k a h
and_then (panicked p) k = panicked p
and_then stuck k = stuck

unfoldable pub write : Headers → ℕ → Block → Headers
write hdr a b x = if x == a then b else hdr x

-- `MmSet(from, 0, count)`, as far as headers can see it
unfoldable pub zero_fill : ℕ → ℕ → Headers → Headers
zero_fill from count hdr x = if leb from x && ltb x (from + count) then block 0 false else hdr x

-- Both bit fields keep their width.
abbrev pub set_size : ℕ → ℕ → Headers → Headers
set_size a n hdr = write hdr a (block (n % 2 ^ 31) (hdr a).used)

abbrev pub set_used : ℕ → Bool → Headers → Headers
set_used a b hdr = write hdr a (block (hdr a).size b)

-- `MmSet(&block->data, 0, block->size - BLOCK_HEADER_SIZE)`
abbrev pub clear_data : ℕ → Headers → Headers
clear_data a hdr = zero_fill (a + header_size) ((hdr a).size - header_size) hdr

-- The loop of `ksbrk`: `heap` is the address that the next page gets.
unfoldable pub add_pages : ℕ → ℕ → KHeap → Run ℕ
unfolding get_free_page
add_pages zero heap h = ok heap h
add_pages (suc n) heap h =
    let (page, bitmap) = get_free_page h.bitmap in
    let rest =
      add_pages n (u32 (heap + page_size))
        (record h { bitmap = bitmap; mapped = (heap, page) ∷ h.mapped }) in
    if page == 0 then panicked memory_full else rest

-- The address of the new block, 0 for NULL.
unfoldable pub ksbrk : ℕ → KHeap → Run ℕ
unfolding add_pages write zero_fill
ksbrk n h =
    if n == 0
    then ok 0 h
    else if ltb h.limit (u32 (h.top + n * page_size))
    then panicked heap_limit
    else and_then (add_pages n h.top h) λ heap g. ok h.top (record g {
      top = heap;
      hdr = clear_data h.top (set_used h.top false (set_size h.top (n * page_size) g.hdr));
    })

-- `while (a > b) a -= b;` with fuel `a`, and then `(a > 0) ? 1 : 0`
unfoldable pub mod_loop : ℕ → ℕ → ℕ → ℕ
mod_loop zero a b = if ltb 0 a then 1 else 0
mod_loop (suc fuel) a b =
    let rest = mod_loop fuel (a - b) b in if ltb b a then rest else if ltb 0 a then 1 else 0

-- The argument of `ksbrk` for a block of `size` bytes, its header included.
unfoldable pub pages_for : ℕ → ℕ
unfolding mod_loop
pages_for size =
    if ltb default_size size
    then (let n = size / default_size in
        if ltb 0 (mod_loop size size default_size) then n + 1 else n)
    else 1

-- The loop of `_kmalloc`: the first free block from `a` on that is large enough. The outer option
-- is `none` when the fuel runs out.
unfoldable pub find_block : ℕ → Headers → ℕ → ℕ → ℕ → Option (Option ℕ)
find_block zero hdr top size a = none
find_block (suc fuel) hdr top size a =
    let rest = find_block fuel hdr top size (u32 (a + (hdr a).size)) in
    if ltb a top
    then (if (hdr a).used || ltb (hdr a).size size then rest else some (some a))
    else some none

unfoldable pub split_block : ℕ → ℕ → Headers → Headers
unfolding write
split_block a size hdr =
    let second = u32 (a + size) in
    set_size a size (set_used second false (set_size second ((hdr a).size - size) hdr))

-- What happens to the block that the loop stops at, and `block->state = BLOCK_USED`.
unfoldable pub take_block : ℕ → ℕ → Headers → Headers
unfolding write split_block
take_block a size hdr =
    set_used a true (
      if leb (header_size + minimal_size) ((hdr a).size - size)
      then split_block a size hdr
      else hdr)

-- `_kmalloc` from block `a` on; it calls itself once, from the block that `ksbrk` adds.
unfoldable pub kmalloc_from : ℕ → ℕ → ℕ → ℕ → KHeap → Run ℕ
unfolding find_block take_block ksbrk pages_for
kmalloc_from zero fuel size a h = stuck
kmalloc_from (suc depth) fuel size a h = elim (find_block fuel h.hdr h.top size a) [
  | none ↦ stuck
  | some (some b) ↦ ok (b + header_size) (record h { hdr = take_block b size h.hdr })
  | some none ↦ and_then (ksbrk (pages_for size) h) λ b g.
      and_then (kmalloc_from depth fuel size b g)
        λ ptr g'. ok ptr (record g' { hdr = set_used b true g'.hdr })
]

-- The rounds that a walk over the whole heap may need.
abbrev pub walk_fuel : KHeap → ℕ
walk_fuel h = h.top - h.base + 2

unfoldable pub kmalloc : ℕ → KHeap → Run ℕ
unfolding kmalloc_from
kmalloc size h =
    if size == 0
    then ok 0 h
    else and_then (kmalloc_from 2 (walk_fuel h) (size + header_size) h.base h)
        λ ptr g. ok ptr (record g { mallocs = g.mallocs + 1 })

unfoldable pub merge_next : ℕ → ℕ → Headers → Headers
unfolding write zero_fill
merge_next top a hdr =
    let next = u32 (a + (hdr a).size) in
    if ltb next top && (not (hdr a).used && not (hdr next).used)
    then clear_data a (set_size a ((hdr a).size + (hdr next).size) hdr)
    else hdr

-- `_kdefrag` from block `a` on, `none` when the fuel runs out
unfoldable pub defrag : ℕ → ℕ → ℕ → Headers → Option Headers
unfolding merge_next
defrag zero top a hdr = none
defrag (suc fuel) top a hdr =
    let hdr' = merge_next top a hdr in
    let rest = defrag fuel top (u32 (a + (hdr' a).size)) hdr' in
    if ltb a top then rest else some hdr

unfoldable pub kfree : ℕ → KHeap → Run (Unit {0})
unfolding defrag write zero_fill
kfree ptr h =
    if ptr == 0
    then ok tt h
    else (let a = ptr - header_size in
        if not (h.hdr a).used
        then ok tt h
        else elim (defrag (walk_fuel h) h.top h.base (clear_data a (set_used a false h.hdr))) [
          | none ↦ stuck
          | some hdr ↦ ok tt (record h { hdr = hdr; frees = h.frees + 1 })
        ])

-- `HeapInit`, on a heap that has only its bounds
unfoldable pub heap_init : KHeap → Run ℕ
unfolding ksbrk
heap_init h = ksbrk 1 (record h { top = h.base })
