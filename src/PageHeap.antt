-- ===== src/PageHeap.antt =====
-- The heap of pages: PageAlloc and PageFree of kernel/lib/kmalloc.c, PageHeapInit of
-- kernel/init/heap.c, and the functions of kernel/init/vmm.c that allocate pages. A page is a virtual
-- address of the heap that is mapped to a free frame. The list `gPageHeap` is the list of its blocks.
pub mod Allocate
pub mod Free
mod Tests
use lt_kernel.Prelude.{
  ℕ, zero, suc, ◌+◌, ◌*◌, ◌/◌, ◌%◌, ◌<◌, Bool, true, false, Option, none, some, List, [], ◌∷◌, ◌++◌,
  ◌==◌, if◌then◌else◌, ltb, bit_or,
}
use lt_kernel.Prelude.Result.{Result, ok, fault, stuck, ◌>>=◌}
use lt_kernel.Frames.{Bitmap, get_free_page, release_page, page_size}
use lt_kernel.Paging.{
  Machine, load, store, pde_at, pte_at, flag_on, page_present, page_writeable,
  page_non_privileged_access, set_page_directory_entry, set_page_table_entry, clean_page_table,
  get_physical_address, add_page_to_kernel_page_directory,
}

-- `struct mem_pblock`, without the links
pub record MemPageBlock : Type 0 where
  pub available : Bool
  pub v_page_addr : ℕ

-- `struct page`
pub record Page : Type 0 where
  pub p_addr : ℕ
  pub v_addr : ℕ

pub record PageHeap : Type 0 where
  pub blocks : List MemPageBlock
  pub bitmap : Bitmap
  pub machine : Machine

-- The loop of `PageHeapInit` behind the block at `v`, for `fuel` rounds; `kmalloc` grants each block.
unfoldable pub heap_blocks : ℕ → ℕ → ℕ → Result (List MemPageBlock)
heap_blocks zero limit v = stuck
heap_blocks (suc fuel) limit v = elim (ltb v limit) [
  | false ↦ ok []
  | true ↦ do
    rest ← heap_blocks fuel limit (v + page_size)
    ok (record { available = true; v_page_addr = v + page_size } ∷ rest)
]

unfoldable pub page_heap_init : ℕ → ℕ → ℕ → Result (List MemPageBlock)
page_heap_init fuel base limit = do
  rest ← heap_blocks fuel limit base
  ok (record { available = true; v_page_addr = base } ∷ rest)

-- The loop of `PageAlloc`: the first block that is free becomes used.
unfoldable pub take_block : List MemPageBlock → Option (ℕ × List MemPageBlock)
take_block [] = none
take_block (b ∷ bs) = elim b.available [
  | true ↦ some (b.v_page_addr, record b { available = false } ∷ bs)
  | false ↦ elim (take_block bs) [ none ↦ none | some (v, cs) ↦ some (v, b ∷ cs) ]
]

-- `PageAlloc`; `none` where it panics or the machine is halted.
unfoldable pub page_alloc : PageHeap → Result (Option (Page × PageHeap))
page_alloc h =
    let frame = get_free_page h.bitmap in
    elim (frame.0 == 0) [
      | true ↦ ok none
      | false ↦ elim (take_block h.blocks) [
        | none ↦ ok none
        | some (v, blocks) ↦ elim (v == 0) [
          | true ↦ ok none
          | false ↦ do
            mapped ← add_page_to_kernel_page_directory v frame.0 h.machine
            elim mapped [
              | none ↦ ok none
              | some m ↦ ok (
                  some (
                    record { p_addr = frame.0; v_addr = v },
                    record { blocks = blocks; bitmap = frame.1; machine = m },
                  ))
            ]
        ]
      ]
    ]

-- The loop of `PageFree` at the block `block`, NULL behind the end, for `fuel` rounds: it does not move
-- to the next block.
unfoldable pub free_loop : ℕ → ℕ → Option MemPageBlock → PageHeap → Result PageHeap
free_loop fuel ptr none h = ok h
free_loop zero ptr (some b) h = stuck
free_loop (suc fuel) ptr (some b) h = elim (b.v_page_addr == ptr) [
  | true ↦ do
    p ← get_physical_address ptr h.machine
    ok (record h {
      blocks = elim h.blocks [ [] ↦ [] | c ∷ cs ↦ record c { available = true } ∷ cs ];
      bitmap = release_page h.bitmap p;
    })
  | false ↦ free_loop fuel ptr (some b) h
]

abbrev pub first : List MemPageBlock → Option MemPageBlock
first [] = none
first (b ∷ bs) = some b

unfoldable pub page_free : ℕ → ℕ → PageHeap → Result PageHeap
page_free fuel ptr h = if ptr == 0 then ok h else free_loop fuel ptr (first h.blocks) h
