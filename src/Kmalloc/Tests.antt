-- ===== src/Kmalloc/Tests.antt =====
-- Runs of the heap, and its theorems at them.
use lt_kernel.Prelude.{
  ℕ, ◌≡◌, refl, true, false, Option, none, some, List, [], ◌∷◌, arith, inr, ◌==◌, if◌then◌else◌,
}
use lt_kernel.Prelude.Words.{test_bit, set_bit}
use lt_kernel.Frames.{IsBitmap, Bitmap, is_used, get_free_page}
use lt_kernel.Kmalloc.{KHeap, Run, ok, Block, block, Headers, kmalloc, kfree, heap_init, defrag}
use lt_kernel.Kmalloc.Tiles.{Tiles, IsHeap, Spot, used_blocks}
use lt_kernel.Kmalloc.Served.{Served}
use lt_kernel.Kmalloc.Alloc.{kmalloc-Served}
use lt_kernel.Kmalloc.Free.{Freed, SameBlocks, kfree-Freed, kfree-kmalloc, kfree_ignores}
use lt_kernel.Kmalloc.Defrag.{coalesce, defrag-coalesce, used_blocks-coalesce}
use lt_kernel.Kmalloc.Grow.{Grown}
use lt_kernel.Kmalloc.Init.{heap_init-Grown}

-- A heap of one page, with a used block of 100 bytes and the rest free.
abbrev bitmap : Bitmap
bitmap = 255 ∷ 1 ∷ []

abbrev hdr : Headers
hdr x = if x == 4096 then block 100 true else if x == 4196 then block 3996 false else block 0 false

abbrev heap : KHeap
heap = record {
  hdr = hdr;
  top = 8192;
  base = 4096;
  limit = 16384;
  bitmap = bitmap;
  mapped = (4096, 28672) ∷ [];
  mallocs = 1;
  frees = 0;
}

abbrev blocks : List Block
blocks = block 100 true ∷ block 3996 false ∷ []

bitmap-reserved : is_used bitmap 0 ≡ true
unfolding is_used test_bit
bitmap-reserved = refl

bitmap-IsBitmap : IsBitmap bitmap
bitmap-IsBitmap = record { small = omega arith; bytes = omega arith }

heap-IsHeap : IsHeap heap blocks
heap-IsHeap = record {
  tiles = (refl, omega arith, (refl, omega arith, refl));
  within = omega arith;
  small = omega arith;
  positive = omega arith;
  frames = bitmap-IsBitmap;
  reserved = bitmap-reserved;
}

used_spot : Spot hdr 4096 8192 4096
used_spot = record {
  before = [];
  here = block 100 true;
  behind = block 3996 false ∷ [];
  front = refl;
  holds = refl;
  roomy = omega arith;
  back = (refl, omega arith, refl);
}

value : Run ℕ → Option ℕ
value (ok a h) = some a
value _ = none

-- A request is served from the free block, and from a new page when none is large enough.
kmalloc_pointers : (value (kmalloc 10 heap) ≡ some 4200) × (value (kmalloc 4000 heap) ≡ some 8196)
unfolding value kmalloc get_free_page test_bit set_bit
kmalloc_pointers = (refl, refl)

kmalloc-Served_example : Served heap blocks 14 1 (kmalloc 10 heap)
kmalloc-Served_example = kmalloc-Served heap blocks 10 heap-IsHeap (omega arith) (omega arith)

kfree-Freed_example : Freed heap [] (kfree 4100 heap)
unfolding used_spot used_blocks
kfree-Freed_example = kfree-Freed heap blocks heap-IsHeap 4096 used_spot refl

state : Run ℕ → KHeap
state (ok a h) = h
state _ = heap

kfree-kmalloc_example : SameBlocks heap ((4096, 100) ∷ []) (kfree 4200 (state (kmalloc 10 heap)))
unfolding used_blocks state kmalloc get_free_page
kfree-kmalloc_example =
    kfree-kmalloc heap blocks 10 4200 (state (kmalloc 10 heap)) heap-IsHeap (omega arith)
      (omega arith) refl

kfree_ignores_example : kfree 4200 heap ≡ ok tt heap
kfree_ignores_example = kfree_ignores heap 4200 (inr refl)

-- The pass goes over a joined block, so of three free neighbours the third stays apart.
coalesce_three :
    coalesce (block 8 false ∷ block 8 false ∷ block 8 false ∷ [])
    ≡ block 16 false ∷ block 8 false ∷ []
unfolding coalesce
coalesce_three = refl

defrag-coalesce_example :
    (g : Headers) × (defrag 3 8192 4096 hdr ≡ some g) × Tiles g 4096 8192 blocks
unfolding coalesce
defrag-coalesce_example =
    defrag-coalesce 3 hdr 4096 8192 blocks (omega arith) heap-IsHeap.tiles (omega arith)

used_blocks-coalesce_example : used_blocks 4096 (coalesce blocks) ≡ (4096, 100) ∷ []
unfolding used_blocks
used_blocks-coalesce_example = used_blocks-coalesce 4096 blocks

heap_init-Grown_example : Grown (record heap { top = 4096 }) 1 [] (heap_init heap)
heap_init-Grown_example =
    heap_init-Grown heap (omega arith) (omega arith) (omega arith) bitmap-IsBitmap bitmap-reserved
