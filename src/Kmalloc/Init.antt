-- ===== src/Kmalloc/Init.antt =====
-- `HeapInit`.
use lt_kernel.Prelude.{◌+◌, ◌^◌, ◌<◌, ◌≤◌, ◌≡◌, refl, true, [], arith}
use lt_kernel.Frames.{page_size, IsBitmap, is_used}
use lt_kernel.Kmalloc.{KHeap, heap_init}
use lt_kernel.Kmalloc.Grow.{Grown, ksbrk-Grown}

-- With room for a page below the limit, `HeapInit` leaves a well-formed heap of one free block that
-- fills one page at the heap's base.
pub heap_init-Grown :
    (h : KHeap)
    → 0 < h.base
    → h.base + page_size ≤ h.limit
    → h.limit < 2 ^ 31
    → IsBitmap h.bitmap
    → is_used h.bitmap 0 ≡ true
    → Grown (record h { top = h.base }) 1 [] (heap_init h)
unfolding heap_init
heap_init-Grown h pos room small frames reserved =
    ksbrk-Grown (record h { top = h.base }) []
      (record {
        tiles = refl;
        within = omega arith;
        small = small;
        positive = pos;
        frames = frames;
        reserved = reserved;
      })
      1 (omega arith) (omega arith)
