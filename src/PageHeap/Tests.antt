-- ===== src/PageHeap/Tests.antt =====
-- A heap of two pages.
use lt_kernel.Prelude.{ℕ, ◌≡◌, refl, Bool, true, false, [], ◌∷◌, ◌==◌, if◌then◌else◌, arith}
use lt_kernel.Prelude.Words.{test_bit}
use lt_kernel.Prelude.Result.{stuck}
use lt_kernel.Frames.{Bitmap, IsBitmap, is_used}
use lt_kernel.Paging.{Machine}
use lt_kernel.Paging.Mapping.{IsSpace}
use lt_kernel.PageHeap.{MemPageBlock, PageHeap, page_alloc, page_free}
use lt_kernel.PageHeap.Allocate.{Allocated, page_alloc-Allocated}
use lt_kernel.PageHeap.Free.{Freed, page_free-stuck, page_free-page_alloc}

abbrev one_table : Machine
one_table = record {
  ram = λ q. if q == 0x10000 then 0x20003 else if q == 0x10ffc then 0x10003 else 0;
  cr3 = 0x10000;
}

one_table-IsSpace : IsSpace one_table
one_table-IsSpace = record {
  mapped = record { aligned = refl; self = refl; here = refl };
  separate = λ d e hd he pd pe q. ground arith;
}

abbrev block : Bool → ℕ → MemPageBlock
block available v = record { available = available; v_page_addr = v }

abbrev some_frames : Bitmap
some_frames = 7 ∷ 0 ∷ []

some_frames-IsBitmap : IsBitmap some_frames
some_frames-IsBitmap = omega arith

frame_0 : is_used some_frames 0 ≡ true
unfolding is_used test_bit
frame_0 = refl

frame_5 : is_used some_frames 5 ≡ false
unfolding is_used test_bit
frame_5 = refl

abbrev pages_at : Bool → PageHeap
pages_at available = record {
  blocks = block available 0x3000 ∷ block true 0x4000 ∷ [];
  bitmap = some_frames;
  machine = one_table;
}

page_alloc-Allocated_example :
    Allocated
      (pages_at false)
      (block false 0x3000 ∷ [])
      []
      (block true 0x4000)
      (page_alloc (pages_at false))
page_alloc-Allocated_example =
    page_alloc-Allocated (pages_at false) (block false 0x3000 ∷ []) [] (block true 0x4000) 5 refl
      (refl, tt) refl some_frames-IsBitmap (omega arith) frame_5 frame_0 (omega arith) (omega arith)
      refl one_table-IsSpace refl

page_free-stuck_example : page_free 100 0x4000 (pages_at false) ≡ stuck
page_free-stuck_example =
    page_free-stuck 100 0x4000 (block false 0x3000) (block true 0x4000 ∷ []) (pages_at false) refl
      (omega arith) (λ e. absurd (omega arith))

page_free-page_alloc_example : Freed (pages_at true) 0
page_free-page_alloc_example =
    page_free-page_alloc (pages_at true) (block true 0x4000 ∷ []) (block true 0x3000) 5 0 refl refl
      some_frames-IsBitmap (omega arith) frame_5 frame_0 (omega arith) (omega arith) refl
      one_table-IsSpace refl
