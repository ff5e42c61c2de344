-- ===== src/Frames/Tests.antt =====
-- Runs of the frame allocator, and its theorems at them.
use lt_kernel.Prelude.{ℕ, ◌+◌, ◌*◌, ◌≡◌, ◌≢◌, refl, true, false, [], ◌∷◌, arith, length}
use lt_kernel.Prelude.Words.{test_bit, set_bit, clear_bit}
use lt_kernel.Frames.{
  Bitmap, IsBitmap, is_used, get_free_page, release_page, init_bitmap, bitmap_size,
}
use lt_kernel.Frames.Search.{Outcome, get_free_page-Outcome}
use lt_kernel.Frames.Release.{release_page_lem}
use lt_kernel.Frames.Init.{is_used-init_bitmap, init_bitmap-IsBitmap}

-- 16 frames, of which 8 to 10 and 12 to 15 are free
abbrev bitmap : Bitmap
bitmap = 255 ∷ 8 ∷ []

bitmap-IsBitmap : IsBitmap bitmap
bitmap-IsBitmap = record { small = omega arith; bytes = omega arith }

get_then_release :
    (get_free_page bitmap ≡ (8 * 4096, 255 ∷ 9 ∷ []))
    × (release_page (255 ∷ 9 ∷ []) (8 * 4096 + 5) ≡ bitmap)
    × (get_free_page (255 ∷ []) ≡ (0xffffffff, 255 ∷ []))
unfolding get_free_page release_page test_bit set_bit clear_bit
get_then_release = (refl, refl, refl)

get_free_page-Outcome_example : Outcome bitmap (get_free_page bitmap)
get_free_page-Outcome_example = get_free_page-Outcome bitmap bitmap-IsBitmap

release_page_lem_example :
    IsBitmap (release_page bitmap 45057)
    × (is_used (release_page bitmap 45057) 11 ≡ false)
    × ((q : ℕ) → 11 ≢ q → is_used (release_page bitmap 45057) q ≡ is_used bitmap q)
release_page_lem_example = release_page_lem bitmap bitmap-IsBitmap 45057 (omega arith)

is_used-init_bitmap_example : is_used (init_bitmap 65536 0x800000) 2047 ≡ true
is_used-init_bitmap_example = is_used-init_bitmap 65536 0x800000 2047 (omega arith) (omega arith)

init_bitmap-IsBitmap_example :
    IsBitmap (init_bitmap 65536 0x800000) × (length (init_bitmap 65536 0x800000) ≡ bitmap_size)
init_bitmap-IsBitmap_example = init_bitmap-IsBitmap 65536 0x800000
