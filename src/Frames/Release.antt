-- ===== src/Frames/Release.antt =====
-- `ReleasePage` of an address in any frame.
use lt_kernel.Prelude.{ℕ, ◌*◌, ◌/◌, ◌<◌, ◌≡◌, ◌≢◌, false, arith, ◌∙◌, ap}
use lt_kernel.Frames.{Bitmap, page_size, is_used, set_page_unused, release_page, IsBitmap, pages}
use lt_kernel.Frames.Bits.{is_used-unused_self, is_used-unused_ne, set_page_unused-IsBitmap}

aligned :
    (bm : Bitmap) (addr : ℕ)
    → set_page_unused bm addr ≡ set_page_unused bm (addr / page_size * page_size)
unfolding set_page_unused
aligned bm addr =
    let e : addr / page_size * page_size / page_size ≡ addr / page_size = omega arith in rw e

module _ (bm : Bitmap) (v : IsBitmap bm) (addr : ℕ) (inside : addr / page_size < pages bm) where
  -- Releasing an address makes the frame that holds it free, also when the address is not the
  -- frame's first, and changes the state of no other frame; the bitmap stays a bitmap.
  pub release_page_lem :
      IsBitmap (release_page bm addr)
      × (is_used (release_page bm addr) (addr / page_size) ≡ false)
      × ((q : ℕ) → addr / page_size ≢ q → is_used (release_page bm addr) q ≡ is_used bm q)
  unfolding release_page
  release_page_lem = (
    set_page_unused-IsBitmap v addr,
    ap (λ t. is_used t (addr / page_size)) (aligned bm addr)
        ∙ is_used-unused_self v (addr / page_size) inside,
    λ q ne. is_used-unused_ne v addr q inside ne,
  )
