-- ===== src/Elf/Count.antt =====
-- How many frames are free, and what `GetFreePage` leaves of them, for the frames of a program.
use lt_kernel.Prelude.{
  ℕ, zero, suc, ◌*◌, ◌<◌, ◌≤◌, ◌≡◌, ◌≢◌, refl, ap, ◌∙◌, true, false, ◌==◌, if◌then◌else◌, arith,
  length, length-set, Option-cases, inl, inr, Bool-cases,
}
use lt_kernel.Frames.{Bitmap, IsBitmap, pages, is_used, get_free_page, find_page, set_page_used}
use lt_kernel.Frames.Search.{Outcome, get_free_page-Outcome}
use lt_kernel.Frames.Search.Outcome.{found, full}
use lt_kernel.PageHeap.Allocate.{positive}

-- The free frames below the frame `n`.
abbrev pub free_below : ℕ → Bitmap → ℕ
free_below zero bm = 0
free_below (suc n) bm = if is_used bm n then free_below n bm else suc (free_below n bm)

-- The address is that of a frame which was free, and that frame alone is now in use as well.
pub record IsTaken (bm : Bitmap) (addr : ℕ) (out : Bitmap) : Type 0 where
  pub frame : ℕ
  pub address : addr ≡ frame * 4096
  pub was_free : is_used bm frame ≡ false
  pub lowest : (q : ℕ) → q < frame → is_used bm q ≡ true
  pub used : is_used out frame ≡ true
  pub others : (q : ℕ) → frame ≢ q → is_used out q ≡ is_used bm q

module _ (bm out : Bitmap) (p : ℕ) (others : (q : ℕ) → p ≢ q → is_used out q ≡ is_used bm q) where
  same_below : (n : ℕ) → n ≤ p → free_below n out ≡ free_below n bm
  same_below zero h = refl
  same_below (suc n) h = rw (same_below n (omega arith), others n (λ e. absurd (omega arith))) refl

  one_taken : (n : ℕ) → free_below n bm ≤ suc (free_below n out)
  one_taken zero = omega arith
  one_taken (suc n) = elim (Bool-cases (p == n)) [
    | inl e ↦ let q : p ≡ n = ground arith in ground (arith, same_below n (omega arith))
    | inr e ↦ ground (arith, one_taken n, others n (λ q. absurd (ground arith)))
  ]

none_below : (n : ℕ) (bm : Bitmap) → ((q : ℕ) → q < n → is_used bm q ≡ true) → free_below n bm ≡ 0
none_below zero bm h = refl
none_below (suc n) bm h = rw (h n (omega arith)) (none_below n bm (λ q l. h q (omega arith)))

length-get_free_page : (bm : Bitmap) → length (get_free_page bm).1 ≡ length bm
unfolding get_free_page set_page_used
length-get_free_page bm = elim (Option-cases (find_page bm 0)) [
  | inl e ↦ rw (e, get_free_page) refl
  | inr (p, e) ↦ rw (e, get_free_page) (length-set bm _ _)
]

-- What GetFreePage does when one of the frames below `n` is free and the frame 0 is not.
pub record Took (n : ℕ) (bm : Bitmap) (r : ℕ × Bitmap) : Type 0 where
  pub some_frame : (r.0 == 0) ≡ false
  pub is_bitmap : IsBitmap r.1
  pub zeroth : is_used r.1 0 ≡ true
  pub taken : IsTaken bm r.0 r.1
  pub fewer : free_below n bm ≤ suc (free_below n r.1)

took :
    (n : ℕ) (bm : Bitmap) (r : ℕ × Bitmap)
    → Outcome bm r
    → is_used bm 0 ≡ true
    → n ≤ pages bm
    → 0 < free_below n bm
    → Took n bm r
took n bm r (found p addr out first at is used others back) z inside room =
    let pos = positive bm p first.free z in
    record {
      some_frame = ground arith;
      is_bitmap = is;
      zeroth = others 0 (λ e. absurd (omega arith)) ∙ z;
      taken = record {
        frame = p;
        address = at;
        was_free = first.free;
        lowest = first.below;
        used = used;
        others = others;
      };
      fewer = one_taken bm out p others n;
    }
took n bm r (full all_used) z inside room =
    absurd (omega (arith, none_below n bm (λ q l. all_used q (omega arith))))

pub get_free_page-Took :
    (n : ℕ) (bm : Bitmap)
    → IsBitmap bm
    → is_used bm 0 ≡ true
    → n ≤ pages bm
    → 0 < free_below n bm
    → Took n bm (get_free_page bm)
get_free_page-Took n bm b z = took n bm (get_free_page bm) (get_free_page-Outcome bm b) z

pub get_free_page-pages : (bm : Bitmap) → pages (get_free_page bm).1 ≡ pages bm
get_free_page-pages bm = ap (λ n. 8 * n) (length-get_free_page bm)
