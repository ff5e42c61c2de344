-- ===== src/Kmalloc/Grow.antt =====
-- `ksbrk` and the number of pages that `_kmalloc` asks of it.
use lt_kernel.Prelude.{
  ℕ, zero, suc, ◌+◌, ◌-◌, ◌*◌, ◌%◌, ◌^◌, ◌<◌, ◌≤◌, ◌≡◌, ◌≢◌, refl, ◌∙◌, ap, true, false, List, [],
  ◌∷◌, ◌++◌, arith, inl, inr, ltb, Bool-cases, ◌==◌,
}
use lt_kernel.Prelude.Words.{u32}
use lt_kernel.Frames.{Bitmap, IsBitmap, is_used, page_size, get_free_page}
use lt_kernel.Frames.Search.{Outcome, found, full, get_free_page-Outcome}
use lt_kernel.Kmalloc
use lt_kernel.Kmalloc.{
  Block, block, Headers, KHeap, Run, ok, panicked, stuck, heap_limit, add_pages, ksbrk, write,
  zero_fill, mod_loop, pages_for, default_size, header_size,
}
use lt_kernel.Kmalloc.Tiles.{Tiles, Tiles-append, Tiles-frame, IsHeap}

-- The frames after `GetFreePage`, when frame 0 is in use.
record Taken (page : ℕ) (bm : Bitmap) : Type 0 where
  real : (page == 0) ≡ false
  frames : IsBitmap bm
  reserved : is_used bm 0 ≡ true

Outcome-Taken :
    (bm : Bitmap) (r : ℕ × Bitmap)
    → IsBitmap bm
    → is_used bm 0 ≡ true
    → Outcome bm r
    → Taken r.0 r.1
Outcome-Taken bm _ v z (found p addr out first e w set others back) =
    let ne : p ≢ 0 = λ h. ground (arith, first.free) in
    record { real = ground arith; frames = w; reserved = others 0 ne ∙ z }
Outcome-Taken bm _ v z (full all) = record { real = refl; frames = v; reserved = z }

-- What the loop of `ksbrk` leaves: the address behind the pages, and nothing but frames and
-- mappings changed.
pub record Paged (h : KHeap) (heap : ℕ) (r : Run ℕ) : Type 0 where
  pub out : KHeap
  pub runs : r ≡ ok heap out
  pub hdr : out.hdr ≡ h.hdr
  pub top : out.top ≡ h.top
  pub base : out.base ≡ h.base
  pub limit : out.limit ≡ h.limit
  pub mallocs : out.mallocs ≡ h.mallocs
  pub frees : out.frees ≡ h.frees
  pub frames : IsBitmap out.bitmap
  pub reserved : is_used out.bitmap 0 ≡ true

after_page : ℕ → KHeap → KHeap
after_page heap h = record h {
  bitmap = (get_free_page h.bitmap).1;
  mapped = (heap, (get_free_page h.bitmap).0) ∷ h.mapped;
}

Paged-step :
    (n heap : ℕ) (h : KHeap)
    → ((get_free_page h.bitmap).0 == 0) ≡ false
    → heap + suc n * page_size < 2 ^ 32
    → Paged
        (after_page heap h)
        (u32 (heap + page_size) + n * page_size)
        (add_pages n (u32 (heap + page_size)) (after_page heap h))
    → Paged h (heap + suc n * page_size) (add_pages (suc n) heap h)
unfolding add_pages after_page
Paged-step n heap h real small rest = record {
  out = rest.out;
  runs = rw real (rest.runs ∙ ap (λ t. ok t rest.out) (omega arith));
  hdr = rest.hdr;
  top = rest.top;
  base = rest.base;
  limit = rest.limit;
  mallocs = rest.mallocs;
  frees = rest.frees;
  frames = rest.frames;
  reserved = rest.reserved;
}

pub add_pages-Paged :
    (n heap : ℕ) (h : KHeap)
    → IsBitmap h.bitmap
    → is_used h.bitmap 0 ≡ true
    → heap + n * page_size < 2 ^ 32
    → Paged h (heap + n * page_size) (add_pages n heap h)
unfolding add_pages after_page
add_pages-Paged zero heap h v z small = record {
  out = h;
  runs = ap (λ t. ok t h) (omega arith);
  hdr = refl;
  top = refl;
  base = refl;
  limit = refl;
  mallocs = refl;
  frees = refl;
  frames = v;
  reserved = z;
}
add_pages-Paged (suc n) heap h v z small =
    let got =
      Outcome-Taken h.bitmap (get_free_page h.bitmap) v z (get_free_page-Outcome h.bitmap v) in
    Paged-step n heap h got.real small (
      add_pages-Paged n (u32 (heap + page_size)) (after_page heap h) got.frames got.reserved
        (omega arith))

-- What `ksbrk` adds: one free block of `n` pages at the old end of the heap.
pub record Grown (h : KHeap) (n : ℕ) (bs : List Block) (r : Run ℕ) : Type 0 where
  pub out : KHeap
  pub runs : r ≡ ok h.top out
  pub heap : IsHeap out (bs ++ block (n * page_size) false ∷ [])
  pub front : Tiles out.hdr out.base h.top bs
  pub holds : out.hdr h.top ≡ block (n * page_size) false
  pub end : out.top ≡ h.top + n * page_size
  pub base : out.base ≡ h.base
  pub mallocs : out.mallocs ≡ h.mallocs

module _ (h : KHeap) (bs : List Block) (v : IsHeap h bs) where
  grown_hdr : (n : ℕ) → Headers → Headers
  unfolding write zero_fill
  grown_hdr n hdr =
      Kmalloc.clear_data h.top
        (Kmalloc.set_used h.top false (Kmalloc.set_size h.top (n * page_size) hdr))

  grown_hdr-top :
      (n : ℕ) (hdr : Headers)
      → n * page_size < 2 ^ 31
      → grown_hdr n hdr h.top ≡ block (n * page_size) false
  unfolding grown_hdr
  grown_hdr-top n hdr small =
      let e : n * page_size % 2 ^ 31 ≡ n * page_size = omega arith in ground arith

  grown_hdr-below : (n : ℕ) (hdr : Headers) (x : ℕ) → x < h.top → grown_hdr n hdr x ≡ hdr x
  unfolding grown_hdr
  grown_hdr-below n hdr x lt = ground arith

  pub ksbrk-panics :
      (n : ℕ)
      → 0 < n
      → n * page_size < 2 ^ 31
      → h.limit < h.top + n * page_size
      → ksbrk n h ≡ panicked heap_limit
  unfolding ksbrk
  ksbrk-panics n pos small over =
      let e : u32 (h.top + n * page_size) ≡ h.top + n * page_size =
        omega (arith, v.within, v.small) in
      rw e (ground arith)

  Grown-made :
      (n : ℕ)
      → 0 < n
      → h.top + n * page_size ≤ h.limit
      → (p : Paged h (h.top + n * page_size) (add_pages n h.top h))
      → IsHeap
          (record p.out { top = h.top + n * page_size; hdr = grown_hdr n p.out.hdr })
          (bs ++ block (n * page_size) false ∷ [])
        × Tiles (grown_hdr n p.out.hdr) h.base h.top bs
        × (grown_hdr n p.out.hdr h.top ≡ block (n * page_size) false)
  Grown-made n pos le p =
      let g = grown_hdr n p.out.hdr in
      let here = grown_hdr-top n p.out.hdr (omega (arith, v.small)) in
      let front : Tiles g h.base h.top bs =
        Tiles-frame h.hdr g h.base h.top bs
          (λ x lo hi. grown_hdr-below n p.out.hdr x hi ∙ ap (λ t. t x) p.hdr) v.tiles in
      (
        record {
          tiles = rw p.base (
              Tiles-append g h.base h.top (h.top + n * page_size) bs
                (block (n * page_size) false ∷ []) front (here, omega arith, refl));
          within = rw p.limit le;
          small = rw p.limit v.small;
          positive = rw p.base v.positive;
          frames = p.frames;
          reserved = p.reserved;
        },
        front,
        here,
      )

  pub ksbrk-Grown : (n : ℕ) → 0 < n → h.top + n * page_size ≤ h.limit → Grown h n bs (ksbrk n h)
  unfolding ksbrk grown_hdr
  ksbrk-Grown n pos le =
      let small : h.top + n * page_size < 2 ^ 32 = omega (arith, v.small) in
      let p = add_pages-Paged n h.top h v.frames v.reserved small in
      let m = Grown-made n pos le p in
      let e : u32 (h.top + n * page_size) ≡ h.top + n * page_size = omega arith in
      let go : ltb h.limit (h.top + n * page_size) ≡ false = ground arith in
      let nz : (n == 0) ≡ false = ground arith in
      record {
        out = record p.out { top = h.top + n * page_size; hdr = grown_hdr n p.out.hdr };
        runs = rw (nz, e, go, p.runs);
        heap = m.0;
        front = rw p.base m.1;
        holds = m.2;
        end = refl;
        base = p.base;
        mallocs = p.mallocs;
      }

-- `_mod` answers 1 for every positive `a`, also for a multiple of `b`.
pub mod_loop-pos : (fuel a b : ℕ) → 0 < b → 0 < a → mod_loop fuel a b ≡ 1
unfolding mod_loop
mod_loop-pos zero a b hb ha = ground arith
mod_loop-pos (suc fuel) a b hb ha = ground (arith, mod_loop-pos fuel (a - b) b)

-- The pages that `_kmalloc` asks for have room for the request.
pub pages_for_lem :
    (size : ℕ)
    → (0 < pages_for size)
      × (size ≤ pages_for size * page_size)
      × (size < 2 ^ 30 → pages_for size * page_size < 2 ^ 31)
unfolding pages_for
pages_for_lem size = elim (Bool-cases (ltb default_size size)) [
  | inl big ↦
      let one = mod_loop-pos size size default_size (omega arith) (ground arith) in
      (rw (big, one) (omega arith), rw (big, one) (omega arith), λ s. rw (big, one) (omega arith))
  | inr fit ↦ (rw fit (omega arith), rw fit (ground arith), λ s. rw fit (omega arith))
]
