-- ===== src/Elf/Segment.antt =====
-- A segment is loaded page by page.
use lt_kernel.Prelude.{
  ℕ, zero, suc, ◌+◌, ◌-◌, ◌*◌, ◌/◌, ◌%◌, ◌<◌, ◌≤◌, ◌≡◌, refl, sym, ap, ◌∙◌, true, false, List, [],
  ◌∷◌, ◌++◌, ◌==◌, if◌then◌else◌, ltb, arith, Bool-cases, inl, inr, take, drop, replicate, length,
  length-take, length-drop,
}
use lt_kernel.Prelude.Words.{u32}
use lt_kernel.Prelude.Result.{Result, ok}
use lt_kernel.Status.{status_success}
use lt_kernel.Frames.{Bitmap, IsBitmap, pages, is_used, get_free_page, page_size}
use lt_kernel.Paging.{check_user_virtual_address_validity}
use lt_kernel.FileCache.{byte_at, bytes_at}
use lt_kernel.Elf.{CodePage, Loaded, with_page, fill_page, load_pages}
use lt_kernel.Elf.Count.{free_below, IsTaken, get_free_page-Took, get_free_page-pages}

-- The number of pages for some bytes.
abbrev pub page_count : ℕ → ℕ
page_count size = (size + 4095) / 4096

-- The bytes that a page takes when `left` are left.
abbrev pub page_part : ℕ → ℕ
page_part left = if ltb left 4096 then left else 4096

-- The pages for `left` bytes of the file from `source` on, at the addresses from `v` on: each holds the
-- next bytes, 4096 or what is left, and zeros behind them, in a frame that was free. The bitmap goes
-- from `bm` to `last`.
abbrev pub IsCover : List ℕ → ℕ → ℕ → ℕ → Bitmap → List CodePage → Bitmap → Type 0
IsCover file v source left bm [] last = (left ≡ 0) × (bm ≡ last)
IsCover file v source left bm (p ∷ ps) last =
    (0 < left)
    × (p.v_addr ≡ v)
    × (p.bytes ≡ take (page_part left) (drop source file) ++ replicate (4096 - page_part left) 0)
    × ((next : Bitmap) × IsTaken bm p.p_addr next
        × IsCover file (v + 4096) (source + 4096) (left - page_part left) next ps last)

-- What the loop over the pages of a segment does, with the frames below `n`.
pub record Filled (n : ℕ) (file : List ℕ) (v source left : ℕ) (bm : Bitmap) (r : Result Loaded)
    : Type 0 where
  pub out : Loaded
  pub runs : r ≡ ok out
  pub status : out.status ≡ status_success
  pub cover : IsCover file v source left bm out.code out.bitmap
  pub is_bitmap : IsBitmap out.bitmap
  pub zeroth : is_used out.bitmap 0 ≡ true
  pub inside : n ≤ pages out.bitmap
  pub fewer : free_below n bm ≤ page_count left + free_below n out.bitmap

byte_at-drop :
    (file : List ℕ) (i : ℕ)
    → i < length file
    → (b : ℕ) × (byte_at file i ≡ ok b) × (drop i file ≡ b ∷ drop (suc i) file)
byte_at-drop [] i h = absurd (omega arith)
byte_at-drop (x ∷ xs) zero h = (x, refl, refl)
byte_at-drop (x ∷ xs) (suc i) h = byte_at-drop xs i (omega arith)

bytes_at-take :
    (n i : ℕ) (file : List ℕ) → i + n ≤ length file → bytes_at file i n ≡ ok (take n (drop i file))
unfolding bytes_at
bytes_at-take zero i file h = refl
bytes_at-take (suc n) i file h =
    let b = byte_at-drop file i (omega arith) in
    let e : i + 1 ≡ suc i = omega arith in
    let rest = ap (λ k. bytes_at file k n) e ∙ bytes_at-take n (suc i) file (omega arith) in
    rw (b.2, b.1, rest) refl

drop-zeros : (m n : ℕ) → drop {A = ℕ} m (replicate n 0) ≡ replicate (n - m) 0
drop-zeros zero n = let e : n ≡ n - 0 = omega arith in ap (λ k. replicate k 0) e
drop-zeros (suc m) zero = let e : 0 ≡ 0 - suc m = omega arith in ap (λ k. replicate k 0) e
drop-zeros (suc m) (suc n) =
    let e : n - m ≡ suc n - suc m = omega arith in drop-zeros m n ∙ ap (λ k. replicate k 0) e

filled :
    (n i : ℕ) (file : List ℕ)
    → i + n ≤ length file
    → fill_page (take n (drop i file)) ≡ take n (drop i file) ++ replicate (4096 - n) 0
filled n i file h =
    let l : length (take n (drop i file)) ≡ n =
      omega (arith, length-take n (drop i file), length-drop i file) in
    rw (l, drop-zeros n 4096) refl

load_pages_done :
    (n : ℕ) (file : List ℕ) (fuel v source size count : ℕ) (bm : Bitmap)
    → IsBitmap bm
    → is_used bm 0 ≡ true
    → n ≤ pages bm
    → ltb count size ≡ false
    → Filled n file v
        (source + count)
        (size - count)
        bm
        (load_pages file (suc fuel) v source size count bm)
unfolding load_pages
load_pages_done n file fuel v source size count bm b z inside e = record {
  out = record { status = status_success; code = []; bitmap = bm };
  runs = rw (e, load_pages) refl;
  status = refl;
  cover = (ground arith, refl);
  is_bitmap = b;
  zeroth = z;
  inside = inside;
  fewer = omega arith;
}

pub IsCover-at :
    (file : List ℕ) (v s s' l l' : ℕ) (bm last : Bitmap) (ps : List CodePage)
    → s ≡ s'
    → l ≡ l'
    → IsCover file v s l bm ps last
    → IsCover file v s' l' bm ps last
IsCover-at file v s s' l l' bm last ps e f c = coe 0 1 (i. IsCover file v (e i) (f i) bm ps last) c

load_pages_step :
    (file : List ℕ) (fuel v source size count : ℕ) (bm : Bitmap) (bytes : List ℕ) (out : Loaded)
    → ltb count size ≡ true
    → check_user_virtual_address_validity v ≡ true
    → ((get_free_page bm).0 == 0) ≡ false
    → (v % 4096 == 0) ≡ true
    → bytes_at file (source + count) (page_part (size - count)) ≡ ok bytes
    → load_pages file fuel
        (u32 (v + page_size))
        source
        size
        (u32 (count + page_size))
        (get_free_page bm).1
      ≡ ok out
    → load_pages file (suc fuel) v source size count bm
      ≡ ok (
          with_page
            (record { v_addr = v; p_addr = (get_free_page bm).0; bytes = fill_page bytes })
            out)
unfolding load_pages
load_pages_step file fuel v source size count bm bytes out y user frame start read r =
    rw (y, load_pages, user, frame, start, read, r) refl

pub load_pages-Filled :
    (n : ℕ) (file : List ℕ) (fuel v source size count : ℕ) (bm : Bitmap)
    → IsBitmap bm
    → is_used bm 0 ≡ true
    → n ≤ pages bm
    → page_count (size - count) ≤ free_below n bm
    → 0x40000000 ≤ v
    → v % 4096 ≡ 0
    → (count < size → v + (size - count) ≤ 0xFFFFF000)
    → size ≤ 0xFFFFF000
    → source + size ≤ length file
    → size ≤ count + page_size * fuel
    → Filled n file v
        (source + count)
        (size - count)
        bm
        (load_pages file (suc fuel) v source size count bm)
load_pages-Filled n file zero v source size count bm b z inside room user start below small whole
      enough =
    load_pages_done n file zero v source size count bm b z inside (ground arith)
load_pages-Filled n file (suc fuel) v source size count bm b z inside room user start below small
      whole enough =
    elim (Bool-cases (ltb count size)) [
      | inr e ↦ load_pages_done n file (suc fuel) v source size count bm b z inside e
      | inl y ↦
          let less : count < size = ground arith in
          let t = get_free_page-Took n bm b z inside (omega arith) in
          let low = below less in
          let ok_v : check_user_virtual_address_validity v ≡ true = ground arith in
          let v' : (v + 4096) % 4294967296 ≡ v + 4096 = omega arith in
          let c' : (count + 4096) % 4294967296 ≡ count + 4096 = omega arith in
          let part = page_part (size - count) in
          let few : part ≤ size - count = ground arith in
          let bytes = take part (drop (source + count) file) in
          let p : CodePage = record {
            v_addr = v;
            p_addr = (get_free_page bm).0;
            bytes = fill_page bytes;
          } in
          let left : size - (count + 4096) ≡ size - count - part = ground arith in
          let src : source + count + 4096 ≡ source + (count + 4096) = omega arith in
          let next = (get_free_page bm).1 in
          let less_room : page_count (size - (count + 4096)) ≤ free_below n next =
            omega (arith, t.fewer) in
          let r =
            load_pages-Filled n file fuel (v + 4096) source size (count + 4096) next t.is_bitmap
              t.zeroth (omega (arith, get_free_page-pages bm)) less_room (omega arith) (omega arith)
              (λ h. omega arith) small whole (omega arith) in
          let read = bytes_at-take part (source + count) file (omega arith) in
          let more : page_count (size - count) ≡ suc (page_count (size - (count + 4096))) =
            omega arith in
          record {
            out = with_page p r.out;
            runs =
                load_pages_step file (suc fuel) v source size count bm bytes r.out y ok_v
                  t.some_frame (ground arith) read
                  (ap (λ x. load_pages file (suc fuel) x source size (u32 (count + page_size)) next)
                      v'
                    ∙ ap (λ x. load_pages file (suc fuel) (v + page_size) source size x next) c'
                    ∙ r.runs);
            status = r.status;
            cover = (
              omega arith,
              refl,
              filled part (source + count) file (omega arith),
              (
                next,
                t.taken,
                IsCover-at file (v + 4096) _ _ _ _ next _ r.out.code (sym src) left r.cover,
              ),
            );
            is_bitmap = r.is_bitmap;
            zeroth = r.zeroth;
            inside = r.inside;
            fewer = omega (arith, r.fewer, t.fewer, more);
          }
    ]
