-- ===== src/Frames/Init.antt =====
-- The bitmap that `InitVmm` sets up.
use lt_kernel.Prelude.{
  ℕ, zero, suc, ◌+◌, ◌-◌, ◌*◌, ◌/◌, ◌%◌, ◌^◌, ◌<◌, ◌≤◌, ◌≡◌, refl, true, false, not, ◌⊎◌, inl, inr,
  arith, length, get_or, set, length-set, get_or-set_self, get_or-set_ne, All-set, All-replicate,
  length-replicate, get_or-replicate, ltb, leb, ◌||◌, ◌∙◌, dec_lt,
}
use lt_kernel.Prelude.Words.{test_bit, each_below, each_below_sound}
use lt_kernel.Frames.{
  Bitmap, page_size, is_used, set_page_used, block_bytes, reserve_pages, init_bitmap, last_page,
  bitmap_size, ram_max_page, cleared, IsBitmap, IsByte, pages,
}
use lt_kernel.Frames.Bits.{set_page_used-IsBitmap, is_used-set_self, is_used-set_ne}
use lt_kernel.Frames.Search.{full_byte}

length-set_page_used : (bm : Bitmap) (p : ℕ) → length (set_page_used bm p) ≡ length bm
unfolding set_page_used
length-set_page_used bm p = length-set bm (p / 8) _

length-block_bytes : (n i : ℕ) (bm : Bitmap) → length (block_bytes n i bm) ≡ length bm
unfolding block_bytes
length-block_bytes zero i bm = refl
length-block_bytes (suc n) i bm = length-block_bytes n (i + 1) (set bm i 255) ∙ length-set bm i 255

block_bytes-IsBitmap : (n i : ℕ) (bm : Bitmap) → IsBitmap bm → IsBitmap (block_bytes n i bm)
unfolding block_bytes
block_bytes-IsBitmap zero i bm v = v
block_bytes-IsBitmap (suc n) i bm v = block_bytes-IsBitmap n (i + 1) (set bm i 255) (record {
  small = omega (arith, length-set {0} bm i 255, v.small);
  bytes = All-set IsByte bm i 255 v.bytes (omega arith);
})

-- A byte that the loop does not pass is left as it was.
block_bytes-miss :
    (n i j : ℕ) (bm : Bitmap)
    → (j < i) ⊎ (i + n ≤ j)
    → get_or (block_bytes n i bm) j 0 ≡ get_or bm j 0
unfolding block_bytes
block_bytes-miss zero i j bm out = refl
block_bytes-miss (suc n) i j bm out =
    block_bytes-miss n (i + 1) j (set bm i 255) (omega arith)
    ∙ get_or-set_ne bm i j 255 0 (omega arith)

-- A byte that the loop passes becomes 255.
block_bytes-hit :
    (n i j : ℕ) (bm : Bitmap)
    → i ≤ j
    → j < i + n
    → j < length bm
    → get_or (block_bytes n i bm) j 0 ≡ 255
unfolding block_bytes
block_bytes-hit zero i j bm lo hi inside = absurd (omega arith)
block_bytes-hit (suc n) i j bm lo hi inside = elim (dec_lt i j) [
  | yes lt ↦
      block_bytes-hit n (i + 1) j (set bm i 255) (omega arith) (omega arith)
        (omega (arith, length-set {0} bm i 255))
  | no ge ↦
      let e : i ≡ j = omega arith in
      rw (← e) (
        block_bytes-miss n (i + 1) i (set bm i 255) (inl (omega arith))
        ∙ get_or-set_self bm i 255 0 (omega arith))
]

length-reserve_pages : (n i : ℕ) (bm : Bitmap) → length (reserve_pages n i bm) ≡ length bm
unfolding reserve_pages
length-reserve_pages zero i bm = refl
length-reserve_pages (suc n) i bm =
    length-reserve_pages n (i + 1) (set_page_used bm i) ∙ length-set_page_used bm i

reserve_pages-IsBitmap : (n i : ℕ) (bm : Bitmap) → IsBitmap bm → IsBitmap (reserve_pages n i bm)
unfolding reserve_pages
reserve_pages-IsBitmap zero i bm v = v
reserve_pages-IsBitmap (suc n) i bm v =
    reserve_pages-IsBitmap n (i + 1) (set_page_used bm i) (set_page_used-IsBitmap v i)

-- A frame outside the range keeps its state, and one inside becomes used.
reserve_pages-miss :
    (n i q : ℕ) (bm : Bitmap)
    → IsBitmap bm
    → i + n ≤ pages bm
    → (q < i) ⊎ (i + n ≤ q)
    → is_used (reserve_pages n i bm) q ≡ is_used bm q
unfolding reserve_pages
reserve_pages-miss zero i q bm v fits out = refl
reserve_pages-miss (suc n) i q bm v fits out =
    reserve_pages-miss n (i + 1) q (set_page_used bm i) (set_page_used-IsBitmap v i)
      (omega (arith, length-set_page_used bm i)) (omega arith)
    ∙ is_used-set_ne v i q (omega arith) (omega arith)

reserve_pages-hit :
    (n i q : ℕ) (bm : Bitmap)
    → IsBitmap bm
    → i + n ≤ pages bm
    → i ≤ q
    → q < i + n
    → is_used (reserve_pages n i bm) q ≡ true
unfolding reserve_pages
reserve_pages-hit zero i q bm v fits lo hi = absurd (omega arith)
reserve_pages-hit (suc n) i q bm v fits lo hi = elim (dec_lt i q) [
  | yes lt ↦
      reserve_pages-hit n (i + 1) q (set_page_used bm i) (set_page_used-IsBitmap v i)
        (omega (arith, length-set_page_used bm i)) (omega arith) (omega arith)
  | no ge ↦
      let e : i ≡ q = omega arith in
      rw (← e) (
        reserve_pages-miss n (i + 1) i (set_page_used bm i) (set_page_used-IsBitmap v i)
          (omega (arith, length-set_page_used bm i)) (inl (omega arith))
        ∙ is_used-set_self v i (omega arith))
]

length-cleared : (n : ℕ) → length (cleared n) ≡ n
unfolding cleared
length-cleared n = length-replicate n 0

cleared-IsBitmap : (n : ℕ) → n < bitmap_size + 1 → IsBitmap (cleared n)
unfolding cleared
cleared-IsBitmap n h = record {
  small = omega (arith, length-replicate {A = ℕ} n 0);
  bytes = All-replicate IsByte n 0 (omega arith);
}

no_bits : each_below 8 (λ i. not (test_bit 0 i)) ≡ true
unfolding each_below test_bit
no_bits = refl

-- A frame in a byte that is 0 is free, and one in a byte that is 255 is used.
is_used-zero : (bm : Bitmap) (q : ℕ) → get_or bm (q / 8) 0 ≡ 0 → is_used bm q ≡ false
unfolding is_used
is_used-zero bm q e =
    rw e
      (ground (arith, each_below_sound 8 (λ i. not (test_bit 0 i)) (q % 8) no_bits (omega arith)))

is_used-ones : (bm : Bitmap) (q : ℕ) → get_or bm (q / 8) 0 ≡ 255 → is_used bm q ≡ true
unfolding is_used
is_used-ones bm q e = rw e (each_below_sound 8 (test_bit 255) (q % 8) full_byte (omega arith))

module _ (size first limit q : ℕ) (small : size < bitmap_size + 1) (few : first ≤ size)
    (fits : limit ≤ 8 * size) (inside : q < 8 * size) where
  blocked : Bitmap
  blocked = block_bytes (size - first) first (cleared size)

  length-blocked : length blocked ≡ size
  unfolding blocked
  length-blocked = length-block_bytes (size - first) first (cleared size) ∙ length-cleared size

  blocked-IsBitmap : IsBitmap blocked
  unfolding blocked
  blocked-IsBitmap =
      block_bytes-IsBitmap (size - first) first (cleared size) (cleared-IsBitmap size small)

  is_used-blocked : is_used blocked q ≡ leb (8 * first) q
  unfolding blocked cleared
  is_used-blocked = elim (dec_lt q (8 * first)) [
    | yes lt ↦
        is_used-zero _ q (
          block_bytes-miss (size - first) first (q / 8) (cleared size) (inl (omega arith))
          ∙ get_or-replicate size (q / 8) 0)
        ∙ ground arith
    | no ge ↦
        is_used-ones _ q (
          block_bytes-hit (size - first) first (q / 8) (cleared size) (omega arith) (omega arith)
            (omega (arith, length-cleared size)))
        ∙ ground arith
  ]

  is_used-reserved : is_used (reserve_pages limit 0 blocked) q ≡ (ltb q limit || leb (8 * first) q)
  is_used-reserved = elim (dec_lt q limit) [
    | yes lt ↦
        reserve_pages-hit limit 0 q blocked blocked-IsBitmap (omega (arith, length-blocked))
          (omega arith) (omega arith)
        ∙ ground arith
    | no ge ↦
        reserve_pages-miss limit 0 q blocked blocked-IsBitmap (omega (arith, length-blocked))
          (inr (omega arith))
        ∙ (is_used-blocked ∙ ground arith)
  ]

-- Behind the part of `InitVmm` that fills the bitmap, before HeapInit and PageHeapInit take frames, a
-- frame is in use exactly if it lies below `pKernelLimit`, or in a byte of the bitmap at or behind that of the first frame which the machine does not have (so up to seven
-- frames that it does have stay blocked); for a `pKernelLimit` within the 4 GiB of the bitmap.
pub is_used-init_bitmap :
    (high_mem kernel_limit q : ℕ)
    → kernel_limit < 2 ^ 32
    → q < ram_max_page
    → is_used (init_bitmap high_mem kernel_limit) q
      ≡ (ltb q (kernel_limit / page_size) || leb (8 * (last_page high_mem / 8)) q)
unfolding init_bitmap blocked
is_used-init_bitmap high_mem kernel_limit q small inside =
    is_used-reserved bitmap_size (last_page high_mem / 8) (kernel_limit / page_size) q (omega arith)
      (omega arith) (omega arith) (omega arith)

-- The bitmap that `InitVmm` leaves has `bitmap_size` bytes.
pub init_bitmap-IsBitmap :
    (high_mem kernel_limit : ℕ)
    → IsBitmap (init_bitmap high_mem kernel_limit)
      × (length (init_bitmap high_mem kernel_limit) ≡ bitmap_size)
unfolding init_bitmap
init_bitmap-IsBitmap high_mem kernel_limit =
    let n = ram_max_page / 8 - last_page high_mem / 8 in
    let first = last_page high_mem / 8 in
    let b = block_bytes n first (cleared bitmap_size) in
    (
      reserve_pages-IsBitmap (kernel_limit / 4096) 0 b
          (block_bytes-IsBitmap n first _ (cleared-IsBitmap bitmap_size (omega arith))),
      length-reserve_pages (kernel_limit / 4096) 0 b
          ∙ (length-block_bytes n first (cleared bitmap_size) ∙ length-cleared bitmap_size),
    )
