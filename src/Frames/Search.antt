-- ===== src/Frames/Search.antt =====
-- `GetFreePage` finds the lowest free frame.
use lt_kernel.Prelude.{
  ℕ, zero, suc, ◌+◌, ◌-◌, ◌*◌, ◌/◌, ◌%◌, ◌<◌, ◌≤◌, ◌≡◌, ◌≢◌, refl, true, false, inl, inr, ◌==◌,
  Option, none, some, [], ◌∷◌, arith, Bool-cases, Option-cases, ◌∙◌, dec_lt, ==_iff,
}
use lt_kernel.Prelude.Words.{test_bit, u32, each_below, each_below_sound}
use lt_kernel.Frames.{
  Bitmap, page_size, is_used, set_page_used, find_bit, find_page, get_free_page, release_page,
  no_page, IsBitmap, pages,
}
use lt_kernel.Frames.Bits.{is_used-set_self, is_used-set_ne, set_page_used-IsBitmap, unused-used}

-- `p` is the lowest frame that the bitmap has free.
pub record IsFirstFree (bm : Bitmap) (p : ℕ) : Type 0 where
  pub inside : p < pages bm
  pub free : is_used bm p ≡ false
  pub below : (q : ℕ) → q < p → is_used bm q ≡ true

-- Every frame is in use.
abbrev pub IsFull : Bitmap → Type 0
IsFull bm = (q : ℕ) → q < pages bm → is_used bm q ≡ true

-- What a search of `rounds` bits from `bit` on says.
abbrev FoundBit : ℕ → ℕ → ℕ → Option ℕ → Type 0
FoundBit rounds bit byte none = (j : ℕ) → bit ≤ j → j < bit + rounds → test_bit byte j ≡ true
FoundBit rounds bit byte (some r) =
    (r < bit + rounds)
    × (test_bit byte r ≡ false)
    × ((j : ℕ) → bit ≤ j → j < r → test_bit byte j ≡ true)

FoundBit-step :
    (rounds bit byte : ℕ) (o : Option ℕ)
    → test_bit byte bit ≡ true
    → FoundBit rounds (bit + 1) byte o
    → FoundBit (suc rounds) bit byte o
FoundBit-step rounds bit byte none t h = λ j lo hi. elim (dec_lt bit j) [
  | yes lt ↦ h j (omega arith) (omega arith)
  | no ge ↦ let e : j ≡ bit = omega arith in rw e t
]
FoundBit-step rounds bit byte (some r) t h = (
  omega (arith, h.0),
  h.1,
  λ j lo hi. elim (dec_lt bit j) [
    | yes lt ↦ h.2 j (omega arith) hi
    | no ge ↦ let e : j ≡ bit = omega arith in rw e t
  ],
)

find_bit-FoundBit : (rounds bit byte : ℕ) → FoundBit rounds bit byte (find_bit rounds bit byte)
unfolding find_bit
find_bit-FoundBit zero bit byte = λ j lo hi. absurd (omega arith)
find_bit-FoundBit (suc rounds) bit byte = elim (Bool-cases (test_bit byte bit)) [
  | inl t ↦ rw t (FoundBit-step rounds bit byte _ t (find_bit-FoundBit rounds (bit + 1) byte))
  | inr f ↦ rw f (omega arith, f, λ j lo hi. absurd (omega arith))
]

pub full_byte : each_below 8 (test_bit 255) ≡ true
unfolding each_below test_bit
full_byte = refl

module _ (b : ℕ) (bs : Bitmap) where
  is_used-low : (q : ℕ) → q < 8 → is_used (b ∷ bs) q ≡ test_bit b q
  unfolding is_used
  is_used-low q h = let e : q / 8 ≡ 0 = omega arith in let f : q % 8 ≡ q = omega arith in rw (e, f)

  is_used-high : (r : ℕ) → is_used (b ∷ bs) (8 + r) ≡ is_used bs r
  unfolding is_used
  is_used-high r =
      let e : (8 + r) / 8 ≡ suc (r / 8) = omega arith in
      let f : (8 + r) % 8 ≡ r % 8 = omega arith in rw (e, f)

  is_used_shift : (q : ℕ) → 8 ≤ q → is_used (b ∷ bs) q ≡ is_used bs (q - 8)
  is_used_shift q h = let e : 8 + (q - 8) ≡ q = omega arith in rw e at (is_used-high (q - 8))

abbrev FoundPage : Bitmap → ℕ → Option ℕ → Type 0
FoundPage bs byte none = IsFull bs
FoundPage bs byte (some p) = (r : ℕ) × (p ≡ 8 * byte + r) × IsFirstFree bs r

module _ (b : ℕ) (bs : Bitmap) (byte : ℕ) (used : (q : ℕ) → q < 8 → test_bit b q ≡ true) where
  FoundPage-skip : (o : Option ℕ) → FoundPage bs (byte + 1) o → FoundPage (b ∷ bs) byte o
  FoundPage-skip none h = λ q lt. elim (dec_lt q 8) [
    | yes l ↦ is_used-low b bs q l ∙ used q l
    | no g ↦ is_used_shift b bs q (omega arith) ∙ h (q - 8) (omega arith)
  ]
  FoundPage-skip (some p) (r, e, f) = (
    8 + r,
    omega arith,
    record {
      inside = omega (arith, f.inside);
      free = is_used-high b bs r ∙ f.free;
      below = λ q lt. elim (dec_lt q 8) [
        | yes l ↦ is_used-low b bs q l ∙ used q l
        | no g ↦ is_used_shift b bs q (omega arith) ∙ f.below (q - 8) (omega arith)
      ];
    },
  )

FoundBit-page :
    (b : ℕ) (bs : Bitmap) (byte bit : ℕ)
    → FoundBit 8 0 b (some bit)
    → FoundPage (b ∷ bs) byte (some (8 * byte + bit))
FoundBit-page b bs byte bit h = (
  bit,
  refl,
  record {
    inside = omega (arith, h.0);
    free = is_used-low b bs bit (omega (arith, h.0)) ∙ h.1;
    below = λ q lt. is_used-low b bs q (omega (arith, h.0)) ∙ h.2 q (omega arith) lt;
  },
)

find_page-FoundPage : (bs : Bitmap) (byte : ℕ) → FoundPage bs byte (find_page bs byte)
unfolding find_page
find_page-FoundPage [] byte = λ q h. absurd (omega arith)
find_page-FoundPage (b ∷ bs) byte =
    let rest = find_page-FoundPage bs (byte + 1) in
    elim (Bool-cases (b == 255)) [
      | inl e ↦ rw e (
          FoundPage-skip b bs byte
            (λ q l. rw ((==_iff b 255).0 e) (each_below_sound 8 _ q full_byte l)) _ rest)
      | inr ne ↦ rw ne (elim (Option-cases (find_bit 8 0 b)) [
        | inl none_left ↦ rw none_left (
            FoundPage-skip b bs byte
              (λ q l. (rw none_left at (find_bit-FoundBit 8 0 b)) q (omega arith) (omega arith)) _
              rest)
        | inr (bit, got) ↦
            rw got (FoundBit-page b bs byte bit (rw got at (find_bit-FoundBit 8 0 b)))
      ])
    ]

-- What `GetFreePage` returns: the address of the lowest free frame, and the bitmap with that frame
-- and no other marked; or, if no frame is free, `(void *)(-1)` and the bitmap as it was.
pub data Outcome (bm : Bitmap) : ℕ × Bitmap → Type 0 where
  found :
      (p : ℕ) (addr : ℕ) (out : Bitmap)
      → IsFirstFree bm p
      → addr ≡ p * page_size
      → IsBitmap out
      → is_used out p ≡ true
      → ((q : ℕ) → p ≢ q → is_used out q ≡ is_used bm q)
      → release_page out addr ≡ bm
      → Outcome bm (addr, out)
  full : IsFull bm → Outcome bm (no_page, bm)

Outcome-page :
    (bm : Bitmap)
    → IsBitmap bm
    → (p r addr : ℕ) → p ≡ 8 * 0 + r
    → IsFirstFree bm r
    → addr ≡ u32 (p * page_size)
    → Outcome bm (addr, set_page_used bm p)
unfolding release_page
Outcome-page bm v p r addr e f a =
    let same : r ≡ p = omega arith in
    let first : IsFirstFree bm p = rw (← same) f in
    let exact : addr ≡ p * page_size = omega (arith, v.small, first.inside) in
    found p addr _ first exact (set_page_used-IsBitmap v p) (is_used-set_self v p first.inside)
      (λ q ne. is_used-set_ne v p q first.inside ne)
      (rw exact (unused-used v p first.inside first.free))

-- Whatever the bitmap, `GetFreePage` hands out the lowest free frame and marks that frame alone,
-- and `ReleasePage` of what it handed out gives the bitmap back; if no frame
-- is free it answers -1 and leaves the bitmap alone.
pub get_free_page-Outcome : (bm : Bitmap) → IsBitmap bm → Outcome bm (get_free_page bm)
unfolding get_free_page
get_free_page-Outcome bm v = elim (Option-cases (find_page bm 0)) [
  | inl all_used ↦ rw (all_used, get_free_page) (full (rw all_used at (find_page-FoundPage bm 0)))
  | inr (p, got) ↦
      let h = rw got at (find_page-FoundPage bm 0) in
      rw (got, get_free_page) (Outcome-page bm v p h.0 _ h.1 h.2 refl)
]
