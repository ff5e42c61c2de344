-- ===== src/Frames/Bits.antt =====
-- What the two macros of vmm.c do to each frame of the bitmap.
use lt_kernel.Prelude.{
  ℕ, ◌*◌, ◌/◌, ◌%◌, ◌<◌, ◌≡◌, ◌≢◌, true, false, arith, get_or, length-set, get_or-set_self,
  get_or-set_ne, All-set, All-get_or, set-set, set-get_or, ℕ_discrete,
}
use lt_kernel.Prelude.Words.{
  set_bit, clear_bit, own_bit_lem, other_bits_lem, set_bit-lt, clear_bit-lt,
}
use lt_kernel.Frames.{
  Bitmap, page_size, is_used, set_page_used, set_page_unused, IsByte, IsBitmap, pages,
}

module _ {bm : Bitmap} (v : IsBitmap bm) where
  byte-lt : (i : ℕ) → get_or bm i 0 < 256
  byte-lt i = All-get_or IsByte bm i 0 v.bytes (omega arith)

  pub set_page_used-IsBitmap : (page : ℕ) → IsBitmap (set_page_used bm page)
  unfolding set_page_used
  set_page_used-IsBitmap page = record {
    small = omega (
      arith,
      length-set {0} bm (page / 8) (set_bit (get_or bm (page / 8) 0) (page % 8)),
      v.small,
    );
    bytes = All-set IsByte bm (page / 8) _ v.bytes (set_bit-lt _ _);
  }

  pub set_page_unused-IsBitmap : (addr : ℕ) → IsBitmap (set_page_unused bm addr)
  unfolding set_page_unused
  set_page_unused-IsBitmap addr = record {
    small = omega (
      arith,
      length-set {0} bm (addr / page_size / 8)
          (clear_bit (get_or bm (addr / page_size / 8) 0) (addr / page_size % 8)),
      v.small,
    );
    bytes = All-set IsByte bm (addr / page_size / 8) _ v.bytes (clear_bit-lt _ _ (byte-lt _));
  }

  -- Two frames of one byte differ in their bit.
  bits_differ : (p q : ℕ) → p ≢ q → p / 8 ≡ q / 8 → p % 8 ≢ q % 8
  bits_differ p q ne e h = ne (omega arith)

  pub is_used-set_self : (p : ℕ) → p < pages bm → is_used (set_page_used bm p) p ≡ true
  unfolding is_used set_page_used
  is_used-set_self p h =
      rw (get_or-set_self bm (p / 8) (set_bit (get_or bm (p / 8) 0) (p % 8)) 0 (omega arith))
        (own_bit_lem _ (p % 8) (byte-lt (p / 8)) (omega arith)).0

  pub is_used-set_ne :
      (p q : ℕ) → p < pages bm → p ≢ q → is_used (set_page_used bm p) q ≡ is_used bm q
  unfolding is_used set_page_used
  is_used-set_ne p q h ne = elim (ℕ_discrete (p / 8) (q / 8)) [
    | yes e ↦
        rw (← e, get_or-set_self bm (p / 8) (set_bit (get_or bm (p / 8) 0) (p % 8)) 0 (omega arith))
          (other_bits_lem _ (p % 8) (byte-lt (p / 8)) (omega arith) (q % 8) (omega arith)
            (bits_differ p q ne e)).0
    | no d ↦ rw (get_or-set_ne bm (p / 8) (q / 8) (set_bit (get_or bm (p / 8) 0) (p % 8)) 0 d)
  ]

  pub is_used-unused_self :
      (p : ℕ) → p < pages bm → is_used (set_page_unused bm (p * page_size)) p ≡ false
  unfolding is_used set_page_unused
  is_used-unused_self p h =
      let e : p * page_size / page_size ≡ p = omega arith in
      rw (e, get_or-set_self bm (p / 8) (clear_bit (get_or bm (p / 8) 0) (p % 8)) 0 (omega arith))
        (own_bit_lem _ (p % 8) (byte-lt (p / 8)) (omega arith)).1

  pub is_used-unused_ne :
      (a q : ℕ)
      → a / page_size < pages bm
      → a / page_size ≢ q
      → is_used (set_page_unused bm a) q ≡ is_used bm q
  unfolding is_used set_page_unused
  is_used-unused_ne a q h ne =
      let p = a / page_size in
      elim (ℕ_discrete (p / 8) (q / 8)) [
        | yes e ↦
            rw
              (
                ← e,
                get_or-set_self bm (p / 8) (clear_bit (get_or bm (p / 8) 0) (p % 8)) 0
                    (omega arith),
              )
              (other_bits_lem _ (p % 8) (byte-lt (p / 8)) (omega arith) (q % 8) (omega arith)
                (bits_differ p q ne e)).1
        | no d ↦ rw (get_or-set_ne bm (p / 8) (q / 8) (clear_bit (get_or bm (p / 8) 0) (p % 8)) 0 d)
      ]

  -- Marking a free frame and releasing it gives the same bitmap back.
  pub unused-used :
      (p : ℕ)
      → p < pages bm
      → is_used bm p ≡ false
      → set_page_unused (set_page_used bm p) (p * page_size) ≡ bm
  unfolding is_used set_page_unused set_page_used
  unused-used p h free =
      let e : p * page_size / page_size ≡ p = omega arith in
      rw
        (
          e,
          get_or-set_self bm (p / 8) (set_bit (get_or bm (p / 8) 0) (p % 8)) 0 (omega arith),
          set-set bm (p / 8) (set_bit (get_or bm (p / 8) 0) (p % 8))
              (clear_bit (set_bit (get_or bm (p / 8) 0) (p % 8)) (p % 8)),
          (own_bit_lem _ (p % 8) (byte-lt (p / 8)) (omega arith)).2 free,
        )
        (set-get_or bm (p / 8) 0)
