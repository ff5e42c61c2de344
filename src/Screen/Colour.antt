-- ===== src/Screen/Colour.antt =====
-- The attribute byte of `ScSetColorEx`.
use lt_kernel.Prelude.{ℕ, ◌+◌, ◌*◌, ◌<◌, ◌≡◌, refl, Bool, true, ◌==◌, bit_and, bit_or, ==_iff}
use lt_kernel.Prelude.Words.{each_below, each_below_sound}
use lt_kernel.Screen.{Screen, sc_set_color_ex}

abbrev attribute : ℕ → ℕ → ℕ → ℕ → ℕ
attribute background foreground blink intensity =
    bit_or
      (bit_or (bit_or (bit_and blink 128) (bit_and 112 (background * 16)))
        (bit_and 8 (intensity * 8)))
      (bit_and 7 foreground)

attributes : ℕ → ℕ → ℕ → Bool
attributes b f i = attribute b f 0 i == b * 16 + i * 8 + f

attributes_table : each_below 8 (λ b. each_below 8 (λ f. each_below 2 (attributes b f))) ≡ true
unfolding each_below attributes
attributes_table = refl

blinks : ℕ → Bool
blinks k = bit_and k 128 == 0

blinks_table : each_below 128 blinks ≡ true
unfolding each_below blinks
blinks_table = refl

-- For colours below 8 and an intensity of 0 or 1, the attribute holds the foreground in its bits 0 to
-- 2, the intensity in bit 3 and the background in bits 4 to 6. Any `blink` below 128, so also 1, leaves
-- the bit 7 of the blinking clear.
pub sc_set_color_ex_lem :
    (s : Screen) (background foreground blink intensity : ℕ)
    → background < 8
    → foreground < 8
    → blink < 128
    → intensity < 2
    → (sc_set_color_ex background foreground blink intensity s).color
      ≡ background * 16 + intensity * 8 + foreground
unfolding sc_set_color_ex attributes blinks
sc_set_color_ex_lem s b f k i hb hf hk hi =
    let z : bit_and k 128 ≡ 0 = (==_iff _ _).0 (each_below_sound 128 blinks k blinks_table hk) in
    rw z (
      (==_iff _ _).0 (
        each_below_sound 2 (attributes b f) i
          (each_below_sound 8 _ f (each_below_sound 8 _ b attributes_table hb) hf) hi))
