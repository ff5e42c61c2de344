-- ===== src/Prelude/Words.antt =====
-- Machine words of the 32-bit kernel, and single bits of a byte.
use Prim.Native.Nat.{ℕ, zero, suc, ◌-◌, ◌%◌, ◌^◌, ◌<◌, bit_and, bit_or}
use mathlib.Core.Path.{◌≡◌, refl}
use mathlib.Core.Logic.{◌≢◌}
use mathlib.Core.Bool.{Bool, true, false, not, ◌&&◌, ◌||◌}
use native.Mathlib.Omega.{arith}
use lt_kernel.Prelude.Tests.{◌==◌, ltb, ltb→lt}

-- u32, u16 and u8 of kernel/lib/types.h: the value that a store into such a variable keeps.
abbrev pub u32 : ℕ → ℕ
u32 n = n % 2 ^ 32

abbrev pub u16 : ℕ → ℕ
u16 n = n % 2 ^ 16

abbrev pub u8 : ℕ → ℕ
u8 n = n % 2 ^ 8

-- A test that every number under a limit passes, so that `refl` can settle a finite fact.
unfoldable pub each_below : ℕ → (ℕ → Bool) → Bool
each_below zero test = true
each_below (suc limit) test = each_below limit test && test limit

pub each_below_sound :
    (limit : ℕ) (test : ℕ → Bool) (k : ℕ) → each_below limit test ≡ true → k < limit → test k ≡ true
unfolding each_below
each_below_sound zero test k passes under = absurd (omega arith)
each_below_sound (suc limit) test k passes under = ground (arith, each_below_sound limit test k)

-- `byte & (1 << bit)`, `byte | (1 << bit)` and `byte & ~(1 << bit)`, for a byte and a bit below 8.
unfoldable pub test_bit : ℕ → ℕ → Bool
test_bit byte bit = not (bit_and byte (2 ^ bit) == 0)

unfoldable pub set_bit : ℕ → ℕ → ℕ
set_bit byte bit = u8 (bit_or byte (2 ^ bit))

unfoldable pub clear_bit : ℕ → ℕ → ℕ
clear_bit byte bit = bit_and byte (255 - 2 ^ bit)

bool_eq : Bool → Bool → Bool
bool_eq true b = b
bool_eq false b = not b

bool_eq_sound : (a b : Bool) → bool_eq a b ≡ true → a ≡ b
unfolding bool_eq
bool_eq_sound a b h = ground arith

-- A fact about a byte and one or two of its bits, by its table.
byte_table :
    (p : ℕ → ℕ → Bool)
    → each_below 256 (λ b. each_below 8 (p b)) ≡ true
    → (b i : ℕ) → b < 256
    → i < 8
    → p b i ≡ true
byte_table p h b i hb hi = each_below_sound 8 (p b) i (each_below_sound 256 _ b h hb) hi

other_bits : ℕ → ℕ → Bool
other_bits b i = each_below 8 (λ j.
    (i == j)
    || (bool_eq (test_bit (set_bit b i) j) (test_bit b j)
        && bool_eq (test_bit (clear_bit b i) j) (test_bit b j)))

own_bit : ℕ → ℕ → Bool
own_bit b i =
    test_bit (set_bit b i) i
    && (not (test_bit (clear_bit b i) i) && (test_bit b i || (clear_bit (set_bit b i) i == b)))

other_table : each_below 256 (λ b. each_below 8 (other_bits b)) ≡ true
unfolding each_below other_bits test_bit set_bit clear_bit bool_eq
other_table = refl

own_table : each_below 256 (λ b. each_below 8 (own_bit b)) ≡ true
unfolding each_below own_bit test_bit set_bit clear_bit
own_table = refl

module _ (b i : ℕ) (hb : b < 256) (hi : i < 8) where
  pub own_bit_lem :
      (test_bit (set_bit b i) i ≡ true)
      × (test_bit (clear_bit b i) i ≡ false)
      × (test_bit b i ≡ false → clear_bit (set_bit b i) i ≡ b)
  unfolding own_bit
  own_bit_lem =
      let h = byte_table own_bit own_table b i hb hi in
      (ground arith, ground arith, λ e. ground arith)

  pub other_bits_lem :
      (j : ℕ)
      → j < 8
      → i ≢ j
      → (test_bit (set_bit b i) j ≡ test_bit b j) × (test_bit (clear_bit b i) j ≡ test_bit b j)
  unfolding other_bits
  other_bits_lem j hj ne =
      let h = each_below_sound 8 _ j (byte_table other_bits other_table b i hb hi) hj in
      let g : (bool_eq (test_bit (set_bit b i) j) (test_bit b j)
            && bool_eq (test_bit (clear_bit b i) j) (test_bit b j))
          ≡ true =
        ground arith in
      (bool_eq_sound _ _ (ground arith), bool_eq_sound _ _ (ground arith))

pub set_bit-lt : (b i : ℕ) → set_bit b i < 256
unfolding set_bit
set_bit-lt b i = omega arith

clear_small : ℕ → ℕ → Bool
clear_small b m = ltb (bit_and b m) 256

clear_table : each_below 256 (λ b. each_below 256 (clear_small b)) ≡ true
unfolding each_below clear_small
clear_table = refl

pub clear_bit-lt : (b i : ℕ) → b < 256 → clear_bit b i < 256
unfolding clear_bit clear_small
clear_bit-lt b i h = ltb→lt _ _ (
    each_below_sound 256 (clear_small b) (255 - 2 ^ i) (each_below_sound 256 _ b clear_table h)
      (omega arith))
