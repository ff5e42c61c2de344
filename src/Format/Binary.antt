-- ===== src/Format/Binary.antt =====
-- `printBin` prints the bits of the value.
use lt_kernel.Prelude.{
  ℕ, zero, suc, ◌+◌, ◌-◌, ◌*◌, ◌/◌, ◌%◌, ◌^◌, ◌<◌, ◌≡◌, refl, sym, ap, ◌∙◌, Bool, true, false, not,
  ◌&&◌, List, [], ◌∷◌, ◌++◌, ◌==◌, if◌then◌else◌, arith, ltb,
}
use native.Mathlib.Nat.{div-add-mod, mod-lt, mod-eq_of_lt, mul-add-mod_self_left}
use lt_kernel.Format.{bits_loop, print_bin}

-- The value of a text of `0` and `1`, with dots between them and a `b` at the end, as a reader takes it.
abbrev pub bits_from : ℕ → List ℕ → ℕ
bits_from start [] = start
bits_from start (c ∷ cs) =
    if c == 46
    then bits_from start cs
    else (if c == 98 then start else bits_from (2 * start + (c - 48)) cs)

split_product : (m q b r : ℕ) → m * (2 * q + b) + r ≡ 2 * m * q + (b * m + r)
split_product m q b r = omega arith

bit_below : (m b r : ℕ) → b < 2 → r < m → b * m + r < 2 * m
bit_below m zero r hb hr = omega arith
bit_below m (suc zero) r hb hr = omega arith
bit_below m (suc (suc b)) r hb hr = absurd (omega arith)

mod_double : (m v : ℕ) → 0 < m → v % (2 * m) ≡ v / m % 2 * m + v % m
mod_double m v h =
    let q = v / m / 2 in
    let b = v / m % 2 in
    let r = v % m in
    let half : 2 * q + b ≡ v / m = div-add-mod (v / m) 2 in
    let whole : v ≡ 2 * m * q + (b * m + r) =
      sym (div-add-mod v m) ∙ ap (λ t. m * t + r) (sym half) ∙ split_product m q b r in
    ap (λ t. t % (2 * m)) whole
    ∙ mul-add-mod_self_left (2 * m) q (b * m + r)
    ∙ mod-eq_of_lt (bit_below m b r (mod-lt (v / m) (omega arith)) (mod-lt v h))

shift_sum : (s b m r : ℕ) → (2 * s + b) * m + r ≡ s * (2 * m) + (b * m + r)
shift_sum s b m r = omega arith

doubled : (n : ℕ) → 2 * 2 ^ n ≡ 2 ^ suc n
doubled n = omega arith

pow_pos : (n : ℕ) → 0 < 2 ^ n
pow_pos zero = omega arith
pow_pos (suc n) = omega (arith, pow_pos n)

dots :
    (b : Bool) (bit start : ℕ) (cs more : List ℕ)
    → bit < 2
    → bits_from start (((if b then 46 ∷ [] else []) ++ (if bit == 1 then 49 else 48) ∷ cs) ++ more)
      ≡ bits_from (2 * start + bit) (cs ++ more)
dots true zero start cs more h = refl
dots true (suc zero) start cs more h = refl
dots true (suc (suc n)) start cs more h = absurd (omega arith)
dots false zero start cs more h = refl
dots false (suc zero) start cs more h = refl
dots false (suc (suc n)) start cs more h = absurd (omega arith)

bits_loop_lem :
    (value nb_bits left i start : ℕ)
    → bits_from start (bits_loop value nb_bits left i ++ 98 ∷ [])
      ≡ start * 2 ^ left + value % 2 ^ left
unfolding bits_loop
bits_loop_lem value nb_bits zero i start = omega arith
bits_loop_lem value nb_bits (suc left) i start =
    let bit = value / 2 ^ left % 2 in
    let low : bit < 2 = mod-lt (value / 2 ^ left) (omega arith) in
    let rest = bits_loop_lem value nb_bits left (suc i) (2 * start + bit) in
    let sum : (2 * start + bit) * 2 ^ left + value % 2 ^ left
        ≡ start * 2 ^ suc left + value % 2 ^ suc left =
      shift_sum start bit (2 ^ left) (value % 2 ^ left)
      ∙ ap (λ t. start * (2 * 2 ^ left) + t) (sym (mod_double (2 ^ left) value (pow_pos left)))
      ∙ ap (λ m. start * m + value % m) (doubled left) in
    dots (ltb 8 nb_bits && ((i % 8 == 0) && not (i == 0))) (value / 2 ^ left % 2) start
      (bits_loop value nb_bits left (suc i)) (98 ∷ []) low
    ∙ rest
    ∙ sum

-- For every value and every count of bits, `printBin` prints the lowest bits of the value, at most 32:
-- the text, without its dots and up to its `b`, reads as the value modulo that power of 2.
pub print_bin_lem :
    (value nb_bits : ℕ)
    → bits_from 0 (print_bin value nb_bits) ≡ value % 2 ^ (if ltb 32 nb_bits then 32 else nb_bits)
unfolding print_bin
print_bin_lem value nb_bits =
    let n = (if ltb 32 nb_bits then 32 else nb_bits) in bits_loop_lem value n n 0 0 ∙ omega arith
