-- ===== src/Format/Number.antt =====
-- `printInt` prints the digits of the number.
use lt_kernel.Prelude.{
  ℕ, zero, suc, ◌+◌, ◌-◌, ◌*◌, ◌/◌, ◌%◌, ◌^◌, ◌<◌, ◌≤◌, ◌≡◌, refl, sym, ap, ◌∙◌, true, false, ◌||◌,
  List, [], ◌∷◌, ◌==◌, if◌then◌else◌, arith, ltb, Bool-cases, inl, inr,
}
use native.Mathlib.Nat.{div-lt_iff_lt-mul, div-add-mod, mod-lt, mul-le-mul_left, mul_comm}
use lt_kernel.Prelude.Int.{ℤ, pos, negsuc}
use lt_kernel.Prelude.Result.{Result, ok}
use lt_kernel.Format.{hex, digits_loop, print_int}

-- The value of a digit character, and of a text of them, as a reader takes it.
abbrev pub digit_value : ℕ → ℕ
digit_value c = if ltb c 58 then c - 48 else c - 55

abbrev pub value_from : ℕ → ℕ → List ℕ → ℕ
value_from base start [] = start
value_from base start (c ∷ cs) = value_from base (start * base + digit_value c) cs

digit_value-hex : (d : ℕ) → d < 16 → digit_value (hex d) ≡ d
digit_value-hex d h = ground arith

half : (base q m : ℕ) → 1 < base → q < 2 * m → q / base < m
half base q m h l =
    (div-lt_iff_lt-mul {k = base} {x = q} {y = m} (omega arith)).1
      (omega (arith, mul-le-mul_left {m = 2} {n = base} m h, mul_comm 2 m))

-- The loop ends, and what it puts before `chaine` reads as `quotient`.
pub digits_loop_lem :
    (f base quotient : ℕ) (chaine : List ℕ)
    → 1 < base
    → base ≤ 16
    → quotient < 2 ^ f
    → (text : List ℕ) × (digits_loop (suc f) base quotient chaine ≡ ok text)
      × (value_from base 0 text ≡ value_from base quotient chaine)
unfolding digits_loop
digits_loop_lem zero base quotient chaine hb hb' h =
    let z : quotient ≡ 0 = omega arith in
    let e : (quotient == 0) ≡ true = ground arith in
    (chaine, rw e refl, ap (λ q. value_from base q chaine) (sym z))
digits_loop_lem (suc f) base quotient chaine hb hb' h = elim (Bool-cases (quotient == 0)) [
  | inl e ↦
      let z : quotient ≡ 0 = ground arith in
      (chaine, rw e refl, ap (λ q. value_from base q chaine) (sym z))
  | inr e ↦
      let c = hex (quotient % base) ∷ chaine in
      let rest =
        digits_loop_lem f base (quotient / base) c hb hb'
          (half base quotient (2 ^ f) hb (omega arith)) in
      let d : digit_value (hex (quotient % base)) ≡ quotient % base =
        digit_value-hex (quotient % base)
          (omega (arith, mod-lt quotient {m = base} (omega arith))) in
      let v : quotient / base * base + digit_value (hex (quotient % base)) ≡ quotient =
        ap (λ t. quotient / base * base + t) d
        ∙ omega (arith, div-add-mod quotient base, mul_comm base (quotient / base)) in
      (rest.0, rw e rest.1, rest.2 ∙ ap (λ q. value_from base q chaine) v)
]

loop_zero : (base : ℕ) → digits_loop 33 base 0 [] ≡ ok []
unfolding digits_loop
loop_zero base = refl

-- The text of a number: the digits, behind a minus for a negative one.
abbrev pub Reads : ℕ → ℤ → Result (List ℕ) → Type 0
Reads base (pos n) r = (text : List ℕ) × (r ≡ ok text) × (value_from base 0 text ≡ n)
Reads base (negsuc n) r = (text : List ℕ) × (r ≡ ok (45 ∷ text)) × (value_from base 0 text ≡ suc n)

-- An `int` is above -2^31 - 1 and below 2^31; -2^31 is left out.
abbrev pub InRange : ℤ → Type 0
InRange (pos n) = n < 2147483648
InRange (negsuc n) = n < 2147483647

-- For a base from 2 to 16 and a number above -2^31, with fuel for 33 steps `printInt` ends, and the
-- text reads as the number in that base, behind a minus if the number is negative.
pub print_int-Reads :
    (base : ℕ) (x : ℤ) → 1 < base → base ≤ 16 → InRange x → Reads base x (print_int 33 x base)
unfolding print_int
print_int-Reads base (pos zero) hb hb' h =
    let g : (ltb base 2 || ltb 16 base) ≡ false = ground arith in
    rw (g, loop_zero base) (48 ∷ [], refl, omega arith)
print_int-Reads base (pos (suc n)) hb hb' h =
    let g : (ltb base 2 || ltb 16 base) ≡ false = ground arith in
    let z : (suc n == 0) ≡ false = ground arith in
    let d = digits_loop_lem 32 base (suc n) [] hb hb' (omega arith) in
    rw (g, z, d.1) (d.0, refl, d.2)
print_int-Reads base (negsuc n) hb hb' h =
    let g : (ltb base 2 || ltb 16 base) ≡ false = ground arith in
    let z : (n == 2147483647) ≡ false = ground arith in
    let d = digits_loop_lem 32 base (suc n) [] hb hb' (omega arith) in
    rw (g, z, d.1) (d.0, refl, d.2)
