-- ===== src/Format.antt =====
-- The numbers of kernel/lib/stdio.c. What is printed is the list of the characters handed to
-- `printChar`; where they go (screen or serial port) is not modelled here.
pub mod Number
pub mod Binary
mod Tests
use lt_kernel.Prelude.{
  ℕ, zero, suc, ◌+◌, ◌-◌, ◌*◌, ◌/◌, ◌%◌, ◌^◌, ◌<◌, Bool, true, false, not, ◌&&◌, ◌||◌, List, [],
  ◌∷◌, ◌++◌, ◌==◌, if◌then◌else◌, ltb, leb,
}
use lt_kernel.Prelude.Int.{ℤ, pos, negsuc}
use lt_kernel.Prelude.Result.{Result, ok, fault, stuck, ◌>>=◌}

-- `HEX[reste]`
abbrev pub hex : ℕ → ℕ
hex digit = if ltb digit 10 then 48 + digit else 55 + digit

-- `while (quotient != 0)`: `chaine`, with the last character that was written first.
unfoldable pub digits_loop : ℕ → ℕ → ℕ → List ℕ → Result (List ℕ)
digits_loop zero base quotient chaine = stuck
digits_loop (suc fuel) base quotient chaine =
    let rest = digits_loop fuel base (quotient / base) (hex (quotient % base) ∷ chaine) in
    if quotient == 0 then ok chaine else rest

-- For -2^31, whose negation overflows, `quotient` stays negative and the digits are read from before
-- `HEX`: a `fault`.
unfoldable pub print_int : ℕ → ℤ → ℕ → Result (List ℕ)
print_int fuel (pos n) base =
    let zero_text = (if n == 0 then 48 ∷ [] else []) in
    if ltb base 2 || ltb 16 base
    then ok zero_text
    else do text ← digits_loop fuel base n []; ok (zero_text ++ text)
print_int fuel (negsuc n) base =
    if ltb base 2 || ltb 16 base
    then ok []
    else if n == 2147483647
    then fault
    else do text ← digits_loop fuel base (suc n) []; ok (45 ∷ text)

-- The loop of `printBin`, for the bits below `offset + 1 = left`; `i` counts the bits printed.
unfoldable pub bits_loop : ℕ → ℕ → ℕ → ℕ → List ℕ
bits_loop value nb_bits zero i = []
bits_loop value nb_bits (suc offset) i =
    (if ltb 8 nb_bits && ((i % 8 == 0) && not (i == 0)) then 46 ∷ [] else [])
    ++ (if value / 2 ^ offset % 2 == 1 then 49 else 48) ∷ bits_loop value nb_bits offset (suc i)

-- For a value as its 32-bit pattern and a count of bits that is not negative.
unfoldable pub print_bin : ℕ → ℕ → List ℕ
print_bin value nb_bits =
    let n = (if ltb 32 nb_bits then 32 else nb_bits) in bits_loop value n n 0 ++ 98 ∷ []
