-- ===== src/Prelude/Bits.antt =====
-- `bit_and` with the lowest bit, at variables.
use Prim.Native.Nat.{ℕ, zero, suc, ◌/◌, ◌%◌, min, bit_and, digits, bit_and-bitwise}
use mathlib.Core.Path.{◌≡◌, refl}
use native.Mathlib.Omega.{arith}

digits-zero : (n a : ℕ) → digits (λ b. zero) min n a 0 ≡ 0
digits-zero zero a = refl
digits-zero (suc n) zero = refl
digits-zero (suc n) (suc a) = omega (arith, digits-zero n (suc a / 2))

pub bit_and-one : (a : ℕ) → bit_and a 1 ≡ a % 2
bit_and-one zero = refl
bit_and-one (suc a) = omega (arith, bit_and-bitwise (suc a) 1, digits-zero a (suc a / 2))
