-- ===== src/Prelude/Result.antt =====
-- The result of code that may dereference a bad pointer, or that runs out of fuel in the model.

pub data Result {ℓ} (A : Type ℓ) : Type ℓ where
  ok : A → Result A
  fault : Result A
  stuck : Result A

infixl 5 ◌>>=◌
abbrev pub ◌>>=◌ {ℓ κ} : {A : Type ℓ} {B : Type κ} → Result A → (A → Result B) → Result B
ok a >>= f = f a
fault >>= f = fault
stuck >>= f = stuck
