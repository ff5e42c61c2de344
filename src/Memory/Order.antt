-- ===== src/Memory/Order.antt =====
-- `StrCmp` against the order of strings.
use lt_kernel.Prelude.{
  ℕ, zero, suc, ◌+◌, ◌<◌, ◌≡◌, ◌≢◌, ◌↔◌, refl, ◌∙◌, false, ◌⊎◌, inl, inr, ◌==◌, some, List, [], ◌∷◌,
  length, if◌then◌else◌, arith, Bool-cases, All,
}
use lt_kernel.Prelude.Int.{ℤ, pos, negsuc}
use lt_kernel.Memory.{Mem, char_lt, str_cmp_loop, str_cmp}
use lt_kernel.Memory.Strings.{IsString}

-- The lexicographic order, by signed characters: -1, 0 or 1.
unfoldable pub lex : List ℕ → List ℕ → ℤ
lex [] [] = pos 0
lex [] (d ∷ ds) = negsuc 0
lex (c ∷ cs) [] = pos 1
lex (c ∷ cs) (d ∷ ds) =
    let rest = lex cs ds in if char_lt c d then negsuc 0 else if char_lt d c then pos 1 else rest

-- Over bytes the order tells strings apart: 0 means that they are equal.
pub lex-zero :
    (cs ds : List ℕ)
    → All (λ c. c < 256) cs
    → All (λ d. d < 256) ds
    → (lex cs ds ≡ pos 0) ↔ (cs ≡ ds)
unfolding lex
lex-zero [] [] hc hd = (λ e. refl, λ e. refl)
lex-zero [] (d ∷ ds) hc hd = (λ e. cc, λ e. cc)
lex-zero (c ∷ cs) [] hc hd = (λ e. cc, λ e. cc)
lex-zero (c ∷ cs) (d ∷ ds) hc hd =
    let rest = lex-zero cs ds hc.1 hd.1 in
    let small = hc.0 in
    let small' = hd.0 in (λ e. ground (arith, rest.0), λ e. ground (arith, rest.1))

module _ (m : Mem) where
  str_cmp_loop-step :
      (fuel p q : ℕ) (r : ℤ)
      → 0 < m p
      → 0 < m q
      → 0 < m (p + 1)
      → 0 < m (q + 1)
      → str_cmp_loop fuel (p + 1) (q + 1) m ≡ some r
      → str_cmp_loop (suc fuel) p q m
        ≡ some (if char_lt (m p) (m q) then negsuc 0 else if char_lt (m q) (m p) then pos 1 else r)
  unfolding str_cmp_loop
  str_cmp_loop-step fuel p q r a b c d e =
      let a' : (m p == 0) ≡ false = ground arith in
      let b' : (m q == 0) ≡ false = ground arith in
      let c' : (m (p + 1) == 0) ≡ false = ground arith in
      let d' : (m (q + 1) == 0) ≡ false = ground arith in
      elim (Bool-cases (char_lt (m p) (m q))) [
        | inl less ↦ rw (a', b', less)
        | inr no_less ↦ elim (Bool-cases (char_lt (m q) (m p))) [
          | inl more ↦ rw (a', b', no_less, more)
          | inr same ↦ rw (a', b', no_less, same, c', d') e
        ]
      ]

  -- With a character at hand on both sides the loop decides by the order.
  str_cmp_loop-lex :
      (fuel p q c d : ℕ) (cs ds : List ℕ)
      → IsString m p (c ∷ cs)
      → IsString m q (d ∷ ds)
      → length cs + 1 < fuel
      → str_cmp_loop fuel p q m ≡ some (lex (c ∷ cs) (d ∷ ds))
  unfolding str_cmp_loop lex
  str_cmp_loop-lex zero p q c d cs ds s t f = absurd (omega arith)
  str_cmp_loop-lex (suc zero) p q c d cs ds s t f = absurd (omega arith)
  str_cmp_loop-lex (suc (suc fuel)) p q c d [] [] s t f =
      ground (arith, s.0, s.1, s.2, t.0, t.1, t.2)
  str_cmp_loop-lex (suc (suc fuel)) p q c d [] (y ∷ ds) s t f =
      ground (arith, s.0, s.1, s.2, t.0, t.1, t.2.0, t.2.1)
  str_cmp_loop-lex (suc (suc fuel)) p q c d (x ∷ cs) [] s t f =
      ground (arith, s.0, s.1, s.2.0, s.2.1, t.0, t.1, t.2)
  str_cmp_loop-lex (suc (suc fuel)) p q c d (x ∷ cs) (y ∷ ds) s t f =
      str_cmp_loop-step (suc fuel) p q (lex (x ∷ cs) (y ∷ ds)) (rw s.0 s.1) (rw t.0 t.1)
        (rw s.2.0 s.2.1) (rw t.2.0 t.2.1)
        (str_cmp_loop-lex (suc fuel) (p + 1) (q + 1) x y cs ds s.2 t.2 (omega arith))
      ∙ rw (s.0, t.0)

  -- `StrCmp` of two strings that are not empty ends with their order: negative, zero or positive.
  pub str_cmp-lex :
      (fuel p q c d : ℕ) (cs ds : List ℕ)
      → p ≢ 0
      → q ≢ 0
      → IsString m p (c ∷ cs)
      → IsString m q (d ∷ ds)
      → length cs + 1 < fuel
      → str_cmp fuel p q m ≡ some (lex (c ∷ cs) (d ∷ ds))
  unfolding str_cmp
  str_cmp-lex fuel p q c d cs ds np nq s t f =
      let e : (p == 0) ≡ false = ground arith in
      let e' : (q == 0) ≡ false = ground arith in
      rw (e, e') (str_cmp_loop-lex fuel p q c d cs ds s t f)

  -- If either string is empty, `StrCmp` answers 0, whatever the other is.
  pub str_cmp_empty :
      (fuel p q : ℕ)
      → p ≢ 0
      → q ≢ 0
      → (m p ≡ 0) ⊎ (m q ≡ 0)
      → str_cmp (suc fuel) p q m ≡ some (pos 0)
  unfolding str_cmp str_cmp_loop
  str_cmp_empty fuel p q np nq (inl z) =
      let e : (p == 0) ≡ false = ground arith in
      let e' : (q == 0) ≡ false = ground arith in rw (e, e', z)
  str_cmp_empty fuel p q np nq (inr z) = ground arith
