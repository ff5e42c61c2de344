-- ===== src/Memory/Strings.antt =====
-- `StrLen`, `StrCpy` and `FirstIndexOf` on the string that stands at an address.
use lt_kernel.Prelude.{
  ℕ, zero, suc, ◌+◌, ◌<◌, ◌≤◌, ◌≡◌, ◌≢◌, ◌∙◌, false, ◌⊎◌, inl, inr, ◌==◌, Option, some, List, [],
  ◌∷◌, length, get_elem?, arith, ap, Bool-cases, ==_iff,
}
use lt_kernel.Prelude.Int.{ℤ, pos, negsuc}
use lt_kernel.Memory.{
  Mem, poke, str_cpy_loop, str_cpy, str_len_loop, str_len, index_loop, first_index_of,
}

-- At `p` stand the bytes `cs`, none of which is 0, and then a 0.
abbrev pub IsString : Mem → ℕ → List ℕ → Type 0
IsString m p [] = m p ≡ 0
IsString m p (c ∷ cs) = (m p ≡ c) × (0 < c) × IsString m (p + 1) cs

pub IsString-frame :
    (m m' : Mem) (p : ℕ) (cs : List ℕ)
    → ((x : ℕ) → p ≤ x → x ≤ p + length cs → m' x ≡ m x)
    → IsString m p cs
    → IsString m' p cs
IsString-frame m m' p [] same s = same p (omega arith) (omega arith) ∙ s
IsString-frame m m' p (c ∷ cs) same s = (
  same p (omega arith) (omega arith) ∙ s.0,
  s.1,
  IsString-frame m m' (p + 1) cs (λ x lo hi. same x (omega arith) (omega arith)) s.2,
)

str_len_loop-length :
    (fuel str n : ℕ) (m : Mem) (cs : List ℕ)
    → IsString m str cs
    → length cs < fuel
    → str_len_loop fuel str n m ≡ some (n + length cs)
unfolding str_len_loop
str_len_loop-length zero str n m cs s f = absurd (omega arith)
str_len_loop-length (suc fuel) str n m [] s f = rw s (ap (λ t. some t) (omega arith))
str_len_loop-length (suc fuel) str n m (c ∷ cs) s f =
    let ne : (c == 0) ≡ false = ground (arith, s.1) in
    rw (s.0, ne)
      (str_len_loop-length fuel (str + 1) (n + 1) m cs s.2 (omega arith)
        ∙ ap (λ t. some t) (omega arith))

-- `StrLen` of a string ends with its length.
pub str_len-length :
    (fuel str : ℕ) (m : Mem) (cs : List ℕ)
    → str ≢ 0
    → IsString m str cs
    → length cs < fuel
    → str_len fuel str m ≡ some (length cs)
unfolding str_len
str_len-length fuel str m cs ne s f =
    let e : 0 + length cs ≡ length cs = omega arith in
    ground (arith, str_len_loop-length fuel str 0 m cs s f)

-- The memory after a string has been copied to `dst`.
pub record Copied (m : Mem) (dst : ℕ) (cs : List ℕ) (r : Option Mem) : Type 0 where
  pub out : Mem
  pub runs : r ≡ some out
  pub copy : IsString out dst cs
  pub outside : (x : ℕ) → (x < dst) ⊎ (dst + length cs < x) → out x ≡ m x

abbrev pub NoOverlap : ℕ → ℕ → List ℕ → Type 0
NoOverlap src dst cs = (dst + length cs < src) ⊎ (src + length cs < dst)

str_cpy_loop-Copied :
    (fuel src dst : ℕ) (m : Mem) (cs : List ℕ)
    → IsString m src cs
    → NoOverlap src dst cs
    → length cs < fuel
    → Copied m dst cs (str_cpy_loop fuel src dst m)
unfolding str_cpy_loop
str_cpy_loop-Copied zero src dst m cs s apart f = absurd (omega arith)
str_cpy_loop-Copied (suc fuel) src dst m [] s apart f = record {
  out = poke m dst 0;
  runs = rw s;
  copy = ground arith;
  outside = λ x o. ground arith;
}
str_cpy_loop-Copied (suc fuel) src dst m (c ∷ cs) s apart f =
    let m' = poke m dst (m src) in
    let kept = IsString-frame m m' (src + 1) cs (λ x lo hi. ground arith) s.2 in
    let rest =
      str_cpy_loop-Copied fuel (src + 1) (dst + 1) m' cs kept (omega arith) (omega arith) in
    let ne : (m src == 0) ≡ false = ground (arith, s.0, s.1) in
    record {
      out = rest.out;
      runs = rw ne rest.runs;
      copy = (rest.outside dst (inl (omega arith)) ∙ ground (arith, s.0), s.1, rest.copy);
      outside = λ x o. rest.outside x (omega arith) ∙ ground arith;
    }

-- `StrCpy` ends with a copy of the string, its end included, at `dst`, and writes nowhere else; for
-- a source and a target that do not overlap.
pub str_cpy-Copied :
    (fuel src dst : ℕ) (m : Mem) (cs : List ℕ)
    → src ≢ 0
    → dst ≢ 0
    → IsString m src cs
    → NoOverlap src dst cs
    → length cs < fuel
    → Copied m dst cs (str_cpy fuel src dst m)
unfolding str_cpy
str_cpy-Copied fuel src dst m cs ns nd s apart f =
    let e : (src == 0) ≡ false = ground arith in
    let e' : (dst == 0) ≡ false = ground arith in
    rw (e, e') (str_cpy_loop-Copied fuel src dst m cs s apart f)

-- The index of the first `c` among `cs`, counted from `from`, or -1.
pub data FirstIndex (c : ℕ) (cs : List ℕ) (from : ℕ) : ℤ → Type 0 where
  at_index :
      (i : ℕ)
      → get_elem? cs i ≡ some c
      → ((j : ℕ) → j < i → get_elem? cs j ≢ some c)
      → FirstIndex c cs from (pos (from + i))
  no_index : ((j : ℕ) → get_elem? cs j ≢ some c) → FirstIndex c cs from (negsuc 0)

skip_elem :
    (c d : ℕ) (cs : List ℕ) (n : ℕ)
    → d ≢ c
    → ((j : ℕ) → j < n → get_elem? cs j ≢ some c)
    → (j : ℕ) → j < suc n
    → get_elem? (d ∷ cs) j ≢ some c
skip_elem c d cs n ne h zero lt = λ e. ne (ground arith)
skip_elem c d cs n ne h (suc j) lt = h j (omega arith)

skip_all :
    (c d : ℕ) (cs : List ℕ)
    → d ≢ c
    → ((j : ℕ) → get_elem? cs j ≢ some c)
    → (j : ℕ) → get_elem? (d ∷ cs) j ≢ some c
skip_all c d cs ne h zero = λ e. ne (ground arith)
skip_all c d cs ne h (suc j) = h j

FirstIndex-skip :
    (c d : ℕ) (cs : List ℕ) (from : ℕ) (r : ℤ)
    → d ≢ c
    → FirstIndex c cs (from + 1) r
    → FirstIndex c (d ∷ cs) from r
FirstIndex-skip c d cs from _ ne (at_index i e below) =
    let same : from + suc i ≡ from + 1 + i = omega arith in
    rw (← same) (at_index (suc i) e (skip_elem c d cs i ne below))
FirstIndex-skip c d cs from _ ne (no_index none_at) = no_index (skip_all c d cs ne none_at)

index_loop-FirstIndex :
    (fuel str c i : ℕ) (m : Mem) (cs : List ℕ)
    → IsString m (str + i) cs
    → length cs < fuel
    → (r : ℤ) × (index_loop fuel str c i m ≡ some r) × FirstIndex c cs i r
unfolding index_loop
index_loop-FirstIndex zero str c i m cs s f = absurd (omega arith)
index_loop-FirstIndex (suc fuel) str c i m [] s f = (negsuc 0, rw s, no_index (λ j e. cc))
index_loop-FirstIndex (suc fuel) str c i m (d ∷ cs) s f =
    let next : str + i + 1 ≡ str + (i + 1) = omega arith in
    let rest = index_loop-FirstIndex fuel str c (i + 1) m cs (rw (← next) s.2) (omega arith) in
    let ne : (d == 0) ≡ false = ground (arith, s.1) in
    elim (Bool-cases (d == c)) [
      | inl hit ↦
          let e : d ≡ c = (==_iff d c).0 hit in
          let z : i + 0 ≡ i = omega arith in
          let found : FirstIndex c (d ∷ cs) i (pos (i + 0)) =
            at_index 0 (ap (λ t. some t) e) (λ j lt. absurd (omega arith)) in
          (pos i, rw (s.0, ne, hit), rw z at found)
      | inr miss ↦ (
        rest.0,
        rw (s.0, ne, miss) rest.1,
        FirstIndex-skip c d cs i rest.0 (λ e. ground arith) rest.2,
      )
    ]

-- `FirstIndexOf` ends: it answers the index of the first `c` in the string, or -1 if it has none.
pub first_index_of-FirstIndex :
    (fuel str c : ℕ) (m : Mem) (cs : List ℕ)
    → str ≢ 0
    → IsString m str cs
    → length cs < fuel
    → (r : ℤ) × (first_index_of fuel str c m ≡ some r) × FirstIndex c cs 0 r
unfolding first_index_of
first_index_of-FirstIndex fuel str c m cs ne s f =
    let z : str + 0 ≡ str = omega arith in
    let e : (str == 0) ≡ false = ground arith in
    rw e (index_loop-FirstIndex fuel str c 0 m cs (rw z s) f)
