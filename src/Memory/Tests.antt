-- ===== src/Memory/Tests.antt =====
-- Runs of the memory routines, and their theorems at them.
use lt_kernel.Prelude.{ℕ, ◌≡◌, ◌↔◌, refl, inr, ◌==◌, some, List, [], ◌∷◌, if◌then◌else◌, arith}
use lt_kernel.Prelude.Int.{ℤ, pos, negsuc}
use lt_kernel.Memory.{Mem, mm_set, str_cpy, str_len, str_cmp, first_index_of}
use lt_kernel.Memory.Fill.{mm_set_lem}
use lt_kernel.Memory.Strings.{
  Copied, FirstIndex, str_len-length, str_cpy-Copied, first_index_of-FirstIndex,
}
use lt_kernel.Memory.Order.{lex, lex-zero, str_cmp-lex}

-- "ab" at 100 and "ac" at 200
abbrev memory : Mem
memory x =
    if x == 100
    then 97
    else if x == 101
    then 98
    else if x == 200
    then 97
    else if x == 201
    then 99
    else 0

mm_set_lem_example : mm_set 100 7 2 memory 101 ≡ 7
mm_set_lem_example = mm_set_lem 100 7 2 memory 101 (omega arith)

str_len-length_example : str_len 5 100 memory ≡ some 2
str_len-length_example =
    str_len-length 5 100 memory (97 ∷ 98 ∷ []) (omega arith)
      (refl, omega arith, (refl, omega arith, refl)) (omega arith)

str_cpy-Copied_example : Copied memory 300 (97 ∷ 98 ∷ []) (str_cpy 5 100 300 memory)
str_cpy-Copied_example =
    str_cpy-Copied 5 100 300 memory (97 ∷ 98 ∷ []) (omega arith) (omega arith)
      (refl, omega arith, (refl, omega arith, refl)) (inr (omega arith)) (omega arith)

first_index_of-FirstIndex_example :
    (r : ℤ) × (first_index_of 5 100 98 memory ≡ some r) × FirstIndex 98 (97 ∷ 98 ∷ []) 0 r
first_index_of-FirstIndex_example =
    first_index_of-FirstIndex 5 100 98 memory (97 ∷ 98 ∷ []) (omega arith)
      (refl, omega arith, (refl, omega arith, refl)) (omega arith)

lex-zero_example : (lex (97 ∷ []) (98 ∷ []) ≡ pos 0) ↔ (◌≡◌ {A = List ℕ} (97 ∷ []) (98 ∷ []))
lex-zero_example = lex-zero (97 ∷ []) (98 ∷ []) (omega arith) (omega arith)

str_cmp-lex_example : str_cmp 5 100 200 memory ≡ some (negsuc 0)
unfolding lex
str_cmp-lex_example =
    str_cmp-lex memory 5 100 200 97 97 (98 ∷ []) (99 ∷ []) (omega arith) (omega arith)
      (refl, omega arith, (refl, omega arith, refl)) (refl, omega arith, (refl, omega arith, refl))
      (omega arith)
