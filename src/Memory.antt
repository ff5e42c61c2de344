-- ===== src/Memory.antt =====
-- The memory and string routines of kernel/lib/stdlib.c, over a memory of bytes. An address is a
-- number, 0 is NULL, and no object reaches past the end of the address space. The loops over a
-- string run on fuel; more than the string's length is enough.
pub mod Fill
pub mod Strings
pub mod Order
mod Tests
use lt_kernel.Prelude.{
  ℕ, zero, suc, ◌+◌, ◌-◌, ◌%◌, ◌<◌, Bool, true, false, ◌&&◌, ◌||◌, not, Option, none, some, ◌==◌,
  if◌then◌else◌, ltb,
}
use lt_kernel.Prelude.Int.{ℤ, pos, negsuc}

abbrev pub Mem : Type 0
Mem = ℕ → ℕ

unfoldable pub poke : Mem → ℕ → ℕ → Mem
poke m p b x = if x == p then b else m x

-- The loop of `MmCopy`: `size` is what is left of it.
unfoldable pub copy_loop : ℕ → ℕ → ℕ → Mem → Mem
unfolding poke
copy_loop zero src dst m = m
copy_loop (suc size) src dst m = copy_loop size (src + 1) (dst + 1) (poke m dst (m src))

unfoldable pub mm_copy : ℕ → ℕ → ℕ → Mem → Mem
unfolding copy_loop
mm_copy src dst size m = if src == 0 || size == 0 then m else copy_loop size src dst m

unfoldable pub set_loop : ℕ → ℕ → ℕ → Mem → Mem
unfolding poke
set_loop zero src byte m = m
set_loop (suc size) src byte m = set_loop size (src + 1) byte (poke m src byte)

unfoldable pub mm_set : ℕ → ℕ → ℕ → Mem → Mem
unfolding set_loop
mm_set src byte size m = if src == 0 || size == 0 then m else set_loop size src byte m

-- `while (*src != '\0') *(dst++) = *(src++);` and then `*dst = '\0'`
unfoldable pub str_cpy_loop : ℕ → ℕ → ℕ → Mem → Option Mem
unfolding poke
str_cpy_loop zero src dst m = none
str_cpy_loop (suc fuel) src dst m =
    let rest = str_cpy_loop fuel (src + 1) (dst + 1) (poke m dst (m src)) in
    if m src == 0 then some (poke m dst 0) else rest

unfoldable pub str_cpy : ℕ → ℕ → ℕ → Mem → Option Mem
unfolding str_cpy_loop
str_cpy fuel src dst m = if src == 0 || dst == 0 then some m else str_cpy_loop fuel src dst m

unfoldable pub str_len_loop : ℕ → ℕ → ℕ → Mem → Option ℕ
str_len_loop zero str length m = none
str_len_loop (suc fuel) str length m =
    let rest = str_len_loop fuel (str + 1) (length + 1) m in
    if m str == 0 then some length else rest

unfoldable pub str_len : ℕ → ℕ → Mem → Option ℕ
unfolding str_len_loop
str_len fuel str m = if str == 0 then some 0 else str_len_loop fuel str 0 m

-- `char` is signed: a byte from 128 on is negative.
abbrev pub char_lt : ℕ → ℕ → Bool
char_lt a b = ltb ((a + 128) % 256) ((b + 128) % 256)

-- The loop of `StrCmp`, with the addresses of `str1[index]` and `str2[index]`.
unfoldable pub str_cmp_loop : ℕ → ℕ → ℕ → Mem → Option ℤ
str_cmp_loop zero p q m = none
str_cmp_loop (suc fuel) p q m =
    let rest = str_cmp_loop fuel (p + 1) (q + 1) m in
    if not (m p == 0) && not (m q == 0)
    then (if char_lt (m p) (m q)
        then some (negsuc 0)
        else if char_lt (m q) (m p)
        then some (pos 1)
        else if m (p + 1) == 0 && not (m (q + 1) == 0)
        then some (negsuc 0)
        else if m (q + 1) == 0 && not (m (p + 1) == 0)
        then some (pos 1)
        else rest)
    else some (pos 0)

unfoldable pub str_cmp : ℕ → ℕ → ℕ → Mem → Option ℤ
unfolding str_cmp_loop
str_cmp fuel p q m = if p == 0 || q == 0 then some (negsuc 1) else str_cmp_loop fuel p q m

unfoldable pub index_loop : ℕ → ℕ → ℕ → ℕ → Mem → Option ℤ
index_loop zero str c index m = none
index_loop (suc fuel) str c index m =
    let rest = index_loop fuel str c (index + 1) m in
    if m (str + index) == 0
    then some (negsuc 0)
    else if m (str + index) == c
    then some (pos index)
    else rest

unfoldable pub first_index_of : ℕ → ℕ → ℕ → Mem → Option ℤ
unfolding index_loop
first_index_of fuel str c m = if str == 0 then some (negsuc 1) else index_loop fuel str c 0 m
