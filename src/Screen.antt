-- ===== src/Screen.antt =====
-- The text screen of kernel/drivers/screen.c: the cursor, the colour and the memory from `SCREEN_PTR`
-- on. The counts `_line` and `_column` are signed in the code and never go below 0.
pub mod Scroll
pub mod Print
pub mod Colour
mod Tests
use lt_kernel.Prelude.{
  ℕ, zero, suc, ◌+◌, ◌-◌, ◌*◌, ◌<◌, Bool, true, false, ◌==◌, if◌then◌else◌, ltb, leb, bit_and,
  bit_or,
}
use lt_kernel.Prelude.Words.{u8}

abbrev pub screen_ptr : ℕ
screen_ptr = 753664

abbrev pub screen_end_ptr : ℕ
screen_end_ptr = 757664

abbrev pub lines : ℕ
lines = 25

abbrev pub columns : ℕ
columns = 80

pub record Screen : Type 0 where
  pub line : ℕ
  pub column : ℕ
  pub color : ℕ
  pub memory : ℕ → ℕ

unfoldable pub poke : ℕ → ℕ → (ℕ → ℕ) → ℕ → ℕ
poke p v memory x = if x == p then v else memory x

-- The loop of `ScScrollUp`, for the `n` addresses from `p` on.
unfoldable pub scroll_loop : ℕ → ℕ → (ℕ → ℕ) → ℕ → ℕ
unfolding poke
scroll_loop zero p memory = memory
scroll_loop (suc n) p memory = scroll_loop n (suc p) (
    poke p (if ltb p (screen_ptr + (1 + lines * columns) * 2) then memory (p + columns * 2) else 0)
      memory)

unfoldable pub sc_scroll_up : Screen → Screen
sc_scroll_up s = record s {
  memory = scroll_loop (suc screen_end_ptr - screen_ptr) screen_ptr s.memory;
}

-- `if (_line > LINES) { ScScrollUp(); _line--; }`
unfoldable pub keep_line : Screen → Screen
keep_line s =
    if ltb lines s.line then (let t = sc_scroll_up s in record t { line = t.line - 1 }) else s

-- `if (_column > COLUMNS - 1) { _column = 0; _line++; }`
unfoldable pub keep_column : Screen → Screen
keep_column s = if ltb (columns - 1) s.column then record s { column = 0; line = s.line + 1 } else s

-- The two writes at the cursor and the step to the next column.
unfoldable pub put_cell : ℕ → Screen → Screen
unfolding poke
put_cell c s =
    let p = screen_ptr + (s.column + s.line * columns) * 2 in
    record s { memory = poke (p + 1) s.color (poke p c s.memory); column = s.column + 1 }

unfoldable pub sc_print_char : ℕ → Screen → Screen
sc_print_char c s =
    let t =
      (if c == 10
        then record s { line = s.line + 1; column = 0 }
        else (if c == 13
            then record s { column = 0 }
            else put_cell c (keep_line (keep_column s)))) in
    keep_line (keep_column t)

unfoldable pub sc_set_color_ex : ℕ → ℕ → ℕ → ℕ → Screen → Screen
sc_set_color_ex background foreground blink intensity s = record s {
  color =
      bit_or
        (bit_or (bit_or (bit_and blink 128) (bit_and 112 (background * 16)))
          (bit_and 8 (intensity * 8)))
        (bit_and 7 foreground);
}

-- `WHITE` is 7 and `BLACK` is 0.
unfoldable pub sc_set_color : ℕ → Screen → Screen
unfolding sc_set_color_ex
sc_set_color value s =
    if value == 7 then sc_set_color_ex 0 value 0 0 s else sc_set_color_ex 0 value 0 1 s

-- The loop of `ScClear` writes every second byte; `n` of them are left, from `p` on.
unfoldable pub clear_loop : ℕ → ℕ → (ℕ → ℕ) → ℕ → ℕ
unfolding poke
clear_loop zero p memory = memory
clear_loop (suc n) p memory = clear_loop n (p + 2) (poke p 32 memory)

unfoldable pub sc_clear : Screen → Screen
sc_clear s = record s {
  memory = clear_loop (lines * columns) screen_ptr s.memory;
  line = 0;
  column = 0;
}
