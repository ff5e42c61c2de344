-- ===== src/Screen/Print.antt =====
-- `ScPrintChar`: the cursor stays on the lines 0 to 25, and where a character lands.
use mathlib.Core.Path.{subst⁻¹, ◌∙◌}
use lt_kernel.Prelude.{
  ℕ, ◌+◌, ◌-◌, ◌*◌, ◌<◌, ◌≤◌, ◌≡◌, ◌≢◌, refl, true, false, ◌==◌, if◌then◌else◌, arith, ltb, leb,
  ◌&&◌, dec_lt,
}
use lt_kernel.Screen.{
  Screen, lines, columns, sc_scroll_up, keep_line, keep_column, put_cell, poke, sc_print_char,
}
use lt_kernel.Screen.Scroll.{sc_scroll_up_lem}

-- The cursor is on a column of the screen and on a line of at most 25.
pub record IsOnScreen (s : Screen) : Type 0 where
  pub on_line : s.line ≤ lines
  pub on_column : s.column < columns

-- The number of the cell under the cursor.
abbrev pub cell : Screen → ℕ
cell s = s.column + s.line * columns

-- The memory with a character and the colour in the two bytes of the cell under the cursor, where the
-- text memory starts at 753664, or 0xB8000.
abbrev pub with_char : Screen → ℕ → ℕ → ℕ
with_char s c x =
    if x == 753664 + 2 * cell s then c else if x == 753665 + 2 * cell s then s.color else s.memory x

-- The screen after a character: the next cell, by the number of the cell it was printed to, and each
-- byte of the memory. A scroll moves the bytes from 753664 to 757664 up by the 160 bytes of a line.
abbrev pub Printed : Screen → ℕ → Screen → Type 0
Printed s c t =
    IsOnScreen t
    × (t.color ≡ s.color)
    × (if ltb (cell s + 1) ((lines + 1) * columns)
        then (cell t ≡ cell s + 1) × ((x : ℕ) → t.memory x ≡ with_char s c x)
        else (cell t ≡ lines * columns)
          × ((x : ℕ)
              → t.memory x ≡ (
                  if leb 753664 x && leb x 757664
                  then with_char s c (x + 160)
                  else with_char s c x)))

put_byte : (s : Screen) (c x : ℕ) → (put_cell c s).memory x ≡ with_char s c x
unfolding put_cell poke
put_byte s c x = ground arith

column_kept : (s : Screen) → s.column < columns → keep_column s ≡ s
unfolding keep_column
column_kept s h = let d : ltb 79 s.column ≡ false = ground arith in rw d refl

line_kept : (s : Screen) → s.line ≤ lines → keep_line s ≡ s
unfolding keep_line
line_kept s h = let d : ltb 25 s.line ≡ false = ground arith in rw d refl

column_wrapped :
    (s : Screen) → s.column ≡ columns → keep_column s ≡ record s { column = 0; line = s.line + 1 }
unfolding keep_column
column_wrapped s h = let d : ltb 79 s.column ≡ true = ground arith in rw d refl

line_scrolled :
    (s : Screen)
    → s.line ≡ lines + 1
    → keep_line s ≡ (let t = sc_scroll_up s in record t { line = t.line - 1 })
unfolding keep_line
line_scrolled s h = let d : ltb 25 s.line ≡ true = ground arith in rw d refl

print_open :
    (s : Screen) (c : ℕ)
    → IsOnScreen s
    → c ≢ 10
    → c ≢ 13
    → sc_print_char c s ≡ keep_line (keep_column (put_cell c s))
unfolding sc_print_char
print_open s c v n r =
    let a : (c == 10) ≡ false = ground arith in
    let b : (c == 13) ≡ false = ground arith in
    rw (a, b, column_kept s v.on_column, line_kept s v.on_line) refl

scrolled_line :
    (s : Screen)
    → ((sc_scroll_up s).line ≡ s.line)
      × ((sc_scroll_up s).column ≡ s.column)
      × ((sc_scroll_up s).color ≡ s.color)
unfolding sc_scroll_up
scrolled_line s = (refl, refl, refl)

scrolled_byte :
    (s p : Screen) (c : ℕ)
    → ((x : ℕ) → p.memory x ≡ with_char s c x)
    → (x : ℕ)
    → (sc_scroll_up p).memory x
      ≡ (if leb 753664 x && leb x 757664 then with_char s c (x + 160) else with_char s c x)
scrolled_byte s p c m x = sc_scroll_up_lem p x ∙ rw (m (x + 160), m x) refl

-- The three cases, for the screen `p` behind the write.
next_cell :
    (s p : Screen) (c : ℕ)
    → p.line ≡ s.line
    → p.column ≡ s.column + 1
    → p.color ≡ s.color
    → ((x : ℕ) → p.memory x ≡ with_char s c x)
    → IsOnScreen s
    → Printed s c (keep_line (keep_column p))
next_cell s p c pl pc pk pm v =
    let w : Screen = record p { column = 0; line = p.line + 1 } in
    elim (dec_lt (s.column + 1) columns) [
      | yes h ↦
          let k : ltb (cell s + 1) 2080 ≡ true = ground (arith, v.on_line) in
          rw (column_kept p (omega arith), line_kept p (ground (arith, v.on_line)), k)
            (
              record { on_line = ground (arith, v.on_line); on_column = omega arith },
              pk,
              (omega arith, pm),
            )
      | no h ↦ elim (dec_lt s.line lines) [
        | yes l ↦
            let k : ltb (cell s + 1) 2080 ≡ true = ground (arith, v.on_column) in
            rw (column_wrapped p (ground (arith, v.on_column)), line_kept w (omega arith), k)
              (
                record { on_line = omega arith; on_column = omega arith },
                pk,
                (ground (arith, v.on_column), pm),
              )
        | no l ↦
            let k : ltb (cell s + 1) 2080 ≡ false = ground (arith, v.on_column, v.on_line) in
            let e : w.line ≡ lines + 1 = ground (arith, v.on_line) in
            let q = scrolled_line w in
            let n : (sc_scroll_up w).line - 1 ≡ lines = omega arith in
            rw (column_wrapped p (ground (arith, v.on_column)), line_scrolled w e, k, q.2, q.1, n)
              (
                record { on_line = omega arith; on_column = omega arith },
                pk,
                (refl, scrolled_byte s w c pm),
              )
      ]
    ]

written :
    (s : Screen) (c : ℕ)
    → ((put_cell c s).line ≡ s.line)
      × ((put_cell c s).column ≡ s.column + 1)
      × ((put_cell c s).color ≡ s.color)
unfolding put_cell
written s c = (refl, refl, refl)

-- On a screen with the cursor on a column below 80 and a line up to 25, a character that is neither
-- LF nor CR is written to the first byte of the cell under the cursor and the colour to the second, and
-- no other byte of the memory changes; the cursor moves to the next cell. Behind the last cell of line
-- 25 the bytes are then moved up by one line and the cursor moves to the first cell of line 25. The
-- cursor keeps its bounds and the colour is kept.
pub sc_print_char-Printed :
    (s : Screen) (c : ℕ) → IsOnScreen s → c ≢ 10 → c ≢ 13 → Printed s c (sc_print_char c s)
sc_print_char-Printed s c v n r =
    let w = written s c in
    subst⁻¹ (Printed s c) (print_open s c v n r)
      (next_cell s (put_cell c s) c w.0 w.1 w.2 (put_byte s c) v)
