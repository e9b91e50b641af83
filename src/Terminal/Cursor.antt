-- ===== src/Terminal/Cursor.antt =====
-- The cursor and the cells of src/terminal.c.
use udemy_kernel.Str.Length.{IsString, strlen_lem}
use udemy_kernel.Prelude.{
  some, refl, ◌&&◌, suc, zero, ◌-◌, leb, ltb, ◌≤◌, ◌≤◌, leb, Array, ℕ, ◌+◌, ◌*◌, ◌^◌, ◌<◌, ◌≡◌, ◌≢◌,
  ◌==◌, if◌then◌else◌, arith,
}
use udemy_kernel.Terminal.{
  print, print_loop, Terminal, terminal_make_char, terminal_writechar, terminal_backspace,
}

-- The index of the cell under the cursor.
abbrev pub at_cursor : Terminal → ℕ
at_cursor t = t.row * 80 + t.col

-- The cursor stands on a column of the screen, with a line left below on 16 bits.
pub record OnScreen (t : Terminal) (room : ℕ) : Type 0 where
  pub column : t.col < 80
  pub rows : t.row + room < 2 ^ 16

-- At a column of the screen and a row below 2^16 - 1, a character other than '\n' and a backspace
-- goes to the cell under the cursor and to no other; the cursor moves on by one cell, from the
-- end of a line to the start of the next.
pub writechar_glyph :
    (c colour : ℕ) (t : Terminal)
    → c ≢ b'\n'
    → c ≢ 0x08
    → OnScreen t 1
    → (at_cursor (terminal_writechar c colour t) ≡ at_cursor t + 1)
      × ((terminal_writechar c colour t).col < 80)
      × ((j : ℕ)
          → (terminal_writechar c colour t).video j
            ≡ (if j == at_cursor t then terminal_make_char c colour else t.video j))
unfolding terminal_writechar
writechar_glyph c colour t p q on =
    (ground (arith, on.column, on.rows), ground (arith, on.column), λ j. ground (arith, on.column))

-- A backspace at a column other than the first takes the cursor one column back, and blanks the
-- cell there and no other.
pub backspace_col :
    (t : Terminal)
    → 0 < t.col
    → t.col < 80
    → ((terminal_backspace t).row ≡ t.row)
      × ((terminal_backspace t).col + 1 ≡ t.col)
      × ((j : ℕ)
          → (terminal_backspace t).video j
            ≡ (if j + 1 == at_cursor t then terminal_make_char b' ' 15 else t.video j))
unfolding terminal_backspace
backspace_col t lo hi = (ground arith, ground arith, λ j. ground arith)

-- The defect: at the first column of any line but the top one, a backspace does not take the
-- cursor to the end of the line before. The row stays, and the column wraps to 65535.
pub backspace_line_start :
    (t : Terminal)
    → 0 < t.row
    → t.row < 2 ^ 16
    → t.col ≡ 0
    → ((terminal_backspace t).row ≡ t.row) × ((terminal_backspace t).col ≡ 65535)
unfolding terminal_backspace
backspace_line_start t lo hi start = (ground arith, ground arith)

glyph_room :
    (c colour room : ℕ) (t : Terminal)
    → c ≢ b'\n'
    → c ≢ 0x08
    → OnScreen t (room + 1)
    → OnScreen (terminal_writechar c colour t) room
unfolding terminal_writechar
glyph_room c colour room t p q on = ground (arith, on.column, on.rows)

abbrev pub IsPrintable : Array → (i n : ℕ) → Type 0
IsPrintable str i n = (j : ℕ) → i ≤ j → j < i + n → (str j ≢ b'\n') × (str j ≢ 0x08)

-- What printing bytes `i` to `i + k` does.
abbrev pub Printed : Array → (i k : ℕ) → Terminal → Terminal → Type 0
Printed str i k t u =
    (at_cursor u ≡ at_cursor t + k)
    × ((j : ℕ)
        → u.video j ≡ (
            if leb (at_cursor t) j && ltb j (at_cursor t + k)
            then terminal_make_char (str (j - at_cursor t + i)) 15
            else t.video j))

print_loop-Printed :
    (str : Array) (k i : ℕ) (t : Terminal)
    → IsPrintable str i k
    → OnScreen t k
    → Printed str i k t (print_loop str k i t)
unfolding print_loop
print_loop-Printed str zero i t ok_bytes on = (omega arith, λ j. ground arith)
print_loop-Printed str (suc k) i t ok_bytes on =
    let (no_line, no_back) = ok_bytes i (omega arith) (omega arith) in
    let room : OnScreen t (k + 1) = record { column = on.column; rows = omega (arith, on.rows) } in
    let room_1 : OnScreen t 1 = record { column = on.column; rows = omega (arith, on.rows) } in
    let (moved, _, cell) = writechar_glyph (str i) 15 t no_line no_back room_1 in
    let u = terminal_writechar (str i) 15 t in
    let (at, cells) =
      print_loop-Printed str k (i + 1) u (λ j lo hi. ok_bytes j (omega arith) (omega arith))
        (glyph_room (str i) 15 k t no_line no_back room) in
    (omega (arith, at, moved), λ j. print_cell str k i t u j moved (cell j) (cells j))
  where
    print_cell :
        (str : Array) (k i : ℕ) (t u : Terminal) (j : ℕ)
        → at_cursor u ≡ at_cursor t + 1
        → u.video j ≡ (if j == at_cursor t then terminal_make_char (str i) 15 else t.video j)
        → (print_loop str k (i + 1) u).video j ≡ (
            if leb (at_cursor u) j && ltb j (at_cursor u + k)
            then terminal_make_char (str (j - at_cursor u + (i + 1))) 15
            else u.video j)
        → (print_loop str k (i + 1) u).video j ≡ (
            if leb (at_cursor t) j && ltb j (at_cursor t + suc k)
            then terminal_make_char (str (j - at_cursor t + i)) 15
            else t.video j)
    print_cell str k i t u j moved cell cells = ground arith

-- Printing a string of `n` bytes, none of them '\n' or a backspace, from a column of the screen
-- and a row below 2^16 - n: given more fuel than `n`, the bytes stand in the next `n` cells in
-- colour 15, no other cell changes, and the cursor has moved on by `n` cells.
pub print_lem :
    (str : Array) (n fuel : ℕ) (t : Terminal)
    → IsString str n
    → n < fuel
    → IsPrintable str 0 n
    → OnScreen t n
    → (u : Terminal) × (print fuel str t ≡ some u) × Printed str 0 n t u
unfolding print
print_lem str n fuel t s enough printable on = (
  print_loop str n 0 t,
  rw (strlen_lem str n fuel s enough, print) refl,
  print_loop-Printed str n 0 t printable on,
)
