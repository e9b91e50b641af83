-- ===== src/Terminal.antt =====
-- src/terminal.c and terminal.h: the text screen. `video` is the 16-bit cell at each index from
-- `video_mem` on; `row` and `col` are 16-bit numbers.
pub mod Cursor
pub mod Hex
use udemy_kernel.Prelude.{
  ℕ, zero, suc, ◌+◌, ◌-◌, ◌*◌, ◌/◌, ◌%◌, ◌^◌, bit_or, ◌&&◌, Option, none, some, Array, update, ltb,
  leb, ◌==◌, if◌then◌else◌,
}
use udemy_kernel.Str.{strlen}

abbrev pub vga_width : ℕ
vga_width = 80

abbrev pub vga_height : ℕ
vga_height = 20

pub record Terminal : Type 0 where
  pub video : Array
  pub row : ℕ
  pub col : ℕ

-- A `char` from 128 on is negative, so its upper bits are ones.
unfoldable pub terminal_make_char : (c colour : ℕ) → ℕ
terminal_make_char c colour = bit_or (colour * 2 ^ 8 % 2 ^ 16) (if ltb c 128 then c else 0xff00 + c)

unfoldable pub terminal_putchar : (x y c colour : ℕ) → Terminal → Terminal
terminal_putchar x y c colour t = record t {
  video = update t.video (y * vga_width + x) (terminal_make_char c colour);
}

unfoldable pub terminal_goto : (x y : ℕ) → Terminal → Terminal
terminal_goto x y t = record t { row = x % 2 ^ 16; col = y % 2 ^ 16 }

-- The end of `terminal_writechar`, for a character that is neither '\n' nor a backspace.
unfoldable pub write_glyph : (c colour : ℕ) → Terminal → Terminal
unfolding terminal_putchar
write_glyph c colour t =
    let put = terminal_putchar t.col t.row c colour t in
    let col = (t.col + 1) % 2 ^ 16 in
    if leb vga_width col
    then record put { col = 0; row = (t.row + 1) % 2 ^ 16 }
    else record put { col = col }

-- `col -= 1` on 16 bits.
abbrev pub before : ℕ → ℕ
before n = (n + 2 ^ 16 - 1) % 2 ^ 16

-- The call of `terminal_writechar` for the blank passes both of its tests.
unfoldable pub terminal_backspace : Terminal → Terminal
unfolding write_glyph
terminal_backspace t =
    if t.row == 0 && t.col == 0
    then t
    else let up = if t.col == 0 then record t { row = before t.row; col = vga_width } else t in
      let blank = write_glyph b' ' 15 (record up { col = before up.col }) in
      record blank { col = before blank.col }

unfoldable pub terminal_writechar : (c colour : ℕ) → Terminal → Terminal
unfolding terminal_backspace write_glyph
terminal_writechar c colour t =
    if c == b'\n'
    then record t { row = (t.row + 1) % 2 ^ 16; col = 0 }
    else if c == 0x08
    then terminal_backspace t
    else write_glyph c colour t

-- The inner loop of `terminal_initialize`, with `k` rounds left, and the outer one.
init_row : (k x y : ℕ) → Terminal → Terminal
init_row zero x y t = t
init_row (suc k) x y t = init_row k (x + 1) y (terminal_putchar x y b' ' 0 t)

init_rows : (k y : ℕ) → Terminal → Terminal
unfolding init_row
init_rows zero y t = t
init_rows (suc k) y t = init_rows k (y + 1) (init_row vga_width 0 y t)

unfoldable pub terminal_initialize : Terminal → Terminal
unfolding init_rows
terminal_initialize t = init_rows vga_height 0 (record t { row = 0; col = 0 })

unfoldable pub hex_code : ℕ → ℕ
hex_code c = let d = (c + 0x30) % 2 ^ 8 in if ltb 0x39 d then (d + 0x07) % 2 ^ 8 else d

-- `(c >> 4) & 0x0F` and `c & 0x0F`.
unfoldable pub terminal_writehex : (c colour : ℕ) → Terminal → Terminal
unfolding hex_code terminal_writechar
terminal_writehex c colour t =
    terminal_writechar (hex_code (c % 16)) colour
      (terminal_writechar (hex_code (c / 16 % 16)) colour t)

unfoldable pub terminal_writedword : (d colour : ℕ) → Terminal → Terminal
unfolding terminal_writehex
terminal_writedword d colour t = terminal_writehex (d % 2 ^ 8) colour (
    terminal_writehex (d / 2 ^ 8 % 2 ^ 8) colour (
      terminal_writehex (d / 2 ^ 16 % 2 ^ 8) colour
        (terminal_writehex (d / 2 ^ 24 % 2 ^ 8) colour t)))

print_loop : (str : Array) → (k i : ℕ) → Terminal → Terminal
print_loop str zero i t = t
print_loop str (suc k) i t = print_loop str k (i + 1) (terminal_writechar (str i) 15 t)

-- `none` when the fuel of `strlen` runs out.
unfoldable pub print : (fuel : ℕ) → Array → Terminal → Option Terminal
unfolding print_loop
print fuel str t = elim (strlen fuel str) [ none ↦ none | some len ↦ some (print_loop str len 0 t) ]
