-- ===== src/Keyboard/Classic.antt =====
-- src/keyboard/classic.c: the PS/2 keyboard, from the scancode of an interrupt to the character
-- that is pushed. The scancode that the port gives is an argument; `beyond` is the byte that
-- follows the table of scancodes in memory.
use udemy_kernel.Str.{tolower}
use udemy_kernel.Prelude.{
  ◌<◌, ◌≡◌, ◌≢◌, refl, true, false, arith, get_or_within, ℕ, ◌+◌, bit_and, Bool, not, ◌&&◌, List,
  [], ◌∷◌, Option, length, get_or, leb, ltb, ◌==◌, if◌then◌else◌,
}
use udemy_kernel.Keyboard.{KeyboardBuffer, keyboard_push}

abbrev pub keyboard_scan_set_one : List ℕ
keyboard_scan_set_one =
    0x00 ∷ 0x1B ∷ b'1' ∷ b'2' ∷ b'3' ∷ b'4' ∷ b'5' ∷ b'6' ∷ b'7' ∷ b'8' ∷ b'9' ∷ b'0' ∷ b'-' ∷ b'='
    ∷ 0x08 ∷ b'\t' ∷ b'Q' ∷ b'W' ∷ b'E' ∷ b'R' ∷ b'T' ∷ b'Y' ∷ b'U' ∷ b'I' ∷ b'O' ∷ b'P' ∷ b'['
    ∷ b']' ∷ 0x0d ∷ 0x00 ∷ b'A' ∷ b'S' ∷ b'D' ∷ b'F' ∷ b'G' ∷ b'H' ∷ b'J' ∷ b'K' ∷ b'L' ∷ b';'
    ∷ 0x27 ∷ b'`' ∷ 0x00 ∷ 0x5c ∷ b'Z' ∷ b'X' ∷ b'C' ∷ b'V' ∷ b'B' ∷ b'N' ∷ b'M' ∷ b',' ∷ b'.'
    ∷ b'/' ∷ 0x00 ∷ b'*' ∷ 0x00 ∷ 0x20 ∷ 0x00 ∷ 0x00 ∷ 0x00 ∷ 0x00 ∷ 0x00 ∷ 0x00 ∷ 0x00 ∷ 0x00
    ∷ 0x00 ∷ 0x00 ∷ 0x00 ∷ b'7' ∷ b'8' ∷ b'9' ∷ b'-' ∷ b'4' ∷ b'5' ∷ b'6' ∷ b'+' ∷ b'1' ∷ b'2'
    ∷ b'3' ∷ b'0' ∷ b'.' ∷ []

abbrev pub capslock_key : ℕ
capslock_key = 0x3A

-- `capslock` is the state of `classic_keyboard`, true for KEYBOARD_CAPS_LOCK_ON; `typed` is the
-- buffer of the current process.
pub record Driver : Type 0 where
  pub capslock : Bool
  pub typed : Option KeyboardBuffer

unfoldable pub scancode_to_char : (beyond : ℕ) → Bool → ℕ → ℕ
scancode_to_char beyond capslock scancode =
    if ltb (length keyboard_scan_set_one) scancode
    then 0
    else let c = get_or keyboard_scan_set_one scancode beyond in
      if not capslock && (leb b'A' c && leb c b'Z') then c + 32 else c

unfoldable pub handle_interrupt : (beyond : ℕ) → ℕ → Driver → Driver
unfolding scancode_to_char
handle_interrupt beyond scancode d =
    if not (bit_and scancode 0x80 == 0)
    then d
    else let d' = if scancode == capslock_key then record d { capslock = not d.capslock } else d in
      let c = scancode_to_char beyond d'.capslock scancode in
      if not (c == 0) then record d' { typed = keyboard_push c d'.typed } else d'

-- A scancode inside the table gives a character that does not depend on the memory behind the
-- table, and one greater than the size of the table gives none.
pub scancode_to_char_bounds :
    (beyond other scancode : ℕ) (caps : Bool)
    → (scancode < length keyboard_scan_set_one
        → scancode_to_char beyond caps scancode ≡ scancode_to_char other caps scancode)
      × (length keyboard_scan_set_one < scancode → scancode_to_char beyond caps scancode ≡ 0)
unfolding scancode_to_char
scancode_to_char_bounds beyond other scancode caps = (
  λ lt. rw (get_or_within keyboard_scan_set_one scancode beyond other lt) refl,
  λ gt. ground arith,
)

-- The defect: the scancode that is the size of the table passes the test, and the character is the
-- byte behind the table.
pub scancode_at_end :
    (beyond : ℕ) → scancode_to_char beyond true (length keyboard_scan_set_one) ≡ beyond
unfolding scancode_to_char
scancode_at_end beyond = refl

-- With capslock off every key gives the lower case of what it gives with capslock on.
pub scancode_case :
    (beyond scancode : ℕ)
    → scancode_to_char beyond false scancode ≡ tolower (scancode_to_char beyond true scancode)
unfolding scancode_to_char tolower
scancode_case beyond scancode = ground arith

-- Pressing the capslock key switches the state and types nothing; the release of any key changes
-- nothing.
pub capslock_toggles :
    (beyond : ℕ) (d : Driver)
    → (handle_interrupt beyond capslock_key d ≡ record d { capslock = not d.capslock })
      × ((scancode : ℕ) → bit_and scancode 0x80 ≢ 0 → handle_interrupt beyond scancode d ≡ d)
unfolding handle_interrupt
capslock_toggles beyond d = (ground arith, λ scancode released. ground arith)
