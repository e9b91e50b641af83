-- ===== src/Terminal/Hex.antt =====
-- Numbers in hexadecimal on the screen of src/terminal.c.
use udemy_kernel.Prelude.{ℕ, ◌+◌, ◌-◌, ◌<◌, ◌≡◌, arith, ltb, if◌then◌else◌}
use udemy_kernel.Terminal.{hex_code}

-- The value of an upper-case hexadecimal digit.
abbrev pub digit_value : ℕ → ℕ
digit_value c = if ltb c b'A' then c - b'0' else c - b'A' + 10

-- The digit of a number below 16 stands for that number.
pub digit_value-hex_code : (n : ℕ) → n < 16 → digit_value (hex_code n) ≡ n
unfolding hex_code
digit_value-hex_code n h = ground arith
