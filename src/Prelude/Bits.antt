-- ===== src/Prelude/Bits.antt =====
-- `|` of disjoint bit fields and `&` with a mask, as arithmetic. A field is shifted one place at
-- a time, so that `omega` reads a shift by a numeral.
use Prim.Native.Nat.{
  ℕ, zero, suc, ◌+◌, ◌*◌, ◌/◌, ◌%◌, ◌^◌, ◌≤◌, ◌<◌, min, max, bit_and, bit_or, digits, bitwise,
  bit_and-bitwise, bit_or-bitwise,
}
use mathlib.Core.Path.{◌≡◌, refl}
use native.Mathlib.Omega.{arith}

abbrev pub shl : ℕ → ℕ → ℕ
shl zero n = n
shl (suc k) n = shl k n * 2

abbrev pub shr : ℕ → ℕ → ℕ
shr zero n = n
shr (suc k) n = shr k (n / 2)

abbrev pub ones : ℕ → ℕ
ones zero = 0
ones (suc k) = ones k * 2 + 1

-- The digit recursion does not depend on its fuel, once there is enough.
module _ (rest : ℕ → ℕ) (op : ℕ → ℕ → ℕ) where
  same_digits :
      (x y few many : ℕ) → x ≤ few → x ≤ many → digits rest op few x y ≡ digits rest op many x y
  same_digits zero y zero zero p q = refl
  same_digits zero y zero (suc m) p q = refl
  same_digits zero y (suc n) zero p q = refl
  same_digits zero y (suc n) (suc m) p q = refl
  same_digits (suc x) y zero many p q = absurd (omega arith)
  same_digits (suc x) y (suc n) zero p q = absurd (omega arith)
  same_digits (suc x) y (suc n) (suc m) p q =
      rw (same_digits (suc x / 2) (y / 2) n m (omega arith) (omega arith))

  lowest_digit :
      (x y : ℕ)
      → bitwise rest op (suc x) y ≡ bitwise rest op (suc x / 2) (y / 2) * 2 + op (suc x % 2) (y % 2)
  lowest_digit x y = rw (same_digits (suc x / 2) (y / 2) x (suc x / 2) (omega arith) (omega arith))

or_low : (x y : ℕ) → bit_or x y ≡ bit_or (x / 2) (y / 2) * 2 + max (x % 2) (y % 2)
or_low zero y = simp bit_or-bitwise (omega arith)
or_low (suc x) y = simp bit_or-bitwise (lowest_digit (λ t. t) max x y)

and_low : (x y : ℕ) → bit_and x y ≡ bit_and (x / 2) (y / 2) * 2 + min (x % 2) (y % 2)
and_low zero y = simp bit_and-bitwise (omega arith)
and_low (suc x) y = simp bit_and-bitwise (lowest_digit (λ t. 0) min x y)

or_zero_below : (n x : ℕ) → x ≤ n → bit_or x 0 ≡ x
or_zero_below n zero h = refl
or_zero_below zero (suc x) h = absurd (omega arith)
or_zero_below (suc n) (suc x) h =
    omega (arith, or_low (suc x) 0, or_zero_below n (suc x / 2) (omega arith))

pub zero_or : (y : ℕ) → bit_or 0 y ≡ y
zero_or y = simp bit_or-bitwise (omega arith)

and_zero_below : (n x : ℕ) → x ≤ n → bit_and x 0 ≡ 0
and_zero_below n zero h = refl
and_zero_below zero (suc x) h = absurd (omega arith)
and_zero_below (suc n) (suc x) h =
    omega (arith, and_low (suc x) 0, and_zero_below n (suc x / 2) (omega arith))

pub bit_and-zero : (x : ℕ) → bit_and x 0 ≡ 0
bit_and-zero x = and_zero_below x x (omega arith)

-- `(q << k) | r` is a sum when `r` fits `k` bits.
pub bit_or-shl : (k q r : ℕ) → r < shl k 1 → bit_or (shl k q) r ≡ shl k q + r
bit_or-shl zero q r h =
    let none_left : r ≡ 0 = omega arith in
    rw none_left (omega (arith, or_zero_below q q (omega arith)))
bit_or-shl (suc k) q r h =
    let halved : shl k q * 2 / 2 ≡ shl k q = omega arith in
    rw (or_low (shl k q * 2) r, halved, bit_or-shl k q (r / 2) (omega arith)) (omega arith)

or_comm_below : (n x y : ℕ) → x ≤ n → bit_or x y ≡ bit_or y x
or_comm_below n zero y h = omega (arith, or_zero_below y y (omega arith), zero_or y)
or_comm_below zero (suc x) y h = absurd (omega arith)
or_comm_below (suc n) (suc x) y h =
    omega
      (arith, or_low (suc x) y, or_low y (suc x), or_comm_below n (suc x / 2) (y / 2) (omega arith))

pub bit_or_comm : (x y : ℕ) → bit_or x y ≡ bit_or y x
bit_or_comm x y = or_comm_below x x y (omega arith)

-- `x & (m << k)` drops the `k` low bits.
pub bit_and-shl : (k x m : ℕ) → bit_and x (shl k m) ≡ shl k (bit_and (shr k x) m)
bit_and-shl zero x m = refl
bit_and-shl (suc k) x m =
    let halved : shl k m * 2 / 2 ≡ shl k m = omega arith in
    rw (and_low x (shl k m * 2), halved, bit_and-shl k (x / 2) m) (omega arith)

-- `x & (2 ^ k - 1)` is what the shift down and up again loses.
pub bit_and-ones : (k x : ℕ) → bit_and x (ones k) + shl k (shr k x) ≡ x
bit_and-ones zero x = omega (arith, bit_and-zero x)
bit_and-ones (suc k) x =
    let halved : (ones k * 2 + 1) / 2 ≡ ones k = omega arith in
    rw (and_low x (ones k * 2 + 1), halved) (omega (arith, bit_and-ones k (x / 2)))

-- `x & 0xFFFFF000` on 32 bits.
pub bit_and_page : (x : ℕ) → x < 2 ^ 32 → bit_and x 0xFFFFF000 ≡ x / 4096 * 4096
bit_and_page x h = omega (arith, bit_and-shl 12 x (ones 20), bit_and-ones 20 (shr 12 x))

-- An aligned address with flags.
pub bit_or_page : (q f : ℕ) → f < 4096 → bit_or (q * 4096) f ≡ q * 4096 + f
bit_or_page q f h =
    let shifted : shl 12 q ≡ q * 4096 = omega arith in
    rw (← shifted) (bit_or-shl 12 q f (omega arith))

-- Bit 1 is set, and the others stay.
pub bit_or_two : (y : ℕ) → bit_or y 2 ≡ y / 4 * 4 + 2 + y % 2
bit_or_two y =
    let upper : bit_or (y / 2 / 2) 0 ≡ y / 2 / 2 =
      or_zero_below (y / 2 / 2) (y / 2 / 2) (omega arith) in
    omega (arith, or_low y 2, or_low (y / 2) 1, upper)
