-- ===== src/Stdlib/Itoa.antt =====
-- itoa of programs/stdlib/src/stdlib.c: its text is the decimal form of the number.
use udemy_kernel.Prelude.{
  ℕ, zero, suc, ◌+◌, ◌-◌, ◌*◌, ◌/◌, ◌%◌, ◌^◌, ◌≤◌, ◌<◌, ◌≡◌, ◌≢◌, inl, inr, ℤ, pos, negsuc, Array,
  update, some, refl, sym, ap, ◌∙◌, ◌↔◌, arith, false, ◌==◌, Bool-cases,
}
use udemy_kernel.Stdlib.{itoa, itoa_loop, magnitude}

-- The number that the first `n` characters from `p` on stand for as decimal digits.
unfoldable pub decimal : (text : Array) → (p n : ℕ) → ℕ
decimal text p zero = 0
decimal text p (suc n) = decimal text p n * 10 + (text (p + n) - b'0')

-- `text` has the digits of `m` from `p` to `q`, without a 0 in front.
pub record IsDigits (text : Array) (p q m : ℕ) : Type 0 where
  pub order : p ≤ q
  pub value : decimal text p (q - p) ≡ m
  pub digits : (j : ℕ) → p ≤ j → j < q → (b'0' ≤ text j) × (text j ≤ b'9')
  pub canonical : m ≢ 0 → text p ≢ b'0'

-- One more digit.
decimal_more :
    (t : Array) (p q m d : ℕ)
    → p ≤ q
    → decimal t p (q - p) ≡ m
    → t q ≡ b'0' + d
    → decimal t p (suc q - p) ≡ m * 10 + d
unfolding decimal
decimal_more t p q m d le value digit =
    let shape : suc q - p ≡ suc (q - p) = omega arith in
    let at : p + (q - p) ≡ q = omega arith in rw (shape, at, value, digit) (omega arith)

nothing_left : (p : ℕ) → p - p ≡ 0
nothing_left p = omega arith

-- No digits are those of 0.
nil-IsDigits : (t : Array) (p : ℕ) → IsDigits t p p 0
unfolding decimal
nil-IsDigits t p = record {
  order = omega arith;
  value = rw (nothing_left p) refl;
  digits = λ j lo hi. absurd (omega arith);
  canonical = λ other. absurd (other refl);
}

-- The last digit of a number behind the digits of its tenth.
add_digit :
    (r : Array) (p loc i : ℕ)
    → 0 < loc
    → i ≢ 0
    → IsDigits r p (loc - 1) (i / 10)
    → r (loc - 1) ≡ b'0' + i % 10
    → ((p ≡ loc - 1) ↔ (i / 10 ≡ 0))
    → IsDigits r p loc i
add_digit r p loc i some_room nonzero d digit first =
    let shape : suc (loc - 1) ≡ loc = omega arith in
    let value = decimal_more r p (loc - 1) (i / 10) (i % 10) d.order d.value digit in
    record {
      order = omega (arith, d.order);
      value = ap (λ q. decimal r p (q - p)) (sym shape) ∙ value ∙ omega arith;
      digits = λ j lo hi. elim (Bool-cases (j == loc - 1)) [
        | inl same ↦ ground (arith, digit)
        | inr other ↦ d.digits j lo (ground arith)
      ];
      canonical = λ _. elim (Bool-cases (p == loc - 1)) [
        | inl same ↦ ground (arith, digit, first)
        | inr other ↦ d.canonical (ground (arith, first))
      ];
    }

tenth : (i k : ℕ) → i < 10 ^ suc k → i / 10 < 10 ^ k
tenth i k h = omega (arith, h)

-- The loop writes the digits of a number that `k` of them are enough for, in front of `loc`, and
-- nothing else.
itoa_loop_lem :
    (k fuel i : ℕ) (text : Array) (loc : ℕ)
    → i < 10 ^ k
    → k ≤ loc
    → k < fuel
    → (r : Array) × (p : ℕ) × (itoa_loop fuel i text loc ≡ some (r, p))
      × IsDigits r p loc i
      × (loc ≤ p + k)
      × ((j : ℕ) → loc ≤ j → r j ≡ text j)
      × ((p ≡ loc) ↔ (i ≡ 0))
unfolding itoa_loop
itoa_loop_lem k zero i text loc small room enough = absurd (omega arith)
itoa_loop_lem zero (suc fuel) i text loc small room enough =
    let nothing : i ≡ 0 = omega (arith, small) in
    rw nothing
      (text, loc, refl, nil-IsDigits text loc, omega arith, λ j lo. refl, (λ _. refl, λ _. refl))
itoa_loop_lem (suc k) (suc fuel) i text loc small room enough = elim (Bool-cases (i == 0)) [
  | inl done ↦
      let nothing : i ≡ 0 = ground arith in
      rw nothing
        (text, loc, refl, nil-IsDigits text loc, omega arith, λ j lo. refl, (λ _. refl, λ _. refl))
  | inr more ↦
      let text1 = update text (loc - 1) (b'0' + i % 10) in
      let (r, p, ran, d, near, kept, none_left) =
        itoa_loop_lem k fuel (i / 10) text1 (loc - 1) (tenth i k small) (omega arith)
          (omega arith) in
      let last_digit : r (loc - 1) ≡ b'0' + i % 10 = ground (arith, kept (loc - 1)) in
      (
        r,
        p,
        rw (more, ran) refl,
        add_digit r p loc i (omega arith) (ground arith) d last_digit none_left,
        ground (arith, d.order),
        λ j lo. ground (arith, kept j),
        ground (arith, d.order),
      )
]

-- The characters in front of `p` do not count.
decimal_front : (t : Array) (p n i v : ℕ) → i < p → decimal (update t i v) p n ≡ decimal t p n
unfolding decimal
decimal_front t p zero i v front = refl
decimal_front t p (suc n) i v front =
    let other : (p + n == i) ≡ false = ground arith in
    rw (decimal_front t p n i v front, other) refl

update-IsDigits :
    (t : Array) (p q m i v : ℕ) → i < p → IsDigits t p q m → IsDigits (update t i v) p q m
update-IsDigits t p q m i v front d = record {
  order = d.order;
  value = decimal_front t p (q - p) i v front ∙ d.value;
  digits = λ j lo hi. ground (arith, d.digits j lo hi);
  canonical = λ other. ground (arith, d.canonical other);
}

digit_0 : (t : Array) → IsDigits (update t 10 b'0') 10 11 0
unfolding decimal
digit_0 t = record {
  order = omega arith;
  value = refl;
  digits = λ j lo hi. ground arith;
  canonical = λ other. absurd (other refl);
}

-- `text` from `at` on is a string that is the number in decimal, with its sign where it is
-- negative.
abbrev pub Prints : (text : Array) → (at : ℕ) → ℤ → Type 0
Prints text at (pos n) = (at < 11) × IsDigits text at 11 n × (text 11 ≡ 0)
Prints text at (negsuc n) =
    (suc at < 11) × (text at ≡ b'-') × IsDigits text (suc at) 11 (n + 1) × (text 11 ≡ 0)

-- The text of 0 has one digit.
itoa_loop-IsDigits :
    (fuel m : ℕ) (text : Array)
    → m ≤ 2 ^ 31
    → 10 < fuel
    → (r : Array) × (p : ℕ) × (itoa_loop fuel m (update text 11 0) 11 ≡ some (r, p))
      × IsDigits r p 11 m
      × (1 ≤ p)
      × (r 11 ≡ 0)
      × ((p ≡ 11) ↔ (m ≡ 0))
itoa_loop-IsDigits fuel m text small enough =
    let (r, p, ran, d, near, kept, none_left) =
      itoa_loop_lem 10 fuel m (update text 11 0) 11 (omega arith) (omega arith) enough in
    (r, p, ran, d, omega (arith, near), kept 11 (omega arith), none_left)

-- With fuel for ten digits, itoa of an int that is not negative and below 2^31, or negative and at
-- least -2^31, gives a string in its buffer of 12 bytes that is the number in decimal: its digits
-- stand for it, the first is 0 for 0 only, and a minus is in front of them where it is negative.
pub itoa_lem :
    (fuel : ℕ) (text : Array) (i : ℤ)
    → (magnitude i).0 ≤ 2 ^ 31
    → 10 < fuel
    → (r : Array) × (at : ℕ) × (itoa fuel text i ≡ some (r, at)) × Prints r at i
unfolding itoa magnitude
itoa_lem fuel text (pos n) small enough =
    let (r, p, ran, d, near, ended, none_left) = itoa_loop-IsDigits fuel n text small enough in
    elim (Bool-cases (p == 11)) [
      | inl none_written ↦
          let nothing : n ≡ 0 = ground (arith, none_left) in
          let ten : p - 1 ≡ 10 = ground arith in
          (
            update r 10 b'0',
            10,
            rw (itoa, ran, none_written, ten) refl,
            (omega arith, rw nothing (digit_0 r), ground (arith, ended)),
          )
      | inr written ↦ (r, p, rw (itoa, ran, written) refl, (ground (arith, d.order), d, ended))
    ]
itoa_lem fuel text (negsuc n) small enough =
    let (r, p, ran, d, near, ended, none_left) =
      itoa_loop-IsDigits fuel (n + 1) text small enough in
    let written : (p == 11) ≡ false = ground (arith, none_left) in
    let shape : suc (p - 1) ≡ p = omega (arith, near) in
    (
      update r (p - 1) b'-',
      p - 1,
      rw (itoa, ran, written) refl,
      (
        ground (arith, d.order),
        ground arith,
        rw shape (update-IsDigits r p 11 (n + 1) (p - 1) b'-' (omega (arith, near)) d),
        ground (arith, ended, d.order),
      ),
    )
