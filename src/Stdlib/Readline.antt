-- ===== src/Stdlib/Readline.antt =====
-- peachos_terminal_readline of programs/stdlib/src/peachos.c: the line against the keys that
-- were typed, with the line as a stack of characters, the last one on top.
use udemy_kernel.Prelude.{
  ℕ, suc, ◌+◌, ◌-◌, ◌%◌, ◌^◌, ◌≤◌, ◌<◌, ◌≡◌, ◌≢◌, inl, inr, Array, update, some, List, [], ◌∷◌,
  ◌++◌, Bool, refl, arith, true, false, ◌==◌, Bool-cases, sym, leb, ◌&&◌, if◌then◌else◌, length,
}
use udemy_kernel.Stdlib.{terminal_readline, readline_loop}

-- What a key does to the line: no key leaves it, a backspace takes the last character off if there
-- is one, and any other key is put behind it.
abbrev pub press : List ℕ → (val : ℕ) → List ℕ
press [] val = if val == 0 then [] else val % 2 ^ 8 ∷ []
press (c ∷ line) val =
    if val == 0 then c ∷ line else if val % 2 ^ 8 == 8 then line else val % 2 ^ 8 ∷ c ∷ line

abbrev pub typed : List ℕ → (keys : List ℕ) → List ℕ
typed line [] = line
typed line (val ∷ keys) = typed (press line val) keys

-- While the keys are typed the line has fewer than `room` characters before each, and none of them
-- is a carriage return.
abbrev pub Fits : (room : ℕ) → List ℕ → (keys : List ℕ) → Type 0
Fits room line [] = length line < room
Fits room line (val ∷ keys) =
    (length line < room) × (val % 2 ^ 8 ≢ 13) × Fits room (press line val) keys

-- What is put on the screen while the keys are typed, the last first.
abbrev pub echoed : Bool → (keys shown : List ℕ) → List ℕ
echoed echo [] shown = shown
echoed echo (val ∷ keys) shown =
    echoed echo keys (if val == 0 then shown else if echo then val % 2 ^ 8 ∷ shown else shown)

-- The characters of the line in memory.
abbrev pub Holds : Array → (line : List ℕ) → Type 0
Holds out [] = Unit {0}
Holds out (c ∷ line) = (out (length line) ≡ c) × Holds out line

-- Writing behind the line leaves it.
update-Holds :
    (out : Array) (line : List ℕ) (i v : ℕ)
    → length line ≤ i
    → Holds out line
    → Holds (update out i v) line
update-Holds out [] i v behind h = tt
update-Holds out (c ∷ line) i v behind (here, rest) =
    (ground (arith, here), update-Holds out line i v (omega arith) rest)

abbrev is_back : (val : ℕ) → List ℕ → Bool
is_back val line = val % 2 ^ 8 == 8 && leb 1 (length line)

press_none : (line : List ℕ) (val : ℕ) → (val == 0) ≡ true → press line val ≡ line
press_none [] val none_yet = rw none_yet refl
press_none (c ∷ line) val none_yet = rw none_yet refl

press_next :
    (line : List ℕ) (val : ℕ)
    → (val == 0) ≡ false
    → is_back val line ≡ false
    → press line val ≡ val % 2 ^ 8 ∷ line
press_next [] val pressed next = rw pressed refl
press_next (c ∷ line) val pressed next =
    let other : (val % 2 ^ 8 == 8) ≡ false = ground (arith, next) in rw (pressed, other) refl

press_back :
    (line : List ℕ) (val : ℕ)
    → (val == 0) ≡ false
    → is_back val line ≡ true
    → (length line - 1 ≡ length (press line val))
      × ((out : Array) → Holds out line → Holds out (press line val))
press_back [] val pressed back = absurd (ground (arith, back))
press_back (c ∷ line) val pressed back =
    let same : (val % 2 ^ 8 == 8) ≡ true = ground (arith, back) in
    rw (pressed, same) (omega arith, λ out held. held.1)

readline_loop_lem :
    (max : ℕ) (echo : Bool) (keys more line : List ℕ) (out : Array) (shown : List ℕ)
    → Holds out line
    → Fits (max - 1) line keys
    → (r : Array) × (readline_loop max echo (keys ++ 13 ∷ more) (length line) out shown
        ≡ some (r, echoed echo keys shown, more))
      × Holds r (typed line keys)
      × (r (length (typed line keys)) ≡ 0)
unfolding readline_loop
readline_loop_lem max echo [] more line out shown held fits = (
  update out (length line) 0,
  ground arith,
  update-Holds out line (length line) 0 (omega arith) held,
  ground arith,
)
readline_loop_lem max echo (val ∷ keys) more line out shown held (room, other, fits) =
    let inside : leb (max - 1) (length line) ≡ false = ground arith in
    let no_return : (val % 2 ^ 8 == 13) ≡ false = ground arith in
    elim (Bool-cases (val == 0)) [
      | inl none_yet ↦
          let same = press_none line val none_yet in
          rw (inside, none_yet, same)
            (readline_loop_lem max echo keys more line out shown held (rw (sym same) fits))
      | inr pressed ↦ elim (Bool-cases (is_back val line)) [
        | inl back ↦
            let (one_less, still) = press_back line val pressed back in
            let shorter = press line val in
            rw (inside, pressed, no_return, back, one_less)
              (readline_loop_lem max echo keys more shorter (update out (length shorter) 0)
                (if echo then val % 2 ^ 8 ∷ shown else shown)
                (update-Holds out shorter (length shorter) 0 (omega arith) (still out held)) fits)
        | inr next ↦
            let more_line = press_next line val pressed next in
            let up : length line + 1 ≡ suc (length line) = omega arith in
            let longer = val % 2 ^ 8 ∷ line in
            rw (inside, pressed, no_return, next, more_line, up)
              (readline_loop_lem max echo keys more longer (update out (length line) (val % 2 ^ 8))
                (if echo then val % 2 ^ 8 ∷ shown else shown)
                (ground arith, update-Holds out line (length line) _ (omega arith) held)
                (rw (sym more_line) fits))
      ]
    ]

-- Where the line has fewer than `max` - 1 characters before each key and no key but the last is a
-- carriage return, the line that is read holds what the keys leave of it, with a terminator behind;
-- the screen was given the keys in order if it was asked for; and the keys behind the carriage
-- return are not read.
pub readline_lem :
    (out : Array) (max : ℕ) (echo : Bool) (keys more : List ℕ)
    → Fits (max - 1) [] keys
    → (r : Array) × (terminal_readline out max echo (keys ++ 13 ∷ more)
        ≡ some (r, echoed echo keys [], more))
      × Holds r (typed [] keys)
      × (r (length (typed [] keys)) ≡ 0)
unfolding terminal_readline
readline_lem out max echo keys more fits = readline_loop_lem max echo keys more [] out [] tt fits
