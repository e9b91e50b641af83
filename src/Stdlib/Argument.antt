-- ===== src/Stdlib/Argument.antt =====
-- The blocks of the arguments of programs/stdlib/src/peachos.c: strings in memory, and what writes
-- leave of them.
use udemy_kernel.Prelude.{
  ℕ, zero, suc, ◌+◌, ◌≤◌, ◌<◌, ◌≡◌, ◌≢◌, ◌⊎◌, inl, inr, Array, List, [], ◌∷◌, sym, arith, length,
  ◌∙◌, ap,
}
use udemy_kernel.Str.{strncpy}
use udemy_kernel.Str.Copy.{strncpy_lem}
use udemy_kernel.Task.{place}
use udemy_kernel.Stdlib.{fill_argument, follow}
use udemy_kernel.Stdlib.Tokens.{HasString}

right_zero : (a : ℕ) → a + 0 ≡ a
right_zero a = omega arith

left_zero : (a : ℕ) → 0 + a ≡ a
left_zero a = omega arith

next_place : (a j : ℕ) → a + 1 + j ≡ a + suc j
next_place a j = omega arith

string_char :
    (mem : Array) (a c : ℕ) (cs : List ℕ)
    → mem a ≡ c
    → c ≢ 0
    → ((j : ℕ) → j < length cs → mem (a + 1 + j) ≢ 0)
    → (j : ℕ) → j < suc (length cs)
    → mem (a + j) ≢ 0
string_char mem a c cs here filled later zero lt =
    λ e. filled (sym here ∙ sym (ap mem (right_zero a)) ∙ e)
string_char mem a c cs here filled later (suc j) lt =
    λ e. later j (omega arith) (ap mem (next_place a j) ∙ e)

-- The characters of a string are not 0, and the byte behind them is.
string_chars :
    (mem : Array) (a : ℕ) (cs : List ℕ)
    → HasString mem a cs
    → ((j : ℕ) → j < length cs → mem (a + j) ≢ 0) × (mem (a + length cs) ≡ 0)
string_chars mem a [] h = (λ j lt. absurd (omega arith), ap mem (right_zero a) ∙ h)
string_chars mem a (c ∷ cs) (here, filled, rest) =
    let (later, ended) = string_chars mem (a + 1) cs rest in
    (
      λ j lt. string_char mem a c cs here filled later j lt,
      ap mem (sym (next_place a (length cs))) ∙ ended,
    )

-- A place with the same bytes has the same string.
pub copied-HasString :
    (mem t : Array) (a b : ℕ) (cs : List ℕ)
    → HasString mem a cs
    → ((j : ℕ) → j ≤ length cs → t (b + j) ≡ mem (a + j))
    → HasString t b cs
copied-HasString mem t a b [] h same =
    sym (ap t (right_zero b)) ∙ same 0 (omega arith) ∙ ap mem (right_zero a) ∙ h
copied-HasString mem t a b (c ∷ cs) (here, filled, rest) same = (
  sym (ap t (right_zero b)) ∙ same 0 (omega arith) ∙ ap mem (right_zero a) ∙ here,
  filled,
  copied-HasString mem t (a + 1) (b + 1) cs rest
      (λ j le. ap t (next_place b j) ∙ same (suc j) (omega arith) ∙ sym (ap mem (next_place a j))),
)

-- strncpy of a string that is shorter than its count copies it.
pub strncpy-HasString :
    (dest src : Array) (count : ℕ) (cs : List ℕ)
    → HasString src 0 cs
    → length cs < count
    → HasString (strncpy dest src count) 0 cs
strncpy-HasString dest src count cs h short =
    let (filled, ended) = string_chars src 0 cs h in
    copied-HasString src (strncpy dest src count) 0 0 cs h λ j le.
      let copied =
        strncpy_lem dest src count (length cs) j short
          (λ m lt e. filled m lt (ap src (left_zero m) ∙ e))
          (inr (sym (ap src (left_zero (length cs))) ∙ ended)) in
      rw (left_zero j) (ground (arith, copied, ended))

pub placed :
    (mem text : Array) (start j : ℕ)
    → j < 1025
    → place mem start 1025 text (start + j) ≡ text (0 + j)
placed mem text start j lt = ground arith

-- Blocks of 516 bytes that are apart from the memory from `lo` to `hi`, and from each other.
abbrev pub Clear : (lo hi : ℕ) → List ℕ → Type 0
Clear lo hi [] = Unit {0}
Clear lo hi (b ∷ bs) = ((hi ≤ b) ⊎ (b + 516 ≤ lo)) × Clear lo hi bs

abbrev pub Disjoint : List ℕ → Type 0
Disjoint [] = Unit {0}
Disjoint (b ∷ bs) = Clear b (b + 516) bs × Disjoint bs

-- A byte that is in none of the blocks.
abbrev pub Outside : (j : ℕ) → List ℕ → Type 0
Outside j [] = Unit {0}
Outside j (b ∷ bs) = ((j < b) ⊎ (b + 516 ≤ j)) × Outside j bs

pub Clear-Outside : (lo hi j : ℕ) (bs : List ℕ) → lo ≤ j → j < hi → Clear lo hi bs → Outside j bs
Clear-Outside lo hi j [] from to clear = tt
Clear-Outside lo hi j (b ∷ bs) from to (apart, clear) = (
  elim apart [
    | inl above ↦ inl (omega (arith, above, to))
    | inr below ↦ inr (omega (arith, below, from))
  ],
  Clear-Outside lo hi j bs from to clear,
)

-- The bytes of a new argument, and those outside it.
pub fill_frame :
    (mem : Array) (b token j : ℕ) → (j < b) ⊎ (b + 516 ≤ j) → fill_argument mem b token j ≡ mem j
unfolding fill_argument
fill_frame mem b token j out = ground (arith, out)

fill_text :
    (mem : Array) (b token j : ℕ)
    → j < 512
    → fill_argument mem b token (b + j)
      ≡ strncpy
          (λ i. place mem b 516 (λ _. 0) (b + i))
          (λ i. place mem b 516 (λ _. 0) (token + i))
          512
          (0 + j)
unfolding fill_argument
fill_text mem b token j lt = ground (arith, lt)

pub follow_frame :
    (mem : Array) (current b j : ℕ)
    → (current ≡ 0) ⊎ ((j < current + 512) ⊎ (current + 516 ≤ j))
    → follow mem current b j ≡ mem j
unfolding follow
follow_frame mem current b j out = ground (arith, out)

-- A string whose bytes are kept.
pub kept-HasString :
    (mem t : Array) (a : ℕ) (cs : List ℕ)
    → HasString mem a cs
    → ((j : ℕ) → a ≤ j → j ≤ a + length cs → t j ≡ mem j)
    → HasString t a cs
kept-HasString mem t a cs h same =
    copied-HasString mem t a a cs h (λ j le. same (a + j) (omega arith) (omega (arith, le)))

-- A token is a string from its own start on.
at_token :
    (mem : Array) (token : ℕ) (w : List ℕ)
    → HasString mem token w
    → HasString (λ j. mem (token + j)) 0 w
at_token mem token w h =
    copied-HasString mem (λ j. mem (token + j)) token 0 w h
      λ j le. ap mem (ap (λ i. token + i) (left_zero j))

-- A token off its block is the string of the new argument.
pub argument-HasString :
    (mem : Array) (b token : ℕ) (w : List ℕ)
    → HasString mem token w
    → length w < 512
    → (token + length w < b) ⊎ (b + 516 ≤ token)
    → HasString (fill_argument mem b token) b w
argument-HasString mem b token w h short off =
    let zeroed = place mem b 516 (λ _. 0) in
    let same : HasString zeroed token w =
      kept-HasString mem zeroed token w h (λ j lo hi. ground (arith, off, lo, hi)) in
    let text = strncpy (λ i. zeroed (b + i)) (λ i. zeroed (token + i)) 512 in
    let copied : HasString text 0 w =
      strncpy-HasString _ (λ j. zeroed (token + j)) 512 w (at_token zeroed token w same) short in
    copied-HasString text (fill_argument mem b token) 0 b w copied
      (λ j le. fill_text mem b token j (omega (arith, le, short)))
