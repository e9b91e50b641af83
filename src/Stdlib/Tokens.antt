-- ===== src/Stdlib/Tokens.antt =====
-- strtok of programs/stdlib/src/string.c on a string of words: each call gives the next one.
use udemy_kernel.Prelude.{
  ℕ, zero, suc, ◌+◌, ◌≤◌, ◌<◌, ◌≡◌, ◌≢◌, inl, inr, Array, update, some, List, [], ◌∷◌, Bool, refl,
  sym, arith, ◌⊎◌, true, false, not, ◌==◌, Bool-cases, if◌then◌else◌, length, ◌∙◌,
}
use udemy_kernel.Stdlib.{strtok, skip_delimiters, end_token, is_delimiter}

-- The words of a command, by the spaces between them.
abbrev pub starts_word : List ℕ → Bool
starts_word [] = false
starts_word (c ∷ _) = not (c == b' ')

-- A character in front of the rest, whose first word goes on from it where `joined`.
abbrev pub in_front : ℕ → (joined : Bool) → List (List ℕ) → List (List ℕ)
in_front c true (w ∷ ws) = (c ∷ w) ∷ ws
in_front c true [] = (c ∷ []) ∷ []
in_front c false ws = (c ∷ []) ∷ ws

abbrev pub words : List ℕ → List (List ℕ)
words [] = []
words (c ∷ cs) = if c == b' ' then words cs else in_front c (starts_word cs) (words cs)

-- The string at `a` has these characters.
abbrev pub HasString : Array → (a : ℕ) → List ℕ → Type 0
HasString mem a [] = mem a ≡ 0
HasString mem a (c ∷ cs) = (mem a ≡ c) × (c ≢ 0) × HasString mem (a + 1) cs

-- Writing in front of a string leaves it.
update-HasString :
    (mem : Array) (a i v : ℕ) (cs : List ℕ)
    → i < a
    → HasString mem a cs
    → HasString (update mem i v) a cs
update-HasString mem a i v [] front h = ground (arith, h)
update-HasString mem a i v (c ∷ cs) front (here, filled, rest) =
    (ground (arith, here), filled, update-HasString mem (a + 1) i v cs (omega arith) rest)

abbrev pub spaces : List ℕ
spaces = b' ' ∷ []

-- The string without the spaces in front: no fewer words, and it is empty or starts with one.
skip_lem :
    (fuel : ℕ) (mem : Array) (a : ℕ) (cs : List ℕ)
    → HasString mem a cs
    → length cs < fuel
    → (at : ℕ) × (ds : List ℕ) × (skip_delimiters spaces fuel mem a ≡ some at)
      × HasString mem at ds
      × (words ds ≡ words cs)
      × (length ds ≤ length cs)
      × (starts_word ds ≡ not (mem at == 0))
      × (a ≤ at)
      × (at + length ds ≤ a + length cs)
unfolding skip_delimiters is_delimiter
skip_lem zero mem a cs h enough = absurd (omega arith)
skip_lem (suc fuel) mem a [] h enough =
    (a, [], rw h refl, h, refl, omega arith, rw h refl, omega arith, omega arith)
skip_lem (suc fuel) mem a (c ∷ cs) (here, filled, rest) enough = elim (Bool-cases (c == b' ')) [
  | inl space ↦
      let (at, ds, ran, h, same, fewer, first, behind, within) =
        skip_lem fuel mem (a + 1) cs rest (omega arith) in
      (
        at,
        ds,
        rw (here, space, ran) refl,
        h,
        rw space same,
        omega (arith, fewer),
        first,
        omega (arith, behind),
        omega (arith, within),
      )
  | inr letter ↦
      let nonzero : (c == 0) ≡ false = ground (arith, filled) in
      (
        a,
        c ∷ cs,
        rw (here, letter) refl,
        (here, filled, rest),
        refl,
        omega arith,
        rw (here, letter, nonzero) refl,
        omega arith,
        omega arith,
      )
]

-- A word in front of the words that follow.
abbrev attach : List ℕ → List (List ℕ) → List (List ℕ)
attach [] ws = ws
attach (c ∷ w) ws = (c ∷ w) ∷ ws

abbrev has_any : List ℕ → Bool
has_any [] = false
has_any (c ∷ w) = true

in_front-attach :
    (c : ℕ) (w : List ℕ) (ws : List (List ℕ)) → in_front c (has_any w) (attach w ws) ≡ (c ∷ w) ∷ ws
in_front-attach c [] ws = refl
in_front-attach c (d ∷ w) ws = refl

attach_any :
    (w : List ℕ) (ws : List (List ℕ)) → has_any w ≡ true → (attach w ws ≡ w ∷ ws) × (0 < length w)
attach_any [] ws any = absurd (ground (arith, any))
attach_any (c ∷ w) ws any = (refl, omega arith)

no_words : (mem : Array) (at : ℕ) (ds : List ℕ) → HasString mem at ds → mem at ≡ 0 → words ds ≡ []
no_words mem at [] h ended = refl
no_words mem at (c ∷ ds) (here, filled, rest) ended = absurd (filled (sym here ∙ ended))

-- The end of a token: its characters are a string now, and the rest of the command is one.
end_lem :
    (fuel : ℕ) (mem : Array) (a : ℕ) (cs : List ℕ)
    → HasString mem a cs
    → length cs < fuel
    → (w ds : List ℕ) × (mem' : Array) × (sp : ℕ) × (end_token spaces fuel mem a ≡ some (mem', sp))
      × HasString mem' a w
      × HasString mem' sp ds
      × (words cs ≡ attach w (words ds))
      × (starts_word cs ≡ has_any w)
      × (length w + length ds ≤ length cs)
      × ((j : ℕ) → j < a → mem' j ≡ mem j)
      × (a ≤ sp)
      × ((j : ℕ) → a + length cs ≤ j → mem' j ≡ mem j)
      × (sp + length ds ≤ a + length cs)
      × (a + length w ≤ a + length cs)
unfolding end_token is_delimiter
end_lem zero mem a cs h enough = absurd (omega arith)
end_lem (suc fuel) mem a [] h enough = (
  [],
  [],
  mem,
  a,
  rw h refl,
  h,
  h,
  refl,
  refl,
  omega arith,
  λ j lt. refl,
  omega arith,
  λ j le. refl,
  omega arith,
  omega arith,
)
end_lem (suc fuel) mem a (c ∷ cs) (here, filled, rest) enough =
    let nonzero : (c == 0) ≡ false = ground (arith, filled) in
    elim (Bool-cases (c == b' ')) [
      | inl space ↦ (
        [],
        cs,
        update mem a 0,
        a + 1,
        rw (here, nonzero, space) refl,
        ground arith,
        update-HasString mem (a + 1) a 0 cs (omega arith) rest,
        rw space refl,
        rw space refl,
        omega arith,
        λ j lt. ground arith,
        omega arith,
        λ j le. ground arith,
        omega arith,
        omega arith,
      )
      | inr letter ↦
          let (
            w, ds, mem', sp, ran, token, left, split, first, shorter, front, behind, back, within,
            short,
          ) =
            end_lem fuel mem (a + 1) cs rest (omega arith) in
          (
            c ∷ w,
            ds,
            mem',
            sp,
            rw (here, nonzero, letter, ran) refl,
            (front a (omega arith) ∙ here, filled, token),
            left,
            rw (letter, split, first) (in_front-attach c w (words ds)),
            rw letter refl,
            omega (arith, shorter),
            λ j lt. front j (omega arith),
            omega (arith, behind),
            λ j le. back j (omega arith),
            omega (arith, within),
            omega (arith, short),
          )
    ]

-- What a call of strtok gives for the characters `cs` that are left: NULL where they have no word,
-- and else the first word as a string, with the rest of the characters left behind it.
abbrev pub Next : (start : ℕ) → (cs : List ℕ) → (token : ℕ) → (mem : Array) → (sp : ℕ) → Type 0
Next start cs token mem sp =
    ((words cs ≡ []) × (token ≡ 0) × (sp ≡ 0))
    ⊎ ((w ds : List ℕ) × (words cs ≡ w ∷ words ds)
        × (token ≢ 0)
        × (sp ≢ 0)
        × HasString mem token w
        × HasString mem sp ds
        × (length ds < length cs)
        × (start ≤ token)
        × (token + length w ≤ start + length cs)
        × (start ≤ sp)
        × (sp + length ds ≤ start + length cs))

-- Between calls `sp` is where the characters that are left start, and for the first call, where it
-- is NULL, they start at `str`: with fuel for each of them, a call gives the first of their words.
pub strtok_lem :
    (fuel str sp : ℕ) (mem : Array) (cs : List ℕ)
    → (if sp == 0 then str else sp) ≢ 0
    → HasString mem (if sp == 0 then str else sp) cs
    → length cs < fuel
    → (token : ℕ) × (mem' : Array) × (sp' : ℕ) × (strtok fuel str spaces mem sp
        ≡ some (token, mem', sp'))
      × Next (if sp == 0 then str else sp) cs token mem' sp'
      × ((j : ℕ)
          → (j < (if sp == 0 then str else sp)) ⊎ ((if sp == 0 then str else sp) + length cs ≤ j)
          → mem' j ≡ mem j)
unfolding strtok
strtok_lem fuel str sp mem cs real h enough =
    let start = if sp == 0 then str else sp in
    let started : (start == 0) ≡ false = ground (arith, real) in
    let (at, ds, ran, here, same, fewer, first, lo, up) = skip_lem fuel mem start cs h enough in
    let (
      w, left, mem', sp', ended, token, rest, split, joined, shorter, front, hi, back, within,
      short,
    ) =
      end_lem fuel mem at ds here (omega (arith, fewer)) in
    elim (Bool-cases (mem at == 0)) [
      | inl over ↦ (
        0,
        mem,
        0,
        rw (started, ran, ended, over) refl,
        inl (sym same ∙ no_words mem at ds here (ground arith), refl, refl),
        λ j out. refl,
      )
      | inr more ↦
          let any : has_any w ≡ true = rw (sym joined, first, more) refl in
          let (shape, some_letter) = attach_any w (words left) any in
          (
            at,
            mem',
            sp',
            rw (started, ran, ended, more) refl,
            inr (
              w,
              left,
              sym same ∙ split ∙ shape,
              ground (arith, real),
              ground (arith, real),
              token,
              rest,
              omega (arith, shorter, fewer, some_letter),
              lo,
              omega (arith, up, short),
              omega (arith, lo, hi),
              omega (arith, up, within),
            ),
            λ j out. elim out [
              | inl before ↦ front j (omega (arith, before, lo))
              | inr behind ↦ back j (omega (arith, behind, up))
            ],
          )
    ]
