-- ===== src/PathParser/Split.antt =====
-- Paths as text: the parts between slashes, and the text that they are joined to.
use udemy_kernel.Prelude.{
  ◌++◌, ap, ◌≢◌, ◌⊎◌, ℕ, ◌<◌, ◌≡◌, refl, List, [], ◌∷◌, arith, length, ◌==◌, if◌then◌else◌,
  Bool-cases, inl, inr,
}
use udemy_kernel.PathParser.{false, scan_part}

-- `c` in front of the first part.
abbrev cons_head : ℕ → List (List ℕ) → List (List ℕ)
cons_head c [] = (c ∷ []) ∷ []
cons_head c (p ∷ ps) = (c ∷ p) ∷ ps

-- The parts between slashes, empty ones included.
pub split : List ℕ → List (List ℕ)
split [] = [] ∷ []
split (c ∷ path) = if c == b'/' then [] ∷ split path else cons_head c (split path)

-- The parts in front of the first empty one.
pub until_empty : List (List ℕ) → List (List ℕ)
until_empty [] = []
until_empty ([] ∷ ps) = []
until_empty ((c ∷ p) ∷ ps) = (c ∷ p) ∷ until_empty ps

-- The parts that a path behind its drive names.
pub components : List ℕ → List (List ℕ)
unfolding split until_empty
components path = until_empty (split path)

-- One scan splits off the first part; where the path ends with it, the rest is empty.
pub split-scan_part :
    (path : List ℕ)
    → (split path ≡ (scan_part path).0 ∷ []) × ((scan_part path).1 ≡ [])
      ⊎ (split path ≡ (scan_part path).0 ∷ split (scan_part path).1)
        × (length (scan_part path).1 < length path)
unfolding split scan_part
split-scan_part [] = inl (refl, refl)
split-scan_part (c ∷ path) = elim (Bool-cases (c == b'/')) [
  | inl slash ↦ rw slash (inr (refl, omega arith))
  | inr other ↦ elim (split-scan_part path) [
    | inl (one, end) ↦ rw (other, one) (inl (refl, end))
    | inr (more, short) ↦ rw (other, more) (inr (refl, omega arith))
  ]
]

-- A scan that finds a part takes at least its first byte off the path.
pub scan_part_short :
    (path : List ℕ)
    → (length (scan_part path).0 == 0) ≡ false
    → length (scan_part path).1 < length path
unfolding scan_part
scan_part_short [] found = cc
scan_part_short (c ∷ path) found = elim (split-scan_part path) [
  | inl (one, end) ↦ ground (arith, ap length end)
  | inr (more, short) ↦ ground arith
]

-- The components of a path are its first part and those of what the scan leaves, or none if the
-- first part is empty.
pub components-scan_part :
    (path : List ℕ)
    → components path ≡ (
        if length (scan_part path).0 == 0
        then []
        else (scan_part path).0 ∷ components (scan_part path).1)
unfolding components
components-scan_part path = elim (split-scan_part path) [
  | inl (one, end) ↦ rw one (last (scan_part path).0 (scan_part path).1 end)
  | inr (more, short) ↦ rw more (next (scan_part path).0 (scan_part path).1)
]
  where
    last :
        (b rest : List ℕ)
        → rest ≡ []
        → until_empty (b ∷ []) ≡ (if length b == 0 then [] else b ∷ until_empty (split rest))
    last [] rest end = refl
    last (c ∷ b) rest end = rw end (ground arith)

    next :
        (b rest : List ℕ)
        → until_empty (b ∷ split rest)
          ≡ (if length b == 0 then [] else b ∷ until_empty (split rest))
    next [] rest = refl
    next (c ∷ b) rest = ground arith

-- Parts joined by slashes.
unfoldable pub join : List (List ℕ) → List ℕ
join [] = []
join (p ∷ []) = p
join (p ∷ q ∷ ps) = p ++ b'/' ∷ join (q ∷ ps)

-- No part is empty, and none has a slash in it.
abbrev pub NoSlash : List ℕ → Type 0
NoSlash [] = Unit
NoSlash (c ∷ p) = (c ≢ b'/') × NoSlash p

abbrev pub AreParts : List (List ℕ) → Type 0
AreParts [] = Unit
AreParts (p ∷ ps) = (p ≢ []) × NoSlash p × AreParts ps

split_one : (p : List ℕ) → NoSlash p → split p ≡ p ∷ []
unfolding split
split_one [] h = refl
split_one (c ∷ p) (ne, h) =
    let other : (c == b'/') ≡ false = ground arith in rw (other, split_one p h) refl

split_front : (p rest : List ℕ) → NoSlash p → split (p ++ b'/' ∷ rest) ≡ p ∷ split rest
unfolding split
split_front [] rest h = refl
split_front (c ∷ p) rest (ne, h) =
    let other : (c == b'/') ≡ false = ground arith in rw (other, split_front p rest h) refl

until_empty-cons :
    (p : List ℕ) (ps : List (List ℕ)) → p ≢ [] → until_empty (p ∷ ps) ≡ p ∷ until_empty ps
unfolding until_empty
until_empty-cons [] ps ne = absurd (ne refl)
until_empty-cons (c ∷ p) ps ne = refl

-- Parts that are not empty and hold no slash are the components of the text that joins them.
pub components-join : (ps : List (List ℕ)) → AreParts ps → components (join ps) ≡ ps
unfolding components join
components-join [] h = unfold split until_empty in refl
components-join (p ∷ []) (ne, clean, h) =
    rw (split_one p clean, until_empty-cons p [] ne) (unfold until_empty in refl)
components-join (p ∷ q ∷ ps) (ne, clean, h) =
    rw (split_front p (join (q ∷ ps)) clean, until_empty-cons p (split (join (q ∷ ps))) ne)
      (ap (λ (t : List (List ℕ)). p ∷ t) (components-join (q ∷ ps) h))
