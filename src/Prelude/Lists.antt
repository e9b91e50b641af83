-- ===== src/Prelude/Lists.antt =====
-- Lists measured by native numbers, under the library's names.
use Prim.Native.Nat.{ℕ, zero, suc, ◌+◌, ◌<◌}
use mathlib.Core.Path.{◌≡◌, refl, sym}
use mathlib.Core.Logic.{◌≢◌}
use mathlib.Core.List.{List, [], ◌∷◌, ◌++◌}
use native.Mathlib.Omega.{arith}

module _ {ℓ} {A : Type ℓ} where
  abbrev pub length : List A → ℕ
  length [] = 0
  length (x ∷ xs) = suc (length xs)

  abbrev pub get_or : List A → ℕ → A → A
  get_or [] i d = d
  get_or (x ∷ xs) zero d = x
  get_or (x ∷ xs) (suc i) d = get_or xs i d

  pub length-append : (xs ys : List A) → length (xs ++ ys) ≡ length xs + length ys
  length-append [] ys = omega arith
  length-append (x ∷ xs) ys = omega (arith, length-append xs ys)

  pub get_or_within :
      (xs : List A) (i : ℕ) (d e : A) → i < length xs → get_or xs i d ≡ get_or xs i e
  get_or_within [] i d e lt = absurd (omega arith)
  get_or_within (x ∷ xs) zero d e lt = refl
  get_or_within (x ∷ xs) (suc i) d e lt = get_or_within xs i d e (omega arith)

-- The first and the last of a list of addresses; NULL is 0.
abbrev pub first : List ℕ → ℕ
first [] = 0
first (a ∷ l) = a

-- The last of a list, `p` for an empty one.
abbrev pub last : ℕ → List ℕ → ℕ
last p [] = p
last p (a ∷ l) = last a l

abbrev pub NotIn : ℕ → List ℕ → Type 0
NotIn a [] = Unit
NotIn a (b ∷ l) = (a ≢ b) × NotIn a l

pub last-NotIn : (a b : ℕ) (l : List ℕ) → a ≢ b → NotIn a l → last b l ≢ a
last-NotIn a b [] differs away same = differs (sym same)
last-NotIn a b (c ∷ l) differs away same = last-NotIn a c l away.0 away.1 same

pub last-append : (p : ℕ) (l : List ℕ) (t : ℕ) → last p (l ++ t ∷ []) ≡ t
last-append p [] t = refl
last-append p (a ∷ l) t = last-append a l t

pub NotIn-append : (a : ℕ) (l : List ℕ) (t : ℕ) → NotIn a l → a ≢ t → NotIn a (l ++ t ∷ [])
NotIn-append a [] t away differs = (differs, tt)
NotIn-append a (b ∷ l) t away differs = (away.0, NotIn-append a l t away.1 differs)
