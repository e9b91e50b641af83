-- ===== src/Str/Compare.antt =====
-- strncmp, istrncmp and the case conversions of src/string/string.c.
use udemy_kernel.Prelude.{
  ℕ, zero, suc, ◌+◌, ◌≤◌, ◌<◌, ◌≡◌, ◌≢◌, refl, ◌↔◌, inl, inr, Array, pos, arith, ◌==◌, Bool-cases,
}
use udemy_kernel.Str.{strncmp, strncmp_loop, istrncmp, istrncmp_loop, tolower, toupper}

-- From `i` to `stop`, up to and including the first terminator of `s1`, the bytes are the same
-- under `fold`.
abbrev SameFrom : (fold : ℕ → ℕ) → (s1 s2 : Array) → (i stop : ℕ) → Type 0
SameFrom fold s1 s2 i stop =
    (j : ℕ) → i ≤ j → j < stop → ((m : ℕ) → i ≤ m → m < j → s1 m ≢ 0) → fold (s1 j) ≡ fold (s2 j)

istrncmp_same :
    (s1 s2 : Array) (n i stop : ℕ)
    → i + n ≡ stop
    → istrncmp_loop s1 s2 n i ≡ pos 0
    → SameFrom tolower s1 s2 i stop
unfolding istrncmp_loop
istrncmp_same s1 s2 zero i stop left z j lo hi open_until = absurd (omega arith)
istrncmp_same s1 s2 (suc n) i stop left z j lo hi open_until = elim (Bool-cases (i == j)) [
  | inl same ↦ ground arith
  | inr other ↦
      let go_on : istrncmp_loop s1 s2 n (i + 1) ≡ pos 0 = ground (arith, open_until i) in
      istrncmp_same s1 s2 n (i + 1) stop (omega arith) go_on j (ground arith) hi
        (λ m l h. open_until m (omega arith) h)
]

same_istrncmp :
    (s1 s2 : Array) (n i stop : ℕ)
    → i + n ≡ stop
    → SameFrom tolower s1 s2 i stop
    → istrncmp_loop s1 s2 n i ≡ pos 0
unfolding istrncmp_loop
same_istrncmp s1 s2 zero i stop left same = refl
same_istrncmp s1 s2 (suc n) i stop left same =
    let here = same i (omega arith) (omega arith) (λ m l h. absurd (omega arith)) in
    elim (Bool-cases (s1 i == 0)) [
      | inl end ↦ ground (arith, here)
      | inr more ↦
          let tail : SameFrom tolower s1 s2 (i + 1) stop = λ j lo hi open_until.
            same j (omega arith) hi λ m l h. elim (Bool-cases (m == i)) [
              | inl at ↦ ground arith
              | inr past ↦ open_until m (ground arith) h
            ] in
          ground (arith, here, same_istrncmp s1 s2 n (i + 1) stop (omega arith) tail)
    ]

istrncmp_loop-agree :
    (a b name : Array) (k i n : ℕ)
    → i + k ≤ n
    → ((j : ℕ) → j < n → a j ≡ b j)
    → istrncmp_loop a name k i ≡ istrncmp_loop b name k i
unfolding istrncmp_loop
istrncmp_loop-agree a b name zero i n le same = refl
istrncmp_loop-agree a b name (suc k) i n le same =
    rw
      (
        same i (omega (arith, le)),
        istrncmp_loop-agree a b name k (i + 1) n (omega (arith, le)) same,
      )
      refl

-- Only the first `n` bytes count.
pub istrncmp-agree :
    (a b name : Array) (n : ℕ)
    → ((j : ℕ) → j < n → a j ≡ b j)
    → istrncmp a name n ≡ istrncmp b name n
unfolding istrncmp
istrncmp-agree a b name n same = istrncmp_loop-agree a b name n 0 n (omega arith) same

-- `istrncmp` returns 0 exactly when the strings agree without regard to case, in the first `n`
-- bytes or up to the terminator of the first, if that comes earlier.
pub istrncmp_zero :
    (s1 s2 : Array) (n : ℕ)
    → (istrncmp s1 s2 n ≡ pos 0)
      ↔ ((j : ℕ) → j < n → ((m : ℕ) → m < j → s1 m ≢ 0) → tolower (s1 j) ≡ tolower (s2 j))
unfolding istrncmp
istrncmp_zero s1 s2 n = (
  λ z j lt open_until.
      istrncmp_same s1 s2 n 0 n (omega arith) z j (omega arith) lt (λ m l h. open_until m h),
  λ same.
      same_istrncmp s1 s2 n 0 n (omega arith)
        (λ j lo hi open_until. same j hi (λ m h. open_until m (omega arith) h)),
)

-- Lowering the case is undone by raising it, on a letter, and leaves no capital letter.
pub tolower-toupper : (c : ℕ) → toupper (tolower c) ≡ toupper c
unfolding tolower toupper
tolower-toupper c = ground arith

strncmp_loop-agree :
    (a b name : Array) (k i n : ℕ)
    → i + k ≤ n
    → ((j : ℕ) → j < n → a j ≡ b j)
    → strncmp_loop a name k i ≡ strncmp_loop b name k i
unfolding strncmp_loop
strncmp_loop-agree a b name zero i n le same = refl
strncmp_loop-agree a b name (suc k) i n le same =
    rw
      (same i (omega (arith, le)), strncmp_loop-agree a b name k (i + 1) n (omega (arith, le)) same)
      refl

-- Only the first `n` bytes count.
pub strncmp-agree :
    (a b name : Array) (n : ℕ) → ((j : ℕ) → j < n → a j ≡ b j) → strncmp a name n ≡ strncmp b name n
unfolding strncmp
strncmp-agree a b name n same = strncmp_loop-agree a b name n 0 n (omega arith) same
