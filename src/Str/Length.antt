-- ===== src/Str/Length.antt =====
-- strlen, strnlen and strnlen_terminator of src/string/string.c.
use udemy_kernel.Prelude.{
  ◌||◌, ℕ, zero, suc, ◌+◌, ◌≤◌, ◌<◌, ◌≡◌, ◌≢◌, ◌⊎◌, inl, inr, some, Array, arith, ◌==◌, Bool-cases,
}
use udemy_kernel.Str.{
  strlen, strlen_loop, strnlen, strnlen_loop, strnlen_terminator, terminator_loop,
}

-- The string at `p` is its first `n` bytes: they are not 0, and the byte after them is.
pub record IsString (p : Array) (n : ℕ) : Type 0 where
  pub filled : (j : ℕ) → j < n → p j ≢ 0
  pub ends : p n ≡ 0

strlen_loop_lem :
    (p : Array) (n fuel i : ℕ) → IsString p n → i ≤ n → n < i + fuel → strlen_loop p fuel i ≡ some n
unfolding strlen_loop
strlen_loop_lem p n zero i s le enough = absurd (omega arith)
strlen_loop_lem p n (suc fuel) i s le enough = elim (Bool-cases (i == n)) [
  | inl same ↦ ground (arith, s.ends)
  | inr other ↦ ground (arith, s.filled i, strlen_loop_lem p n fuel (i + 1) s)
]

-- With more fuel than the length, `strlen` returns the number of bytes before the terminator.
pub strlen_lem : (p : Array) (n fuel : ℕ) → IsString p n → n < fuel → strlen fuel p ≡ some n
unfolding strlen
strlen_lem p n fuel s enough = strlen_loop_lem p n fuel 0 s (omega arith) (omega arith)

-- The walk from `i` stops at `r`: at its bound, or at the first byte that `stop` holds of.
abbrev Stops : (stop : ℕ → Type 0) → Array → (i bound r : ℕ) → Type 0
Stops stop p i bound r =
    (i ≤ r) × (r ≤ bound) × ((j : ℕ) → i ≤ j → j < r → ¬ stop (p j)) × ((r ≡ bound) ⊎ stop (p r))

strnlen_loop-Stops :
    (p : Array) (k i bound : ℕ) → i + k ≡ bound → Stops (λ c. c ≡ 0) p i bound (strnlen_loop p k i)
unfolding strnlen_loop
strnlen_loop-Stops p zero i bound left =
    (omega arith, omega arith, λ j lo hi. absurd (omega arith), inl (omega arith))
strnlen_loop-Stops p (suc k) i bound left = elim (Bool-cases (p i == 0)) [
  | inl stop ↦
      rw stop (omega arith, omega arith, λ j lo hi. absurd (omega arith), inr (ground arith))
  | inr more ↦
      let (lo, hi, before, at) = strnlen_loop-Stops p k (i + 1) bound (omega arith) in
      rw more (omega arith, hi, λ j l h. ground (arith, before j), at)
]

-- `strnlen` returns the length of the string, or `max` if no terminator comes before it.
pub strnlen_lem :
    (p : Array) (max : ℕ)
    → (strnlen p max ≤ max)
      × ((j : ℕ) → j < strnlen p max → p j ≢ 0)
      × ((strnlen p max ≡ max) ⊎ (p (strnlen p max) ≡ 0))
unfolding strnlen
strnlen_lem p max =
    let (lo, hi, before, at) = strnlen_loop-Stops p max 0 max (omega arith) in
    (hi, λ j l. before j (omega arith) l, at)

terminator_loop-Stops :
    (p : Array) (t k i bound : ℕ)
    → i + k ≡ bound
    → Stops (λ c. (c ≡ 0) ⊎ (c ≡ t)) p i bound (terminator_loop p t k i)
unfolding terminator_loop
terminator_loop-Stops p t zero i bound left =
    (omega arith, omega arith, λ j lo hi. absurd (omega arith), inl (omega arith))
terminator_loop-Stops p t (suc k) i bound left =
    let (lo, hi, before, at) = terminator_loop-Stops p t k (i + 1) bound (omega arith) in
    elim (Bool-cases (p i == 0 || p i == t)) [
      | inl stop ↦
          rw stop (omega arith, omega arith, λ j lo hi. absurd (omega arith), inr (ground arith))
      | inr more ↦ rw more (omega arith, hi, λ j l h. ground (arith, before j), at)
    ]

-- `strnlen_terminator` returns the index of the first byte that is 0 or the terminator, or `max`
-- if none comes before it.
pub strnlen_terminator_lem :
    (p : Array) (max t : ℕ)
    → (strnlen_terminator p max t ≤ max)
      × ((j : ℕ) → j < strnlen_terminator p max t → ¬ ((p j ≡ 0) ⊎ (p j ≡ t)))
      × ((strnlen_terminator p max t ≡ max)
          ⊎ ((p (strnlen_terminator p max t) ≡ 0) ⊎ (p (strnlen_terminator p max t) ≡ t)))
unfolding strnlen_terminator
strnlen_terminator_lem p max t =
    let (lo, hi, before, at) = terminator_loop-Stops p t max 0 max (omega arith) in
    (hi, λ j l. before j (omega arith) l, at)
