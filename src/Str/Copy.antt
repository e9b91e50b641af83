-- ===== src/Str/Copy.antt =====
-- strncpy and strcpy of src/string/string.c.
use udemy_kernel.Prelude.{
  ℕ, zero, suc, ◌+◌, ◌-◌, ◌≤◌, ◌<◌, ◌≡◌, ◌≢◌, ◌⊎◌, inl, inr, some, Array, update, arith, ◌==◌, leb,
  ltb, ◌&&◌, Bool-cases, if◌then◌else◌,
}
use udemy_kernel.Str.{strncpy, strncpy_loop, strcpy, strcpy_loop}
use udemy_kernel.Str.Length.{IsString}

-- `dest` with the bytes from `i` up to `n` from `src`, and a terminator after them.
abbrev copied : (dest src : Array) → (i n j : ℕ) → ℕ
copied dest src i n j = if leb i j && ltb j n then src j else if j == n then 0 else dest j

strncpy_loop_lem :
    (src dest : Array) (k i n j : ℕ)
    → i ≤ n
    → n ≤ i + k
    → ((m : ℕ) → m < n → src m ≢ 0)
    → (n ≡ i + k) ⊎ (src n ≡ 0)
    → strncpy_loop src k i dest j ≡ copied dest src i n j
unfolding strncpy_loop
strncpy_loop_lem src dest zero i n j le hi filled stop = ground arith
strncpy_loop_lem src dest (suc k) i n j le hi filled stop = elim (Bool-cases (i == n)) [
  | inl same ↦ ground (arith, strncpy_loop_lem src (update dest i (src i)) k (i + 1) n j)
  | inr other ↦
      let rest =
        strncpy_loop_lem src (update dest i (src i)) k (i + 1) n j (ground arith) (omega arith)
          filled (ground arith) in
      ground (arith, filled i, rest)
]

-- For a `count` of at least 1, and `n` the length of the source or `count - 1`, whichever comes
-- first, `strncpy` copies `n` bytes, writes a terminator after them, and no other byte: `dest` is
-- always terminated within `count` bytes.
pub strncpy_lem :
    (dest src : Array) (count n j : ℕ)
    → n < count
    → ((m : ℕ) → m < n → src m ≢ 0)
    → (n + 1 ≡ count) ⊎ (src n ≡ 0)
    → strncpy dest src count j ≡ (if ltb j n then src j else if j == n then 0 else dest j)
unfolding strncpy
strncpy_lem dest src count n j lt filled stop =
    let rest =
      strncpy_loop_lem src dest (count - 1) 0 n j (omega arith) (omega arith) filled
        (ground arith) in
    ground (arith, rest)

strcpy_loop_lem :
    (src : Array) (n fuel i : ℕ) (dest : Array)
    → IsString src n
    → i ≤ n
    → n < i + fuel
    → (r : Array) × (strcpy_loop src fuel i dest ≡ some r) × ((j : ℕ) → r j ≡ copied dest src i n j)
unfolding strcpy_loop
strcpy_loop_lem src n zero i dest s le enough = absurd (omega arith)
strcpy_loop_lem src n (suc fuel) i dest s le enough = elim (Bool-cases (i == n)) [
  | inl same ↦ (update dest i 0, ground (arith, s.ends), λ j. ground arith)
  | inr other ↦
      let (r, found, is) =
        strcpy_loop_lem src n fuel (i + 1) (update dest i (src i)) s (ground arith) (omega arith) in
      (r, ground (arith, s.filled i, found), λ j. ground (arith, is j))
]

-- With more fuel than the length `n` of the source, `strcpy` writes the `n` bytes and a
-- terminator, and no other byte.
pub strcpy_lem :
    (dest src : Array) (n fuel : ℕ)
    → IsString src n
    → n < fuel
    → (r : Array) × (strcpy fuel dest src ≡ some r)
      × ((j : ℕ) → r j ≡ (if ltb j n then src j else if j == n then 0 else dest j))
unfolding strcpy
strcpy_lem dest src n fuel s enough =
    let (r, found, is) = strcpy_loop_lem src n fuel 0 dest s (omega arith) (omega arith) in
    (r, found, λ j. ground (arith, is j))
