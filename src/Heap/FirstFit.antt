-- ===== src/Heap/FirstFit.antt =====
-- Which block heap_get_start_block of src/memory/heap/heap.c chooses.
use udemy_kernel.Prelude.{
  err, enomem, ℕ, zero, suc, ◌+◌, ◌≤◌, ◌<◌, ◌≡◌, refl, inl, inr, false, Option, none, some, Array,
  ok, arith, ◌==◌, Bool-cases,
}
use udemy_kernel.Heap.{
  Heap, entry_free, heap_get_entry_type, or_else, start_block_loop, heap_get_start_block,
}

-- Block `j` is marked free, as the loop tests it.
abbrev pub IsFree : Array → ℕ → Type 0
IsFree e j = heap_get_entry_type (e j) ≡ entry_free

-- The `n` blocks from `b` on are free.
abbrev pub FreeRun : Array → ℕ → ℕ → Type 0
FreeRun e b n = (j : ℕ) → b ≤ j → j < b + n → IsFree e j

FreeRun-extend :
    (e : Array) (b n i : ℕ) → b + n ≡ i → FreeRun e b n → IsFree e i → FreeRun e b (n + 1)
FreeRun-extend e b n i at run free j lo hi = elim (Bool-cases (j == i)) [
  | inl same ↦ ground (arith, free)
  | inr other ↦ run j lo (ground arith)
]

-- What the search must find, given that a run at `s` is in reach.
abbrev Finds : Array → (n s stop : ℕ) → Option ℕ → Type 0
Finds e n s stop r = (b : ℕ) × (r ≡ some b) × (b ≤ s) × (b + n ≤ stop) × FreeRun e b n

module _ (e : Array) (n : ℕ) where
  loop-Finds :
      (k i bc : ℕ) (bs : Option ℕ) (s stop : ℕ)
      → or_else bs i + bc ≡ i
      → bc < n
      → FreeRun e (or_else bs i) bc
      → or_else bs i ≤ s
      → s + n ≤ stop
      → i + k ≡ stop
      → FreeRun e s n
      → Finds e n s stop (start_block_loop e n k i bc bs)
  unfolding start_block_loop
  loop-Finds zero i bc bs s stop at small run le fits end wanted = absurd (omega arith)
  loop-Finds (suc k) i bc bs s stop at small run le fits end wanted =
      elim (Bool-cases (heap_get_entry_type (e i) == entry_free)) [
        | inr taken ↦ rw taken (
            loop-Finds k (i + 1) 0 none s stop (omega arith) (omega arith)
              (λ j p q. absurd (omega arith)) (past taken) fits (omega arith) wanted)
        | inl free ↦
            let isfree : IsFree e i = ground arith in
            let longer = FreeRun-extend e (or_else bs i) bc i at run isfree in
            rw free (elim (Bool-cases (bc + 1 == n)) [
              | inl full ↦
                  rw full
                    (or_else bs i, refl, le, ground arith, λ j lo hi. longer j lo (ground arith))
              | inr open_run ↦ rw open_run (
                  loop-Finds k (i + 1) (bc + 1) (some (or_else bs i)) s stop (omega arith)
                    (ground arith) longer le fits (omega arith) wanted)
            ])
      ]
    where
      -- A run from `s` on would hold the taken block `i`.
      past : (heap_get_entry_type (e i) == entry_free) ≡ false → i + 1 ≤ s
      past taken = ground (arith, wanted i)

-- Whenever some `n` consecutive blocks of the table are free, `n` at least 1, the search succeeds
-- with the first such run: it starts at or before every other, is free, and lies within the
-- table.
pub start_block_first_fit :
    (h : Heap) (n s : ℕ)
    → 0 < n
    → s + n ≤ h.table.total
    → FreeRun h.table.entries s n
    → (b : ℕ) × (heap_get_start_block h n ≡ ok b)
      × (b ≤ s)
      × (b + n ≤ h.table.total)
      × FreeRun h.table.entries b n
unfolding heap_get_start_block
start_block_first_fit h n s pos_n fits wanted =
    let (b, found, before, within, free) =
      loop-Finds h.table.entries n h.table.total 0 0 none s h.table.total refl pos_n
        (λ j p q. absurd (omega arith)) (omega arith) fits (omega arith) wanted in
    (b, rw found, before, within, free)

-- No `n` consecutive blocks below `stop` are free.
abbrev pub NoRun : Array → (n stop : ℕ) → Type 0
NoRun e n stop = (s : ℕ) → s + n ≤ stop → ¬ FreeRun e s n

-- The search ends with a run that would reach past the table.
abbrev Overruns : (n stop : ℕ) → Option ℕ → Type 0
Overruns n stop r = (b : ℕ) × (r ≡ some b) × (stop < b + n)

module _ (e : Array) (n m stop : ℕ) (end : m + 1 ≡ stop) (last : IsFree e m)
    (no_run : NoRun e n stop) where
  loop-Overruns :
      (k i bc : ℕ) (bs : Option ℕ)
      → or_else bs i + bc ≡ i
      → bc < n
      → FreeRun e (or_else bs i) bc
      → (bs ≡ none → 0 < k)
      → i + k ≡ stop
      → Overruns n stop (start_block_loop e n k i bc bs)
  unfolding start_block_loop
  loop-Overruns zero i bc none at small run alive left = absurd (omega (arith, alive refl))
  loop-Overruns zero i bc (some b) at small run alive left = (b, refl, omega arith)
  loop-Overruns (suc k) i bc bs at small run alive left =
      elim (Bool-cases (heap_get_entry_type (e i) == entry_free)) [
        | inr taken ↦ rw taken (
            loop-Overruns k (i + 1) 0 none (omega arith) (omega arith)
              (λ j p q. absurd (omega arith)) (λ _. more taken) (omega arith))
        | inl free ↦
            let longer = FreeRun-extend e (or_else bs i) bc i at run (ground arith) in
            rw free (elim (Bool-cases (bc + 1 == n)) [
              | inl full ↦
                  absurd
                    (no_run (or_else bs i) (ground arith) λ j lo hi. longer j lo (ground arith))
              | inr open_run ↦ rw open_run (
                  loop-Overruns k (i + 1) (bc + 1) (some (or_else bs i)) (omega arith)
                    (ground arith) longer (λ p. cc) (omega arith))
            ])
      ]
    where
      -- The last block is free, so a taken one is not the last.
      more : (heap_get_entry_type (e i) == entry_free) ≡ false → 0 < k
      more taken = elim (Bool-cases (i == m)) [ inl same ↦ ground arith | inr other ↦ ground arith ]

-- The defect: when no run of `n` blocks is free but the last block of the table is, the search
-- does not fail. It returns a block from which `n` blocks reach past the end of the table.
pub start_block_overrun :
    (h : Heap) (n m : ℕ)
    → 0 < n
    → h.table.total ≡ m + 1
    → IsFree h.table.entries m
    → NoRun h.table.entries n h.table.total
    → (b : ℕ) × (heap_get_start_block h n ≡ ok b) × (h.table.total < b + n)
unfolding heap_get_start_block
start_block_overrun h n m pos_n size last no_run =
    let (b, found, past) =
      loop-Overruns h.table.entries n m h.table.total (omega arith) last no_run h.table.total 0 0
        none refl pos_n (λ j p q. absurd (omega arith)) (λ _. omega arith) (omega arith) in
    (b, rw found, past)

loop_full :
    (e : Array) (n k i stop : ℕ)
    → i + k ≡ stop
    → ((j : ℕ) → j < stop → ¬ IsFree e j)
    → start_block_loop e n k i 0 none ≡ none
unfolding start_block_loop
loop_full e n zero i stop left full = refl
loop_full e n (suc k) i stop left full =
    elim (Bool-cases (heap_get_entry_type (e i) == entry_free)) [
      | inl free ↦ absurd (full i (omega arith) (ground arith))
      | inr taken ↦ rw taken (loop_full e n k (i + 1) stop (omega arith) full)
    ]

-- Where every block of the table is taken, the search fails with ENOMEM.
pub start_block_full :
    (h : Heap) (n : ℕ)
    → ((j : ℕ) → j < h.table.total → ¬ IsFree h.table.entries j)
    → heap_get_start_block h n ≡ err enomem
unfolding heap_get_start_block
start_block_full h n full =
    rw (loop_full h.table.entries n h.table.total 0 h.table.total (omega arith) full)
