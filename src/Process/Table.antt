-- ===== src/Process/Table.antt =====
-- The table of processes of src/task/process.c.
use mathlib.Core.Path.{subst, sym}
use udemy_kernel.Prelude.{
  not, ℕ, zero, suc, ◌+◌, ◌<◌, ◌≤◌, ◌≡◌, ◌≢◌, refl, Bool, true, false, Bool-cases, inl, inr, Array,
  update, some, none, ok, err, eistkn, ◌==◌, arith,
}
use udemy_kernel.Process.{
  Processes, find_slot, process_get, process_switch_to_any, process_unlink, process_get_free_slot,
  max_processes,
}

-- The place `at` is in use, or not.
abbrev Is : (used : Bool) → ℕ → Type 0
Is used v = (v == 0) ≡ not used

-- The first place of a kind is found.
slot_lem :
    (used : Bool) (table : Array) (k i at : ℕ)
    → i ≤ at
    → at < i + k
    → Is used (table at)
    → ((m : ℕ) → i ≤ m → m < at → Is (not used) (table m))
    → find_slot used table k i ≡ some at
unfolding find_slot
slot_lem used table zero i at lo hi has before = absurd (omega (arith, lo, hi))
slot_lem true table (suc k) i at lo hi has before = elim (Bool-cases (i == at)) [
  | inl same ↦
      let here : i ≡ at = ground (arith, same) in
      let found = subst (λ x. Is true (table x)) (sym here) has in rw (find_slot, found, here) refl
  | inr other ↦
      rw (find_slot, before i (omega arith) (ground (arith, other, lo)))
        (slot_lem true table k (i + 1) at (ground (arith, other, lo)) (omega (arith, hi)) has
          (λ m low high. before m (omega (arith, low)) high))
]
slot_lem false table (suc k) i at lo hi has before = elim (Bool-cases (i == at)) [
  | inl same ↦
      let here : i ≡ at = ground (arith, same) in
      let found = subst (λ x. Is false (table x)) (sym here) has in rw (find_slot, found, here) refl
  | inr other ↦
      rw (find_slot, before i (omega arith) (ground (arith, other, lo)))
        (slot_lem false table k (i + 1) at (ground (arith, other, lo)) (omega (arith, hi)) has
          (λ m low high. before m (omega (arith, low)) high))
]

slot_none_lem :
    (used : Bool) (table : Array) (k i : ℕ)
    → ((m : ℕ) → i ≤ m → m < i + k → Is (not used) (table m))
    → find_slot used table k i ≡ none
unfolding find_slot
slot_none_lem used table zero i others = refl
slot_none_lem true table (suc k) i others =
    rw (find_slot, others i (omega arith) (omega arith))
      (slot_none_lem true table k (i + 1)
        (λ m lo hi. others m (omega (arith, lo)) (omega (arith, hi))))
slot_none_lem false table (suc k) i others =
    rw (find_slot, others i (omega arith) (omega arith))
      (slot_none_lem false table k (i + 1)
        (λ m lo hi. others m (omega (arith, lo)) (omega (arith, hi))))

-- A free place of the table is the first one that is NULL, and a full table is refused with EISTKN.
pub free_slot_lem :
    (ps : Processes)
    → ((at : ℕ)
        → at < 12
        → ps.processes at ≡ 0
        → ((m : ℕ) → m < at → ps.processes m ≢ 0)
        → process_get_free_slot ps ≡ ok at)
      × (((m : ℕ) → m < 12 → ps.processes m ≢ 0) → process_get_free_slot ps ≡ err eistkn)
unfolding process_get_free_slot
free_slot_lem ps = (
  λ at within free before.
      rw
        (
          process_get_free_slot,
          slot_lem false ps.processes max_processes 0 at (omega arith) (omega (arith, within))
              (ground (arith, free)) (λ m lo hi. ground (arith, before m hi)),
        )
        refl,
  λ full.
      rw
        (
          process_get_free_slot,
          slot_none_lem false ps.processes max_processes 0
              (λ m lo hi. ground (arith, full m (omega (arith, hi)))),
        )
        refl,
)

-- The current process leaves the table at its place `id`, and `at` is the first other place in
-- use: the process there becomes the current one, the place `id` gives NULL, and every other place
-- the process that it gave. Where no other place is in use, the kernel panics.
pub unlink_lem :
    (ps : Processes) (process id : ℕ)
    → ps.current_process ≡ process
    → id < 12
    → ((at : ℕ)
        → at < 12
        → at ≢ id
        → ps.processes at ≢ 0
        → ((m : ℕ) → m < at → m ≢ id → ps.processes m ≡ 0)
        → (ps' : Processes) × (process_unlink ps process id ≡ some ps')
          × (ps'.current_process ≡ ps.processes at)
          × (process_get ps' id ≡ 0)
          × ((j : ℕ) → j ≢ id → process_get ps' j ≡ process_get ps j))
      × (((m : ℕ) → m < 12 → m ≢ id → ps.processes m ≡ 0) → process_unlink ps process id ≡ none)
unfolding process_unlink process_switch_to_any process_get
unlink_lem ps process id current within =
    let table : Array = update ps.processes id 0 in
    let is : (ps.current_process == process) ≡ true = ground (arith, current) in
    (
      λ at inside differs used before.
          let found =
            slot_lem true table max_processes 0 at (omega arith) (omega (arith, inside))
              (ground (arith, used, differs)) (λ m lo hi. unused ps.processes id m (before m hi)) in
          (
            record { current_process = table at; processes = table },
            rw (process_unlink, is, process_switch_to_any, found) refl,
            ground (arith, differs),
            ground arith,
            λ j other. ground (arith, other),
          ),
      λ alone.
          rw
            (
              process_unlink,
              is,
              process_switch_to_any,
              slot_none_lem true table max_processes 0
                  (λ m lo hi. unused ps.processes id m (alone m (omega (arith, hi)))),
            )
            refl,
    )
  where
    unused : (table : Array) (id m : ℕ) → (m ≢ id → table m ≡ 0) → (update table id 0 m == 0) ≡ true
    unused table id m zero_ = elim (Bool-cases (m == id)) [
      | inl same ↦ ground (arith, same)
      | inr other ↦ ground (arith, other, zero_)
    ]
