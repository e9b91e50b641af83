-- ===== src/Process/Started.antt =====
-- The table of processes of src/task/process.c when a process is loaded.
use udemy_kernel.Prelude.{
  ℕ, ◌<◌, ◌≡◌, ◌≢◌, refl, true, Option, none, some, List, Array, Errno, Result, ok, err, eistkn,
  enomem, update, ◌==◌, arith, Bool-cases, inl, inr,
}
use udemy_kernel.PathParser.{Allocator}
use udemy_kernel.File.{Files, FileSystem}
use udemy_kernel.Elf.{ElfFile}
use udemy_kernel.Process.{Process, process_get, process_switch}
use udemy_kernel.Process.Load.{user_program_stack_size}
use udemy_kernel.Process.Table.{free_slot_lem}
use udemy_kernel.Process.Start.{
  Machine, start_process, with_program, process_bytes, process_load_data, zero_process,
  process_load_for_slot, process_load, process_load_switch,
}

-- The processes after a load into a slot: on an error the table and the structures are as before,
-- otherwise the slot holds the new process, which carries the slot's number.
abbrev pub Loaded : {S : Type 0} → (slot : ℕ) → (m m' : Machine S) → Result ℕ → Type 0
Loaded slot m m' (err e) = (m'.table ≡ m.table) × (m'.process_at ≡ m.process_at)
Loaded slot m m' (ok a) =
    (a ≢ 0)
    × ((m'.process_at a).id ≡ slot)
    × (m'.table ≡ record m.table { processes = update m.table.processes slot a })
    × ((b : ℕ) → b ≢ a → m'.process_at b ≡ m.process_at b)

-- The same, with the new process the current one.
abbrev pub Switched : {S : Type 0} → (slot : ℕ) → (m m' : Machine S) → Result ℕ → Type 0
Switched slot m m' (err e) = (m'.table ≡ m.table) × (m'.process_at ≡ m.process_at)
Switched slot m m' (ok a) =
    (a ≢ 0)
    × ((m'.process_at a).id ≡ slot)
    × (m'.table ≡ record { current_process = a; processes = update m.table.processes slot a })
    × ((b : ℕ) → b ≢ a → m'.process_at b ≡ m.process_at b)

module _ (A : Allocator) (ops : ℕ → FileSystem A.State) (bytes : A.State → Array) where
  start_lem :
      (slot address : ℕ) (p : Process) (file : ElfFile) (m m' : Machine A.State) (res : Result ℕ)
      → address ≢ 0
      → p.id ≡ slot
      → start_process A ops bytes slot address p file m ≡ some (res, m')
      → Loaded slot m m' res
  unfolding start_process
  start_lem slot address p file m m' (err e) real is went = ground arith
  start_lem slot address p file m m' (ok a) real is went =
      (ground arith, ground arith, ground arith, λ b differs. ground arith)

  -- An error with the table and the structures as before.
  refused :
      (slot : ℕ) (m m1 m' : Machine A.State) (res : Result ℕ) (e : Errno)
      → m1.table ≡ m.table
      → m1.process_at ≡ m.process_at
      → ◌≡◌ {A = Option (Result ℕ × Machine A.State)} (some (err e, m1)) (some (res, m'))
      → Loaded slot m m' res
  refused slot m m1 m' (err e') e table at same = ground arith
  refused slot m m1 m' (ok a) e table at same = cc

  with_program_lem :
      (filename : List ℕ) (slot address : ℕ) (p : Process) (file : ElfFile) (m m' : Machine A.State)
      (res : Result ℕ)
      → address ≢ 0
      → with_program A ops bytes filename slot address p file m ≡ some (res, m')
      → Loaded slot m m' res
  unfolding with_program
  with_program_lem filename slot address p file m m' res real went =
      let (stack, s1) = A.kzalloc user_program_stack_size m.state in
      elim (Bool-cases (stack == 0)) [
        | inl null ↦
            refused slot m (record m { state = s1 }) m' res enomem refl refl (rw null at went)
        | inr some_stack ↦
            start_lem slot address _ file (record m { state = s1 }) m' res real refl
              (rw some_stack at went)
      ]

  -- What becomes of the program that is loaded, or of the error.
  after_load :
      (filename : List ℕ) (slot address : ℕ) (m m' : Machine A.State) (res : Result ℕ)
      (r : Option (Result (Process × ElfFile) × Files × A.State))
      → address ≢ 0
      → ◌≡◌ {A = Option (Result ℕ × Machine A.State)}
          (elim r [
            | none ↦ none
            | some (err e, f1, s2) ↦ some (err e, record m { files = f1; state = s2 })
            | some (ok (p, file), f1, s2) ↦
                with_program A ops bytes filename slot address p file
                  (record m { files = f1; state = s2 })
          ])
          (some (res, m'))
      → Loaded slot m m' res
  after_load filename slot address m m' res none real went = cc
  after_load filename slot address m m' (err e) (some (err e', f1, s2)) real went = ground arith
  after_load filename slot address m m' (ok a) (some (err e', f1, s2)) real went = cc
  after_load filename slot address m m' (err e) (some (ok (p, file), f1, s2)) real went =
      with_program_lem filename slot address p file (record m { files = f1; state = s2 }) m' (err e)
        real went
  after_load filename slot address m m' (ok a) (some (ok (p, file), f1, s2)) real went =
      with_program_lem filename slot address p file (record m { files = f1; state = s2 }) m' (ok a)
        real went

  for_slot_lem :
      (fuel disk_fs : ℕ) (filename : List ℕ) (slot : ℕ) (m m' : Machine A.State) (res : Result ℕ)
      → process_get m.table slot ≡ 0
      → process_load_for_slot A ops bytes fuel disk_fs filename slot m ≡ some (res, m')
      → Loaded slot m m' res
  unfolding process_load_for_slot
  for_slot_lem fuel disk_fs filename slot m m' res free went =
      let (address, s1) = A.kzalloc process_bytes m.state in
      let is_free : (process_get m.table slot == 0) ≡ true = ground (arith, free) in
      elim (Bool-cases (address == 0)) [
        | inl null ↦
            refused slot m (record m { state = s1 }) m' res enomem refl refl
              (rw (is_free, null) at went)
        | inr real ↦
            after_load filename slot address m m' res
              (process_load_data A ops bytes fuel disk_fs filename zero_process m.files s1)
              (ground (arith, real)) (rw (is_free, real) at went)
      ]

  -- Where `slot` is the first free one of the 12 of the table, a load that returns made no other
  -- change to the table and to the processes: after an error both are as before, and after a
  -- success the slot holds a new process, which carries its number; every other slot and the
  -- current process are those before.
  pub process_load_lem :
      (fuel disk_fs : ℕ) (filename : List ℕ) (slot : ℕ) (m m' : Machine A.State) (res : Result ℕ)
      → slot < 12
      → m.table.processes slot ≡ 0
      → ((i : ℕ) → i < slot → m.table.processes i ≢ 0)
      → process_load A ops bytes fuel disk_fs filename m ≡ some (res, m')
      → Loaded slot m m' res
  unfolding process_load process_get
  process_load_lem fuel disk_fs filename slot m m' res within free before went =
      let found = (free_slot_lem m.table).0 slot within free before in
      for_slot_lem fuel disk_fs filename slot m m' res (ground (arith, free, within))
        (rw (process_load, found) at went)

  switched :
      (slot : ℕ) (m m' : Machine A.State) (res : Result ℕ) (r : Option (Result ℕ × Machine A.State))
      → ((m1 : Machine A.State) (res1 : Result ℕ) → r ≡ some (res1, m1) → Loaded slot m m1 res1)
      → ◌≡◌ {A = Option (Result ℕ × Machine A.State)}
          (elim r [
            | none ↦ none
            | some (err e, m1) ↦ some (err e, m1)
            | some (ok a, m1) ↦ some (ok a, record m1 { table = process_switch m1.table a })
          ])
          (some (res, m'))
      → Switched slot m m' res
  unfolding process_switch
  switched slot m m' res none loaded went = cc
  switched slot m m' (err e) (some (err e', m1)) loaded went =
      ground (arith, loaded m1 (err e') refl)
  switched slot m m' (ok a) (some (err e', m1)) loaded went = cc
  switched slot m m' (err e) (some (ok a', m1)) loaded went = cc
  switched slot m m' (ok a) (some (ok a', m1)) loaded went =
      let (real, is, table, others) = loaded m1 (ok a') refl in
      (ground arith, ground arith, ground arith, λ b differs. ground (arith, others b))

  -- Where `slot` is the first free one of the 12 of the table: after a load that returns an error,
  -- the table and the processes are as before. After one that succeeds the slot holds a new
  -- process, which carries its number and is the current one; every other slot holds the process
  -- of before, and no other process is changed.
  pub process_load_switch_lem :
      (fuel disk_fs : ℕ) (filename : List ℕ) (slot : ℕ) (m m' : Machine A.State) (res : Result ℕ)
      → slot < 12
      → m.table.processes slot ≡ 0
      → ((i : ℕ) → i < slot → m.table.processes i ≢ 0)
      → process_load_switch A ops bytes fuel disk_fs filename m ≡ some (res, m')
      → Switched slot m m' res
  unfolding process_load_switch
  process_load_switch_lem fuel disk_fs filename slot m m' res within free before went =
      switched slot m m' res (process_load A ops bytes fuel disk_fs filename m)
        (λ m1 res1 loaded.
          process_load_lem fuel disk_fs filename slot m m1 res1 within free before loaded)
        went

  -- A full table of processes refuses a load with EISTKN, and nothing is opened or allocated.
  pub process_load_full :
      (fuel disk_fs : ℕ) (filename : List ℕ) (m : Machine A.State)
      → ((i : ℕ) → i < 12 → m.table.processes i ≢ 0)
      → process_load_switch A ops bytes fuel disk_fs filename m ≡ some (err eistkn, m)
  unfolding process_load_switch process_load
  process_load_full fuel disk_fs filename m full =
      let found = (free_slot_lem m.table).1 full in
      rw (process_load_switch, process_load, found) refl
