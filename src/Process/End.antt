-- ===== src/Process/End.antt =====
-- process_terminate of src/task/process.c: the end of the current process.
use udemy_kernel.Prelude.{
  ℕ, zero, suc, ◌+◌, ◌<◌, ◌≡◌, ◌≢◌, ◌∙◌, refl, Option, none, some, Array, Result, ok, ◌==◌,
  if◌then◌else◌, arith,
}
use udemy_kernel.PathParser.{Allocator}
use udemy_kernel.Elf.{ElfFile}
use udemy_kernel.Process.{
  Process, Processes, process_get, process_free, process_allocation_unjoin, terminate_loop,
  process_terminate_allocations, process_unlink, max_program_allocations,
}
use udemy_kernel.Task.{task_free}
use udemy_kernel.Process.Table.{unlink_lem}
use udemy_kernel.Process.Start.{Machine, process_free_program_data, process_terminate}

module _ (A : Allocator) where
  free_fields :
      (p : Process) (ptr : ℕ) (mem : Array) (s : A.State)
      → ((process_free A p ptr mem s).0.id ≡ p.id)
        × ((process_free A p ptr mem s).0.filetype ≡ p.filetype)
  unfolding process_free process_allocation_unjoin
  free_fields p ptr mem s = ground arith

  loop_fields :
      (k i : ℕ) (p : Process) (mem : Array) (s : A.State)
      → ((terminate_loop A k i p mem s).0.id ≡ p.id)
        × ((terminate_loop A k i p mem s).0.filetype ≡ p.filetype)
  unfolding terminate_loop
  loop_fields zero i p mem s = (refl, refl)
  loop_fields (suc k) i p mem s =
      let (p1, mem1, s1) = process_free A p (p.allocations i).ptr mem s in
      let (id1, type1) = free_fields p (p.allocations i).ptr mem s in
      let (id2, type2) = loop_fields k (i + 1) p1 mem1 s1 in (id2 ∙ id1, type2 ∙ type1)

  data_freed :
      (p : Process) (elf_at : ℕ → ElfFile) (s : A.State)
      → p.filetype < 2
      → (process_free_program_data A p elf_at s).0 ≡ ok tt
  unfolding process_free_program_data
  data_freed p elf_at s known = ground arith

  -- The state after the end of a process, for the table of processes then.
  abbrev ended : (process : ℕ) → Machine A.State → Processes → Machine A.State
  ended process m ps =
      let (p, words1, s1) =
        process_terminate_allocations A (m.process_at process) m.words m.state in
      let (_, s2) = process_free_program_data A p m.elf_at s1 in
      let (ts, s3) = task_free A m.tasks words1 p.task (A.kfree p.stack s2) in
      record m {
        tasks = ts;
        process_at = λ a. if a == process then p else m.process_at a;
        words = words1;
        state = s3;
        table = ps;
      }

  terminate_with :
      (process : ℕ) (m : Machine A.State) (r : Option Processes)
      → (m.process_at process).filetype < 2
      → process_unlink m.table process (m.process_at process).id ≡ r
      → process_terminate A process m
        ≡ elim r as (λ _. Option (Result (Unit {0}) × Machine A.State)) [
          | none ↦ none
          | some ps ↦ some (ok tt, ended process m ps)
        ]
  unfolding process_terminate process_terminate_allocations
  terminate_with process m r known unlinked =
      let p = m.process_at process in
      let (same_id, same_type) = loop_fields max_program_allocations 0 p m.words m.state in
      let (p1, words1, s1) = terminate_loop A max_program_allocations 0 p m.words m.state in
      let freed = data_freed p1 m.elf_at s1 (omega (arith, same_type, known)) in
      rw (process_terminate, freed, same_id, unlinked) refl

  -- The current process, which has its number as its place in the table and one of the two types
  -- of a program, ends while `at` is the first other place in use: the process there becomes the
  -- current one, the place of the one that ended is NULL, and every other place is as before.
  pub process_terminate_lem :
      (process : ℕ) (m : Machine A.State) (at : ℕ)
      → m.table.current_process ≡ process
      → (m.process_at process).id < 12
      → (m.process_at process).filetype < 2
      → at < 12
      → at ≢ (m.process_at process).id
      → m.table.processes at ≢ 0
      → ((i : ℕ) → i < at → i ≢ (m.process_at process).id → m.table.processes i ≡ 0)
      → (m' : Machine A.State) × (process_terminate A process m ≡ some (ok tt, m'))
        × (m'.table.current_process ≡ m.table.processes at)
        × (process_get m'.table (m.process_at process).id ≡ 0)
        × ((j : ℕ) → j ≢ (m.process_at process).id → process_get m'.table j ≡ process_get m.table j)
  process_terminate_lem process m at current within known inside differs used before =
      let (ps, unlinked, now, gone, others) =
        (unlink_lem m.table process (m.process_at process).id current within).0 at inside differs
          used before in
      (ended process m ps, terminate_with process m (some ps) known unlinked, now, gone, others)

  -- The end of the only process of the table is a panic.
  pub process_terminate_last :
      (process : ℕ) (m : Machine A.State)
      → m.table.current_process ≡ process
      → (m.process_at process).id < 12
      → (m.process_at process).filetype < 2
      → ((i : ℕ) → i < 12 → i ≢ (m.process_at process).id → m.table.processes i ≡ 0)
      → process_terminate A process m ≡ none
  process_terminate_last process m current within known alone =
      terminate_with process m none known
        ((unlink_lem m.table process (m.process_at process).id current within).1 alone)
