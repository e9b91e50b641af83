-- ===== src/Process/Binary.antt =====
-- A binary that is read is started, src/task/process.c: the load returns where allocations succeed.
use udemy_kernel.Prelude.{
  ℕ, ◌<◌, ◌≡◌, ◌≢◌, refl, true, false, Option, none, some, List, ◌∷◌, Array, ok, ◌==◌, arith,
}
use udemy_kernel.PathParser.{Allocator}
use udemy_kernel.File.{Files, FileSystem}
use udemy_kernel.Elf.{ElfFile}
use udemy_kernel.PathParser.Blocks.{Grants}
use udemy_kernel.Paging.Build.{paging_new_4gb}
use udemy_kernel.Paging.Build.Requests.{directory_requests, paging_new_4gb-real}
use udemy_kernel.Task.{Tasks, task_new, task_init}
use udemy_kernel.Process.{Process, process_get, process_switch, process_get_free_slot}
use udemy_kernel.Process.Load.{user_program_stack_size, process_map_memory}
use udemy_kernel.Process.Table.{free_slot_lem}
use udemy_kernel.Process.Start.{
  Machine, start_process, with_program, process_bytes, process_load_data, zero_process,
  process_load_for_slot, process_load, process_load_switch,
}
use udemy_kernel.Process.Started.{Switched, process_load_switch_lem}

-- The blocks of a program that is started: its stack, its task and its page directory.
abbrev pub start_requests : List ℕ
start_requests = user_program_stack_size ∷ 64 ∷ directory_requests

module _ (A : Allocator) (ops : ℕ → FileSystem A.State) (bytes : A.State → Array) where
  task_new-ok :
      (ts : Tasks) (mem : Array) (process : ℕ) (entry : Option ℕ) (s : A.State)
      → Grants A (64 ∷ directory_requests) s
      → (task : ℕ) × (ts' : Tasks) × (mem' : Array) × (s' : A.State) × (task_new A ts mem process
            entry s
          ≡ (ok task, ts', mem', s'))
  unfolding task_new task_init
  task_new-ok ts mem process entry s real =
      let some_task : ((A.kzalloc 64 s).0 == 0) ≡ false = ground (arith, real.0) in
      let some_directory : ((paging_new_4gb A 0b101 (A.kzalloc 64 s).1 mem).0 == 0) ≡ false =
        ground (arith, paging_new_4gb-real A 0b101 (A.kzalloc 64 s).1 mem real.1) in
      rw (task_new, some_task, some_directory) (_, _, _, _, refl)

  -- A binary with its stack is started.
  start_process-ok :
      (slot address : ℕ) (p : Process) (file : ElfFile) (m : Machine A.State)
      → Grants A (64 ∷ directory_requests) m.state
      → p.filetype ≡ 1
      → (m' : Machine A.State) × (start_process A ops bytes slot address p file m
          ≡ some (ok address, m'))
  unfolding start_process process_map_memory
  start_process-ok slot address p file m real binary =
      let (task, ts, words, s, made) = task_new-ok m.tasks m.words address none m.state real in
      rw (start_process, binary, made, binary) (_, refl)

  with_program-ok :
      (filename : List ℕ) (slot address : ℕ) (p : Process) (file : ElfFile) (m : Machine A.State)
      → Grants A start_requests m.state
      → p.filetype ≡ 1
      → (m' : Machine A.State) × (with_program A ops bytes filename slot address p file m
          ≡ some (ok address, m'))
  unfolding with_program
  with_program-ok filename slot address p file m real binary =
      let some_stack : ((A.kzalloc user_program_stack_size m.state).0 == 0) ≡ false =
        ground (arith, real.0) in
      let (m', went) = start_process-ok slot address _ file _ real.1 binary in
      rw (with_program, some_stack) (m', went)

  -- Where `slot` is the first free one of the 12 of the table, and the allocations of the process,
  -- of its stack, its task and its page directory succeed, a binary that process_load_data reads
  -- is loaded and becomes the current process: the load returns its address, the slot holds it and
  -- it carries the number of the slot, every other slot holds the process of before, and no other
  -- process is changed.
  pub process_load_switch_binary :
      (fuel disk_fs : ℕ) (filename : List ℕ) (slot : ℕ) (m : Machine A.State) (p : Process)
      (file : ElfFile) (f : Files) (s : A.State)
      → (A.kzalloc process_bytes m.state).0 ≢ 0
      → Grants A start_requests s
      → slot < 12
      → m.table.processes slot ≡ 0
      → ((i : ℕ) → i < slot → m.table.processes i ≢ 0)
      → process_load_data A ops bytes fuel disk_fs filename zero_process m.files
          (A.kzalloc process_bytes m.state).1
        ≡ some (ok (p, file), f, s)
      → p.filetype ≡ 1
      → (a : ℕ) × (m' : Machine A.State) × (process_load_switch A ops bytes fuel disk_fs filename m
          ≡ some (ok a, m'))
        × Switched slot m m' (ok a)
  unfolding process_load_switch process_load process_load_for_slot process_get
  process_load_switch_binary fuel disk_fs filename slot m p file f s held real within free before
        read binary =
      let slot_found : process_get_free_slot m.table ≡ ok slot =
        (free_slot_lem m.table).0 slot within free before in
      let unused : (process_get m.table slot == 0) ≡ true = ground (arith, free, within) in
      let address = (A.kzalloc process_bytes m.state).0 in
      let some_block : (address == 0) ≡ false = ground (arith, held) in
      let (m1, went) =
        with_program-ok filename slot address p file (record m { files = f; state = s }) real
          binary in
      let loaded : process_load A ops bytes fuel disk_fs filename m ≡ some (ok address, m1) =
        rw (process_load, slot_found, process_load_for_slot, read, unused, some_block) went in
      let m' = record m1 { table = process_switch m1.table address } in
      let switched : process_load_switch A ops bytes fuel disk_fs filename m
          ≡ some (ok address, m') =
        rw (process_load_switch, loaded) refl in
      (
        address,
        m',
        switched,
        process_load_switch_lem A ops bytes fuel disk_fs filename slot m m' (ok address) within free
            before switched,
      )
