-- ===== src/Process/Start.antt =====
-- src/task/process.c: the start and the end of a process. `bytes` are the bytes of memory in a
-- state. `none` when the fuel of the path parser runs out, for a panic, and where the code reads
-- through a pointer that it has not set or that is an error code.
use udemy_kernel.Prelude.{
  ℕ, Option, none, some, List, Array, Result, ok, err, eio, enomem, einvarg, einformat, eistkn,
  update, ◌==◌, if◌then◌else◌,
}
use udemy_kernel.Str.{strncpy}
use udemy_kernel.PathParser.{Allocator, char_at}
use udemy_kernel.File.{Files, FileSystem, fopen, fstat, fread, fclose}
use udemy_kernel.Elf.{ElfFile, elf_header, elf_close}
use udemy_kernel.Elf.Load.{elf_load, loaded_at, mode_r}
use udemy_kernel.Task.{Tasks, task_new, task_free}
use udemy_kernel.Process.{
  Process, Processes, no_allocation, process_get, process_get_free_slot, process_switch,
  process_unlink, process_terminate_allocations,
}
use udemy_kernel.Process.Load.{process_map_memory, user_program_stack_size}

-- sizeof(struct process).
abbrev pub process_bytes : ℕ
process_bytes = 9364

-- What `process_init` makes of the structure.
abbrev pub zero_process : Process
zero_process = record {
  id = 0;
  filename = λ _. 0;
  task = 0;
  directory = 0;
  allocations = λ _. no_allocation;
  filetype = 0;
  program = 0;
  stack = 0;
  size = 0;
  arguments = record { argc = 0; argv = 0 };
}

-- The state of the layers that a process is made of. `process_at` and `elf_at` are the structures
-- at their addresses, `words` the words of memory.
pub record Machine (S : Type 0) : Type 0 where
  pub files : Files
  pub tasks : Tasks
  pub table : Processes
  pub process_at : ℕ → Process
  pub elf_at : ℕ → ElfFile
  pub words : Array
  pub state : S

module _ (A : Allocator) (ops : ℕ → FileSystem A.State) (bytes : A.State → Array) where
  open A use {State, kzalloc, kfree}

  -- The file is open: the address and size of its bytes in memory, or the error.
  unfoldable pub read_binary : Files → (fd : ℕ) → State → Result (ℕ × ℕ) × State
  read_binary f fd s =
      let (stat, s1) = fstat A ops f fd s in
      elim stat [
        | err e ↦ (err e, s1)
        | ok st ↦
            let (ptr, s2) = kzalloc st.filesize s1 in
            let (res, s3) = fread A ops f ptr st.filesize 1 fd s2 in
            let got : Result (ℕ × ℕ) × State = elim res [
              | err _ ↦ (err eio, kfree ptr s3)
              | ok n ↦ if n == 1 then (ok (ptr, st.filesize), s3) else (err eio, kfree ptr s3)
            ] in
            if ptr == 0 then (err enomem, s2) else got
      ]

  -- `fclose` of 0 changes nothing.
  unfoldable pub process_load_binary :
      (fuel disk_fs : ℕ)
      → (filename : List ℕ) → Process
      → Files
      → State
      → Option (Result Process × Files × State)
  unfolding read_binary
  process_load_binary fuel disk_fs filename p f s =
      elim (fopen A ops fuel disk_fs filename mode_r f s) [
        | none ↦ none
        | some (fd, f1, s1) ↦
            let (res, s2) = read_binary f1 fd s1 in
            let (_, f2, s3) = fclose A ops f1 fd s2 in
            let loaded : Result Process = elim res [
              | err e ↦ err e
              | ok (ptr, size) ↦ ok (record p { filetype = 1; program = ptr; size = size })
            ] in
            if fd == 0 then some (err eio, f1, s1) else some (loaded, f2, s3)
      ]

  -- The process, and the structure of the ELF file where it is one.
  unfoldable pub process_load_elf :
      (fuel disk_fs : ℕ)
      → (filename : List ℕ) → Process
      → Files
      → State
      → Option (Result (Process × ElfFile) × Files × State)
  process_load_elf fuel disk_fs filename p f s =
      elim (elf_load A ops bytes fuel disk_fs filename f s) [
        | none ↦ none
        | some (err e, f1, s1) ↦ some (err e, f1, s1)
        | some (ok (elf_file, file), f1, s1) ↦
            some (ok (record p { filetype = 0; program = elf_file }, file), f1, s1)
      ]

  -- A file that is not in the format of ELF is a binary.
  unfoldable pub process_load_data :
      (fuel disk_fs : ℕ)
      → (filename : List ℕ) → Process
      → Files
      → State
      → Option (Result (Process × ElfFile) × Files × State)
  unfolding process_load_elf process_load_binary
  process_load_data fuel disk_fs filename p f s =
      elim (process_load_elf fuel disk_fs filename p f s) [
        | none ↦ none
        | some (ok loaded, f1, s1) ↦ some (ok loaded, f1, s1)
        | some (err einformat, f1, s1) ↦ elim (process_load_binary fuel disk_fs filename p f1 s1) [
          | none ↦ none
          | some (err e, f2, s2) ↦ some (err e, f2, s2)
          | some (ok p', f2, s2) ↦ some (ok (p', loaded_at 0), f2, s2)
        ]
        | some (err e, f1, s1) ↦ some (err e, f1, s1)
      ]

  abbrev set_table : Machine State → Processes → Machine State
  set_table m ps = record m { table = ps }

  -- The rest of `process_load_for_slot`, once the process has its program and its stack: its task
  -- and its pages. A task that could not be made is an error code, which the code takes for a
  -- pointer.
  unfoldable pub start_process :
      (slot address : ℕ) → Process → ElfFile → Machine State → Option (Result ℕ × Machine State)
  start_process slot address p file m =
      let entry : Option ℕ =
        if p.filetype == 0 then some (elf_header (bytes m.state) file).e_entry else none in
      let (made, ts1, words1, s1) = task_new A m.tasks m.words address entry m.state in
      elim made [
        | err _ ↦ none
        | ok task ↦
            let p1 : Process = record p {
              task = task;
              directory = words1 (ts1.at task).page_directory;
            } in
            elim (process_map_memory p1 file (bytes s1) words1) [
              | none ↦ none
              | some (err e, words2) ↦
                  let (ts2, s2) = task_free A ts1 words2 task s1 in
                  some (err e, record m { tasks = ts2; words = words2; state = s2 })
              | some (ok _, words2) ↦ some (
                ok address,
                record m {
                  tasks = ts1;
                  words = words2;
                  state = s1;
                  process_at = λ a. if a == address then p1 else m.process_at a;
                  elf_at = λ a. if a == p1.program then file else m.elf_at a;
                  table = record m.table { processes = update m.table.processes slot address };
                },
              )
            ]
      ]

  -- The stack of a process that has its program, and the rest.
  unfoldable pub with_program :
      (filename : List ℕ)
      → (slot address : ℕ) → Process
      → ElfFile
      → Machine State
      → Option (Result ℕ × Machine State)
  with_program filename slot address p file m =
      let (stack, s1) = kzalloc user_program_stack_size m.state in
      let m1 : Machine State = record m { state = s1 } in
      let p1 : Process = record p {
        filename = strncpy p.filename (char_at filename) 108;
        stack = stack;
        id = slot;
      } in
      let started = start_process slot address p1 file m1 in
      if stack == 0 then some (err enomem, m1) else started

  -- The address of the process. Where the slot is in use the code reads its local pointer, which is
  -- not set.
  unfoldable pub process_load_for_slot :
      (fuel disk_fs : ℕ)
      → (filename : List ℕ) → (slot : ℕ) → Machine State
      → Option (Result ℕ × Machine State)
  process_load_for_slot fuel disk_fs filename slot m =
      let (address, s1) = kzalloc process_bytes m.state in
      let loaded : Option (Result ℕ × Machine State) =
        elim (process_load_data fuel disk_fs filename zero_process m.files s1) [
          | none ↦ none
          | some (err e, f1, s2) ↦ some (err e, record m { files = f1; state = s2 })
          | some (ok (p, file), f1, s2) ↦
              with_program filename slot address p file (record m { files = f1; state = s2 })
        ] in
      if process_get m.table slot == 0
      then (if address == 0 then some (err enomem, record m { state = s1 }) else loaded)
      else none

  unfoldable pub process_load :
      (fuel disk_fs : ℕ) → (filename : List ℕ) → Machine State → Option (Result ℕ × Machine State)
  process_load fuel disk_fs filename m = elim (process_get_free_slot m.table) [
    | err _ ↦ some (err eistkn, m)
    | ok slot ↦ process_load_for_slot fuel disk_fs filename slot m
  ]

  unfoldable pub process_load_switch :
      (fuel disk_fs : ℕ) → (filename : List ℕ) → Machine State → Option (Result ℕ × Machine State)
  unfolding process_switch
  process_load_switch fuel disk_fs filename m = elim (process_load fuel disk_fs filename m) [
    | none ↦ none
    | some (err e, m1) ↦ some (err e, m1)
    | some (ok process, m1) ↦ some (ok process, set_table m1 (process_switch m1.table process))
  ]

module _ (A : Allocator) where
  open A use {State, kzalloc, kfree}

  unfoldable pub process_free_program_data :
      Process → (elf_at : ℕ → ElfFile) → State → Result (Unit {0}) × State
  process_free_program_data p elf_at s =
      if p.filetype == 1
      then (ok tt, kfree p.program s)
      else if p.filetype == 0
      then (ok tt, elf_close A p.program (elf_at p.program) s)
      else (err einvarg, s)

  -- `process` is the address of the process; the structure itself is not freed.
  unfoldable pub process_terminate :
      (process : ℕ) → Machine State → Option (Result (Unit {0}) × Machine State)
  unfolding process_free_program_data
  process_terminate process m =
      let (p, words1, s1) =
        process_terminate_allocations A (m.process_at process) m.words m.state in
      let (res, s2) = process_free_program_data p m.elf_at s1 in
      let at' : ℕ → Process = λ a. if a == process then p else m.process_at a in
      let (ts, s3) = task_free A m.tasks words1 p.task (kfree p.stack s2) in
      elim res [
        | err e ↦ some (err e, record m { process_at = at'; words = words1; state = s2 })
        | ok _ ↦ elim (process_unlink m.table process p.id) [
          | none ↦ none
          | some ps ↦ some (
            ok tt,
            record m { tasks = ts; process_at = at'; words = words1; state = s3; table = ps },
          )
        ]
      ]
