-- ===== src/Isr80h.antt =====
-- src/isr80h: what the system commands do for the current task, on the state of the parts that they
-- call. A command returns what it puts into the register of the result, with the state after it.
-- `none` is fuel that runs out, or a panic.
mod Examples
pub mod Print
use udemy_kernel.Prelude.{
  ℕ, zero, suc, ◌+◌, ◌-◌, ◌%◌, ◌^◌, Option, none, some, List, [], ◌∷◌, Array, update, Errno, Result,
  ok, err, einvarg, ltb, ◌==◌, if◌then◌else◌,
}
use udemy_kernel.Str.{strlen, strncpy}
use udemy_kernel.PathParser.{Allocator}
use udemy_kernel.File.{FileSystem}
use udemy_kernel.Terminal.{Terminal, print, terminal_writechar}
use udemy_kernel.Keyboard.{KeyboardBuffer, keyboard_pop}
use udemy_kernel.Task.{
  Tasks, task_current, task_get_stack_item, task_virtual_address_to_physical, task_switch,
  task_next, copy_string_from_task,
}
use udemy_kernel.Process.{Process, process_malloc, process_free}
use udemy_kernel.Process.Arguments.{process_get_arguments, process_inject_arguments}
use udemy_kernel.Process.Start.{Machine, process_load_switch, process_terminate}

-- `memory` are the bytes of memory, and `keyboard` the ring of the current task's process.
pub record Kernel (S : Type 0) : Type 0 where
  pub machine : Machine S
  pub memory : Array
  pub terminal : Terminal
  pub keyboard : Option KeyboardBuffer

-- The item `index` of the stack of the current task.
abbrev pub stack_item : {S : Type 0} → Kernel S → (index : ℕ) → ℕ
stack_item k index =
    task_get_stack_item k.machine.tasks k.machine.words (task_current k.machine.tasks) index

-- The address of the process of the current task.
abbrev pub caller : {S : Type 0} → Kernel S → ℕ
caller k = (k.machine.tasks.at (task_current k.machine.tasks)).process

abbrev pub set_process : {S : Type 0} → Machine S → (process : ℕ) → Process → Machine S
set_process m process p = record m { process_at = λ a. if a == process then p else m.process_at a }

-- The `n` bytes of a string from `i` on.
abbrev pub text : Array → (n i : ℕ) → List ℕ
text str zero i = []
text str (suc n) i = str i ∷ text str n (i + 1)

-- "0:/" in front of a name of `n` bytes.
abbrev pub on_drive_0 : Array → (n : ℕ) → List ℕ
on_drive_0 name n = b'0' ∷ b':' ∷ b'/' ∷ text name n 0

-- An `int` result that is negative: the command returns the error.
pub data Reply : Type 0 where
  value : ℕ → Reply
  failed : Errno → Reply

unfoldable pub isr80h_command0_sum : {S : Type 0} → Kernel S → ℕ
isr80h_command0_sum k = (stack_item k 0 + stack_item k 1) % 2 ^ 32

-- The character as an `int`: from 128 on it is negative.
unfoldable pub isr80h_command2_getkey : {S : Type 0} → Kernel S → ℕ × Kernel S
isr80h_command2_getkey k =
    let (c, keyboard) = keyboard_pop k.keyboard in
    (if ltb c 128 then c else c + 2 ^ 32 - 256, record k { keyboard = keyboard })

unfoldable pub isr80h_command3_putchar : {S : Type 0} → Kernel S → ℕ × Kernel S
isr80h_command3_putchar k =
    (0, record k { terminal = terminal_writechar (stack_item k 0 % 2 ^ 8) 15 k.terminal })

-- The two words of the arguments are written at the physical address.
unfoldable pub isr80h_command8_get_program_arguments : {S : Type 0} → Kernel S → ℕ × Kernel S
isr80h_command8_get_program_arguments k =
    let m = k.machine in
    let at =
      task_virtual_address_to_physical m.tasks m.words (task_current m.tasks) (stack_item k 0) in
    let (argc, argv) = process_get_arguments (m.process_at (caller k)) in
    (0, record k { machine = record m { words = update (update m.words at argc) (at + 4) argv } })

module _ (A : Allocator) where
  open A use {State}

  -- `buf` is the address of the buffer on the stack of the kernel, which is in none of the page
  -- tables of the task.
  unfoldable pub isr80h_command1_print : (fuel buf : ℕ) → Kernel State → Option (ℕ × Kernel State)
  isr80h_command1_print fuel buf k =
      let m = k.machine in
      let (_, words, memory, s) =
        copy_string_from_task A m.tasks m.words k.memory (task_current m.tasks) (stack_item k 0) buf
          1024 m.state in
      elim (print fuel (λ i. memory (buf + i)) k.terminal) [
        | none ↦ none
        | some terminal ↦ some (
          0,
          record k {
            machine = record m { words = words; state = s };
            memory = memory;
            terminal = terminal;
          },
        )
      ]

  -- The pointer, 0 for NULL.
  unfoldable pub isr80h_command4_malloc : Kernel State → ℕ × Kernel State
  isr80h_command4_malloc k =
      let m = k.machine in
      let (ptr, p, words, s) =
        process_malloc A (m.process_at (caller k)) (stack_item k 0) m.words m.state in
      (ptr, record k { machine = record (set_process m (caller k) p) { words = words; state = s } })

  unfoldable pub isr80h_command5_free : Kernel State → ℕ × Kernel State
  isr80h_command5_free k =
      let m = k.machine in
      let (p, words, s) =
        process_free A (m.process_at (caller k)) (stack_item k 0) m.words m.state in
      (0, record k { machine = record (set_process m (caller k) p) { words = words; state = s } })

  -- The task that runs next is the current one of the state. `none` also where there is no task.
  unfoldable pub isr80h_command9_exit : Kernel State → Option (Kernel State)
  isr80h_command9_exit k = elim (process_terminate A (caller k) k.machine) [
    | none ↦ none
    | some (_, m) ↦ elim (task_next m.tasks) [
      | none ↦ none
      | some (_, ts) ↦ some (record k { machine = record m { tasks = ts } })
    ]
  ]

  module _ (ops : ℕ → FileSystem A.State) (bytes : A.State → Array) where
    -- `task_switch` and `task_return` to the process that is loaded.
    abbrev pub run_process : Machine State → (process : ℕ) → Machine State
    run_process m process = record m { tasks = task_switch m.tasks (m.process_at process).task }

    -- `buf` is the address of `filename`. The path has 108 bytes, which a name of more than 104
    -- bytes overruns; the bytes behind it are not modelled.
    unfoldable pub isr80h_command6_process_load_start :
        (fuel disk_fs buf : ℕ) → Kernel State → Option (ℕ × Kernel State)
    isr80h_command6_process_load_start fuel disk_fs buf k =
        let m = k.machine in
        let (res, words, memory, s) =
          copy_string_from_task A m.tasks m.words k.memory (task_current m.tasks) (stack_item k 0)
            buf 108 m.state in
        let k1 = record k { machine = record m { words = words; state = s }; memory = memory } in
        elim res [
          | err _ ↦ some (0, k1)
          | ok _ ↦ elim (strlen fuel (λ i. memory (buf + i))) [
            | none ↦ none
            | some n ↦
                elim (process_load_switch A ops bytes fuel disk_fs
                  (on_drive_0 (λ i. memory (buf + i)) n) k1.machine) [
                    | none ↦ none
                    | some (err _, m1) ↦ some (0, record k1 { machine = m1 })
                    | some (ok process, m1) ↦
                        some (0, record k1 { machine = run_process m1 process })
                  ]
          ]
        ]

    -- `arguments` are the arguments that the pointer on the stack leads to, none for NULL.
    -- `strncpy` copies at most 107 bytes; more than 104 overrun the path.
    unfoldable pub isr80h_command7_invoke_system_command :
        (fuel disk_fs : ℕ) → (arguments : List Array) → Kernel State → Option (Reply × Kernel State)
    isr80h_command7_invoke_system_command fuel disk_fs [] k = some (Reply.failed einvarg, k)
    isr80h_command7_invoke_system_command fuel disk_fs (root ∷ next) k = elim (strlen fuel root) [
      | none ↦ none
      | some zero ↦ some (Reply.failed einvarg, k)
      | some (suc n) ↦
          elim (process_load_switch A ops bytes fuel disk_fs
            (on_drive_0 root (if ltb 107 (suc n) then 107 else suc n)) k.machine) [
              | none ↦ none
              | some (err e, m1) ↦ some (Reply.failed e, record k { machine = m1 })
              | some (ok process, m1) ↦
                  let (res, p, words, memory, s) =
                    process_inject_arguments A (m1.process_at process) (root ∷ next) m1.words
                      k.memory m1.state in
                  let m2 = record (set_process m1 process p) { words = words; state = s } in
                  elim res [
                    | err e ↦ some (Reply.failed e, record k { machine = m2; memory = memory })
                    | ok _ ↦ some (
                      Reply.value 0,
                      record k { machine = run_process m2 process; memory = memory },
                    )
                  ]
            ]
    ]
