-- ===== src/Task.antt =====
-- src/task/task.c and task.h: the tasks, their list, and the memory that the kernel reads through
-- their pages. A task is kept under its address; a freed one keeps what it held. The page
-- directories are words of memory, as in Paging, and the allocator is a parameter.
pub mod List
pub mod CopyString
mod Examples
use udemy_kernel.Prelude.{
  ℕ, ◌+◌, ◌-◌, ◌*◌, ◌%◌, ◌^◌, ◌&&◌, Option, none, some, Array, Result, ok, err, eio, einvarg,
  enomem, leb, ltb, ◌==◌, if◌then◌else◌,
}
use udemy_kernel.PathParser.{Allocator}
use udemy_kernel.Str.{strncpy}
use udemy_kernel.Paging.{page_size, paging_get, paging_set, paging_map, paging_get_physical_address}
use udemy_kernel.Paging.Build.{paging_new_4gb, paging_free_4gb}

abbrev pub program_virtual_address : ℕ
program_virtual_address = 0x400000

abbrev pub stack_address_start : ℕ
stack_address_start = 0x3FF000

abbrev pub user_code_segment : ℕ
user_code_segment = 3 * 8 + 3

abbrev pub user_data_segment : ℕ
user_data_segment = 4 * 8 + 3

pub record Registers : Type 0 where
  pub edi : ℕ
  pub esi : ℕ
  pub ebp : ℕ
  pub ebx : ℕ
  pub edx : ℕ
  pub ecx : ℕ
  pub eax : ℕ
  pub ip : ℕ
  pub cs : ℕ
  pub flags : ℕ
  pub esp : ℕ
  pub ss : ℕ

-- Pointers are addresses, 0 for NULL.
pub record Task : Type 0 where
  pub page_directory : ℕ
  pub registers : Registers
  pub process : ℕ
  pub next : ℕ
  pub prev : ℕ

-- The static variables, and the tasks in memory. `paging` is the chunk that was last handed to
-- `paging_switch`.
pub record Tasks : Type 0 where
  pub current_task : ℕ
  pub task_tail : ℕ
  pub task_head : ℕ
  pub paging : ℕ
  pub at : ℕ → Task

-- `struct interrupt_frame`, without the field that is not used.
pub record InterruptFrame : Type 0 where
  pub edi : ℕ
  pub esi : ℕ
  pub ebp : ℕ
  pub ebx : ℕ
  pub edx : ℕ
  pub ecx : ℕ
  pub eax : ℕ
  pub ip : ℕ
  pub cs : ℕ
  pub flags : ℕ
  pub esp : ℕ
  pub ss : ℕ

abbrev pub zero_registers : Registers
zero_registers = record {
  edi = 0;
  esi = 0;
  ebp = 0;
  ebx = 0;
  edx = 0;
  ecx = 0;
  eax = 0;
  ip = 0;
  cs = 0;
  flags = 0;
  esp = 0;
  ss = 0;
}

abbrev pub zero_task : Task
zero_task = record {
  page_directory = 0;
  registers = zero_registers;
  process = 0;
  next = 0;
  prev = 0;
}

abbrev pub set_task : Tasks → ℕ → Task → Tasks
set_task ts a t = record ts { at = λ b. if b == a then t else ts.at b }

unfoldable pub task_current : Tasks → ℕ
task_current ts = ts.current_task

-- The current task is not NULL.
unfoldable pub task_get_next : Tasks → ℕ
task_get_next ts =
    let next = (ts.at ts.current_task).next in if next == 0 then ts.task_head else next

-- `task->prev->next = task->next`.
unfoldable pub bypass : Tasks → (task : ℕ) → Tasks
bypass ts task =
    let t = ts.at task in
    let before : Task = record (ts.at t.prev) { next = t.next } in
    if t.prev == 0 then ts else set_task ts t.prev before

unfoldable pub task_list_remove : Tasks → (task : ℕ) → Tasks
unfolding bypass task_get_next
task_list_remove ts task =
    let ts1 = bypass ts task in
    let t = ts1.at task in
    let ts2 : Tasks = record ts1 {
      task_head = if task == ts1.task_head then t.next else ts1.task_head;
      task_tail = if task == ts1.task_tail then t.prev else ts1.task_tail;
    } in
    record ts2 {
      current_task = if task == ts2.current_task then task_get_next ts2 else ts2.current_task;
    }

unfoldable pub task_switch : Tasks → (task : ℕ) → Tasks
task_switch ts task = record ts { current_task = task; paging = (ts.at task).page_directory }

-- The task whose registers are restored; `none` is the panic.
unfoldable pub task_next : Tasks → Option (Registers × Tasks)
unfolding task_get_next task_switch
task_next ts =
    let next_task = task_get_next ts in
    if next_task == 0 then none else some ((ts.at next_task).registers, task_switch ts next_task)

unfoldable pub task_save_state : Tasks → (task : ℕ) → InterruptFrame → Tasks
task_save_state ts task frame =
    let saved : Registers = record {
      edi = frame.edi;
      esi = frame.esi;
      ebp = frame.ebp;
      ebx = frame.ebx;
      edx = frame.edx;
      ecx = frame.ecx;
      eax = frame.eax;
      ip = frame.ip;
      cs = frame.cs;
      flags = frame.flags;
      esp = frame.esp;
      ss = frame.ss;
    } in
    set_task ts task (record (ts.at task) { registers = saved })

-- `none` is the panic.
unfoldable pub task_current_save_state : Tasks → InterruptFrame → Option Tasks
unfolding task_current task_save_state
task_current_save_state ts frame =
    if task_current ts == 0 then none else some (task_save_state ts (task_current ts) frame)

-- `none` is the panic.
unfoldable pub task_run_first_ever_task : Tasks → Option (Registers × Tasks)
unfolding task_switch
task_run_first_ever_task ts =
    if ts.current_task == 0
    then none
    else some ((ts.at ts.task_head).registers, task_switch ts ts.task_head)

-- The item of the stack that the pages of the task show; `mem` are the words of memory.
unfoldable pub task_get_stack_item : Tasks → (mem : Array) → (task index : ℕ) → ℕ
task_get_stack_item ts mem task index =
    let directory = mem (ts.at task).page_directory in
    mem (
      paging_get_physical_address mem directory (((ts.at task).registers.esp + 4 * index) % 2 ^ 32))

unfoldable pub task_virtual_address_to_physical : Tasks → (mem : Array) → (task virt : ℕ) → ℕ
task_virtual_address_to_physical ts mem task virt =
    paging_get_physical_address mem (mem (ts.at task).page_directory) virt

-- The `n` bytes from `start` on replaced.
abbrev pub place : Array → (start n : ℕ) → Array → Array
place bytes start n text a = if leb start a && ltb a (start + n) then text (a - start) else bytes a

-- The task is the last of the list.
unfoldable pub task_link : Tasks → (task : ℕ) → Tasks
task_link ts task =
    let ts1 = set_task ts ts.task_tail (record (ts.at ts.task_tail) { next = task }) in
    let ts2 = set_task ts1 task (record (ts1.at task) { prev = ts1.task_tail }) in
    if ts.task_head == 0
    then record ts { task_head = task; task_tail = task; current_task = task }
    else record ts2 { task_tail = task }

module _ (A : Allocator) where
  open A use {State, kzalloc, kfree}

  -- `entry` is the entry point in the header of a program that is an ELF file. `none` is a failed
  -- allocation of the pages.
  unfoldable pub task_init :
      Tasks
      → (mem : Array) → (task process : ℕ) → (entry : Option ℕ) → State
      → Result (Unit {0}) × Tasks × Array × State
  task_init ts mem task process entry s =
      let (chunk, s1, mem1) = paging_new_4gb A 0b101 s mem in
      let start : Registers = record zero_registers {
        ip = elim entry [ none ↦ program_virtual_address | some e_entry ↦ e_entry ];
        ss = user_data_segment;
        cs = user_code_segment;
        esp = stack_address_start;
        flags = 0x202;
      } in
      let made : Task = record zero_task {
        page_directory = chunk;
        registers = start;
        process = process;
      } in
      if chunk == 0
      then (err eio, set_task ts task zero_task, mem1, s1)
      else (ok tt, set_task ts task made, mem1, s1)

  unfoldable pub task_free : Tasks → (mem : Array) → (task : ℕ) → State → Tasks × State
  task_free ts mem task s =
      let s1 = paging_free_4gb A (ts.at task).page_directory mem s in
      (task_list_remove ts task, kfree task s1)

  -- Where the allocation fails, NULL is freed as a task.
  unfoldable pub task_new :
      Tasks
      → (mem : Array) → (process : ℕ) → (entry : Option ℕ) → State
      → Result ℕ × Tasks × Array × State
  task_new ts mem process entry s =
      let (task, s1) = kzalloc 64 s in
      let (res, ts1, mem1, s2) = task_init ts mem task process entry s1 in
      let (ts0, s0) = task_free ts mem task s1 in
      let (ts3, s3) = task_free ts1 mem1 task s2 in
      if task == 0 then (err enomem, ts0, mem, s0) else elim res [
        | err e ↦ (err e, ts3, mem1, s3)
        | ok _ ↦ (ok task, task_link ts1 task, mem1, s2)
      ]

  -- `mem` are the words of the memory of page directories and tables, and `bytes` the bytes of the
  -- rest: the new block, the string and the buffer at `phys` are in none of those tables. `max` is
  -- not negative, and the string lies neither in the new block nor in the buffer.
  unfoldable pub copy_string_from_task :
      Tasks
      → (mem bytes : Array) → (task virt phys max : ℕ) → State
      → Result (Unit {0}) × Array × Array × State
  copy_string_from_task ts mem bytes task virt phys max s =
      let directory = mem (ts.at task).page_directory in
      let (tmp, s1) = kzalloc max s in
      let bytes1 = place bytes tmp max (λ _. 0) in
      let old_entry = paging_get mem directory tmp in
      let (_, mem1) = paging_map mem directory tmp tmp 0b111 in
      let seen : Array =
        λ i. bytes1 (paging_get_physical_address mem1 directory ((virt + i) % 2 ^ 32)) in
      let bytes2 = place bytes1 tmp max (strncpy (λ i. bytes1 (tmp + i)) seen max) in
      let (res, mem2) = paging_set mem1 directory tmp old_entry in
      let bytes3 =
        place bytes2 phys max (strncpy (λ i. bytes2 (phys + i)) (λ i. bytes2 (tmp + i)) max) in
      if leb page_size max
      then (err einvarg, mem, bytes, s)
      else if tmp == 0
      then (err enomem, mem, bytes, s1)
      else elim res [
        | err _ ↦ (err eio, mem2, bytes2, kfree tmp s1)
        | ok done ↦ (ok done, mem2, bytes3, kfree tmp s1)
      ]
