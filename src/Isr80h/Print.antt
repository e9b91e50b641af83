-- ===== src/Isr80h/Print.antt =====
-- isr80h_command1_print of src/isr80h/io.c: from the memory of a task to the screen.
use udemy_kernel.Prelude.{ℕ, Array}
use udemy_kernel.Terminal.{Terminal}
use udemy_kernel.Task.{task_current}
use udemy_kernel.Task.CopyString.{seen}
use udemy_kernel.Isr80h.{Kernel, stack_item}

-- The address of the chunk of the current task, whose word is that of its directory.
abbrev pub chunk_of : {S : Type 0} → Kernel S → ℕ
chunk_of k = (k.machine.tasks.at (task_current k.machine.tasks)).page_directory

-- The directory of the current task.
abbrev pub directory_of : {S : Type 0} → Kernel S → ℕ
directory_of k = k.machine.words (k.machine.tasks.at (task_current k.machine.tasks)).page_directory

-- The byte `j` of the string that the first item of the task's stack points to, as the task sees
-- it.
abbrev pub message : {S : Type 0} → Kernel S → Array
message k = seen k.machine.words k.memory (directory_of k) (stack_item k 0)

-- The kernel after the command.
abbrev printed_kernel :
    {S : Type 0} → Kernel S → (words memory : Array) → (terminal : Terminal) → S → Kernel S
printed_kernel k words memory terminal s = record k {
  machine = record k.machine { words = words; state = s };
  memory = memory;
  terminal = terminal;
}
