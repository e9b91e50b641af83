-- ===== src/Isr80h/Examples.antt =====
-- A task that prints "hi" from its page 0x400000.
use udemy_kernel.Prelude.{ℕ, ◌+◌, ◌-◌, ◌*◌, ◌/◌, none, Array, leb, ltb, ◌&&◌, ◌==◌, if◌then◌else◌}
use udemy_kernel.PathParser.{Allocator}
use udemy_kernel.Elf.Load.{loaded_at}
use udemy_kernel.Task.{zero_task}
use udemy_kernel.Process.Start.{zero_process}
use udemy_kernel.Isr80h.{Kernel}

-- The chunk at 4 has a directory at 4096, whose tables lie behind it and map every page to frame 0;
-- the word at 0 is the top of the task's stack.
abbrev words : Array
words a =
    if a == 0
    then 0x400010
    else if a == 4
    then 4096
    else if leb 4096 a && ltb a 8192
    then (a - 4096) / 4 * 4096 + 8192
    else 0

-- "hi" at 0x10.
abbrev letters : Array
letters a = if a == 16 then b'h' else if a == 17 then b'i' else 0

-- Every block lies at 0x1000000.
abbrev one_block : Allocator
one_block = record { State = ℕ; kzalloc = λ n s. (0x1000000, s + 1); kfree = λ a s. s }

abbrev kernel : Kernel ℕ
kernel = record {
  machine = record {
    files = record { filesystems = λ _. 0; file_descriptors = λ _. none };
    tasks = record {
      current_task = 8;
      task_tail = 8;
      task_head = 8;
      paging = 4;
      at = λ _. record zero_task { page_directory = 4 };
    };
    table = record { current_process = 0; processes = λ _. 0 };
    process_at = λ _. zero_process;
    elf_at = λ _. loaded_at 0;
    words = words;
    state = 0;
  };
  memory = letters;
  terminal = record { video = λ _. 0; row = 0; col = 79 };
  keyboard = none;
}
