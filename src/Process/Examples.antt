-- ===== src/Process/Examples.antt =====
-- A process with an empty table of allocations, and a table of two processes.
use udemy_kernel.Prelude.{
  ℕ, ◌+◌, ◌-◌, ◌*◌, ◌/◌, ◌≡◌, ◌≢◌, ◌&&◌, refl, Array, some, none, ok, err, List, [], ◌∷◌, ltb, leb,
  ◌==◌, if◌then◌else◌, arith, Option, Result, true, eio,
}
use udemy_kernel.PathParser.{
  Allocator, parse_parts, parse_path_part, get_path_part, pathparser_parse, get_drive_by_path,
}
use udemy_kernel.PathParser.Blocks.{Grants}
use udemy_kernel.Process.{Process, Processes, no_allocation, process_get}
use udemy_kernel.File.{
  FileSystem, fopen, Files, free_descriptor, file_get_mode_by_string, fstat, file_get_descriptor,
  fread, fclose,
}
use udemy_kernel.Elf.Load.{loaded_at, elf_load}
use udemy_kernel.Task.{zero_task}
use udemy_kernel.Elf.{
  ElfFile, elf_process_loaded, elf_validate_loaded, elf_valid_signature, elf_header,
}
use udemy_kernel.Str.{tonumericdigit, strncmp, strnlen, isdigit}
use udemy_kernel.Disk.{disk_get}
use udemy_kernel.Process.Start.{
  zero_process, Machine, process_terminate, process_load_switch, process_load_data,
}
use udemy_kernel.Memory.{memcmp}
use udemy_kernel.Process.Started.{Switched}
use udemy_kernel.Process.Binary.{start_requests, process_load_switch_binary}
use udemy_kernel.Process.End.{process_terminate_lem}

-- A directory at 4096 whose 1024 tables follow it in memory.
abbrev tables : Array
tables a = if leb 4096 a && ltb a 8192 then (a - 4096) / 4 * 4096 + 8192 else 0

abbrev blank : Process
blank = record {
  id = 0;
  filename = λ _. 0;
  task = 8;
  directory = 4096;
  allocations = λ _. no_allocation;
  filetype = 1;
  program = 0x2000000;
  stack = 0x3000000;
  size = 100;
  arguments = record { argc = 0; argv = 0 };
}

-- Blocks one after the other from 0x1001000 on, behind the tables.
abbrev page_blocks : Allocator
page_blocks = record { State = ℕ; kzalloc = λ n s. (0x1001000 + 4096 * s, s + n); kfree = λ a s. s }

-- Processes at the places 0 and 2.
abbrev two_processes : Processes
two_processes = record {
  current_process = 64;
  processes = λ i. if i == 0 then 64 else if i == 2 then 128 else 0;
}

-- The two processes, with no task in the list and no open file.
abbrev idle : Machine ℕ
idle = record {
  files = record { filesystems = λ _. 0; file_descriptors = λ _. none };
  tasks = record {
    current_task = 8;
    task_tail = 8;
    task_head = 8;
    paging = 0;
    at = λ _. zero_task;
  };
  table = two_processes;
  process_at = λ a. if a == 64 then blank else record blank { id = 2; task = 16 };
  elf_at = λ _. loaded_at 0;
  words = tables;
  state = 0;
}

process_terminate_lem_example :
    (m' : Machine ℕ) × (process_terminate page_blocks 64 idle ≡ some (ok tt, m'))
    × (m'.table.current_process ≡ 128)
    × (process_get m'.table 0 ≡ 0)
    × ((j : ℕ) → j ≢ 0 → process_get m'.table j ≡ process_get two_processes j)
process_terminate_lem_example =
    process_terminate_lem page_blocks 64 idle 2 refl (omega arith) (omega arith) (omega arith)
      (omega arith) (omega arith) (λ i lt other. ground (arith, lt, other))

-- Blocks of 4096 bytes, one after the other.
abbrev fresh_blocks : Allocator
fresh_blocks = record { State = ℕ; kzalloc = λ n s. (s + 1, s + 4096); kfree = λ a s. s }

fresh-Grants : (sizes : List ℕ) (s : ℕ) → Grants fresh_blocks sizes s
fresh-Grants [] s = tt
fresh-Grants (n ∷ sizes) s = (omega arith, fresh-Grants sizes (s + 4096))

-- A file system whose files have 100 bytes, all of them 0, which are no ELF header.
abbrev zero_files : FileSystem ℕ
zero_files = record {
  resolve = λ s. (true, s);
  open_file = λ path mode s. (ok 5, s);
  read = λ d size nmemb out_ptr s. (ok nmemb, s);
  seek = λ d offset whence s. (err eio, s);
  stat = λ d s. (ok (record { flags = 0; filesize = 100 }), s);
  close = λ d s. (ok tt, s);
}

-- 0:/a
abbrev program_path : List ℕ
program_path = 48 ∷ 58 ∷ 47 ∷ 97 ∷ []

abbrev starting : Machine ℕ
starting = record {
  files = idle.files;
  tasks = idle.tasks;
  table = two_processes;
  process_at = idle.process_at;
  elf_at = idle.elf_at;
  words = tables;
  state = 0;
}

abbrev binary_read : Option (Result (Process × ElfFile) × Files × ℕ)
binary_read =
    process_load_data fresh_blocks (λ _. zero_files) (λ _ _. 0) 5 7 program_path zero_process
      starting.files 4096

abbrev read_result : Option (Result (Process × ElfFile) × Files × ℕ) → Process × ElfFile × Files × ℕ
read_result (some (ok (p, file), f, s)) = (p, file, f, s)
read_result _ = (zero_process, loaded_at 0, starting.files, 0)

abbrev read_file : Process × ElfFile × Files × ℕ
read_file = read_result binary_read

binary_is_read :
    (binary_read ≡ some (ok (read_file.0, read_file.1), read_file.2, read_file.3))
    × ((read_file.0).filetype ≡ 1)
unfolding process_load_data elf_load fopen pathparser_parse get_drive_by_path strnlen isdigit memcmp
    parse_parts parse_path_part get_path_part tonumericdigit disk_get file_get_mode_by_string
    strncmp free_descriptor fstat file_get_descriptor fread elf_process_loaded elf_validate_loaded
    elf_valid_signature elf_header fclose
binary_is_read = (refl, refl)

process_load_switch_binary_example :
    (a : ℕ) × (m' : Machine ℕ) × (process_load_switch fresh_blocks
        (λ _. zero_files)
        (λ _ _. 0)
        5
        7
        program_path
        starting
      ≡ some (ok a, m'))
    × Switched 1 starting m' (ok a)
process_load_switch_binary_example =
    process_load_switch_binary fresh_blocks (λ _. zero_files) (λ _ _. 0) 5 7 program_path 1 starting
      (read_file.0) (read_file.1) (read_file.2) (read_file.3) (omega arith)
      (fresh-Grants start_requests (read_file.3)) (omega arith) refl (λ i lt. ground (arith, lt))
      (binary_is_read.0) (binary_is_read.1)
