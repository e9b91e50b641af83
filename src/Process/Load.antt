-- ===== src/Process/Load.antt =====
-- src/task/process.c: the pages of a program, of its stack and of the screen in a process. `bytes`
-- are the bytes of memory that hold the ELF file.
use udemy_kernel.Prelude.{
  ℕ, zero, suc, ◌+◌, ◌-◌, ◌*◌, ◌%◌, ◌^◌, bit_and, Option, none, some, Array, Result, ok, err, ◌==◌,
  if◌then◌else◌,
}
use udemy_kernel.Paging.{paging_map_to, paging_align_address, paging_align_to_lower_page}
use udemy_kernel.Elf.{ElfFile, Elf32Phdr, elf_header, elf_phdr_phys_address, elf_program_header}
use udemy_kernel.Process.{Process}

abbrev pub user_program_stack_size : ℕ
user_program_stack_size = 1024 * 16

abbrev pub stack_address_end : ℕ
stack_address_end = 0x3FF000 - user_program_stack_size

-- Both calls of `paging_map_to` are made whatever the first returns.
unfoldable pub process_map_binary : Process → (mem : Array) → Array
process_map_binary p mem =
    let (_, mem1) =
      paging_map_to mem p.directory 0x400000 p.program
        (paging_align_address ((p.program + p.size) % 2 ^ 32)) 0b111 in
    (paging_map_to mem1 p.directory 0xB8000 0xB8000 (paging_align_address (0xB8000 + 20 * 80 * 2))
      0b111).1

-- PF_W is 2.
unfoldable pub map_segment :
    Process → ElfFile → Elf32Phdr → (mem : Array) → Result (Unit {0}) × Array
map_segment p file phdr mem =
    let phys = elf_phdr_phys_address file phdr in
    paging_map_to mem p.directory (paging_align_to_lower_page phdr.p_vaddr)
      (paging_align_to_lower_page phys) (paging_align_address ((phys + phdr.p_memsz) % 2 ^ 32))
      (if bit_and phdr.p_flags 2 == 0 then 0b101 else 0b111)

-- The loop of `process_map_elf` with `k` rounds left, over the program headers.
pub map_loop :
    Process
    → ElfFile
    → (phdrs : ℕ → Elf32Phdr) → (k i : ℕ) → (mem : Array) → Result (Unit {0}) × Array
map_loop p file phdrs zero i mem = (ok tt, mem)
map_loop p file phdrs (suc k) i mem =
    let (res, mem1) = map_segment p file (phdrs i) mem in
    let rest = map_loop p file phdrs k (i + 1) mem1 in
    elim res [ err e ↦ (err e, mem1) | ok _ ↦ rest ]

unfoldable pub process_map_elf : Process → ElfFile → (bytes mem : Array) → Result (Unit {0}) × Array
process_map_elf p file bytes mem =
    map_loop p file (elf_program_header bytes file.elf_memory) (elf_header bytes file).e_phnum 0 mem

-- The file types are PROCESS_FILETYPE_ELF, 0, and PROCESS_FILETYPE_BINARY, 1; `none` is the panic.
unfoldable pub process_map_memory :
    Process → ElfFile → (bytes mem : Array) → Option (Result (Unit {0}) × Array)
process_map_memory p file bytes mem =
    let with_stack : Array → Result (Unit {0}) × Array = λ mem1. (
      ok tt,
      (paging_map_to mem1 p.directory stack_address_end p.stack
          (paging_align_address ((p.stack + user_program_stack_size) % 2 ^ 32)) 0b111).1,
    ) in
    let (res, mem1) = process_map_elf p file bytes mem in
    let mapped : Result (Unit {0}) × Array = elim res [
      | err e ↦ (err e, mem1)
      | ok _ ↦ with_stack mem1
    ] in
    if p.filetype == 0
    then some mapped
    else if p.filetype == 1
    then some (with_stack (process_map_binary p mem))
    else none
