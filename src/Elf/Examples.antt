-- ===== src/Elf/Examples.antt =====
-- A header with one program header, loaded at 0x400000.
use udemy_kernel.Elf.Spans.{process_pheaders_lem}
use udemy_kernel.Elf.Bounds.{Least, Greatest}
use udemy_kernel.Elf.{
  elf_program_header, elf_header, elf_process_pheaders, decode_phdr, elf_pheader,
}
use udemy_kernel.Prelude.{
  refl, arith, ℕ, ◌+◌, le32, ◌*◌, ◌%◌, ◌^◌, ◌≡◌, ◌⊎◌, ◌↔◌, Array, ok, err, einformat, ◌==◌,
  if◌then◌else◌,
}
use udemy_kernel.Elf.{ElfFile, ElfHeader, decode_elf_header, elf_validate_loaded}
use udemy_kernel.Elf.Validate.{IsAccepted, validate_lem}

-- The header lies at 4096: e_phoff is 52, e_phnum 1; the segment at offset 16 has 8 bytes.
abbrev image : Array
image a =
    if a == 4124
    then 52
    else if a == 4140
    then 1
    else if a == 4148
    then 1
    else if a == 4152
    then 16
    else if a == 4158
    then 0x40
    else if a == 4164
    then 8
    else 0

abbrev file : ElfFile
file = record {
  filename = λ _. 0;
  in_memory_size = 0;
  elf_memory = 4096;
  virtual_base_address = 0;
  virtual_end_address = 0;
  physical_base_address = 0;
  physical_end_address = 0;
}

abbrev header : ElfHeader
header = record (decode_elf_header image 4096) { e_phoff = 52 }

validate_lem_example :
    ((elf_validate_loaded header ≡ ok tt) ↔ IsAccepted header)
    × ((elf_validate_loaded header ≡ ok tt) ⊎ (elf_validate_loaded header ≡ err einformat))
validate_lem_example = validate_lem header

-- Only the first place where a program header can lie has type 1.
only_first : (x : ℕ) → x % 32 ≡ 20 → le32 image x ≡ 1 → x ≡ 4148
only_first x place is = ground (arith, place, is)

process_pheaders_lem_example :
    Least
      (elf_program_header image 4096)
      4096
      1
      (elf_process_pheaders image file).virtual_base_address
      (elf_process_pheaders image file).physical_base_address
    × Greatest
        (elf_program_header image 4096)
        4096
        1
        (elf_process_pheaders image file).virtual_end_address
        (elf_process_pheaders image file).physical_end_address
unfolding elf_program_header elf_header decode_elf_header decode_phdr elf_pheader
process_pheaders_lem_example =
    process_pheaders_lem image file 0 refl refl
      (λ j lt load.
        let here : (4148 + 32 * j) % 2 ^ 32 ≡ 4148 =
          only_first ((4148 + 32 * j) % 2 ^ 32) (omega arith) load in
        rw here (omega arith))
      (λ j lt load.
        let here : (4148 + 32 * j) % 2 ^ 32 ≡ 4148 =
          only_first ((4148 + 32 * j) % 2 ^ 32) (omega arith) load in
        rw here (omega arith))
      (omega arith) refl
