-- ===== src/Elf/Load.antt =====
-- elf_load of src/loader/formats/elfloader.c, over the file layer. `bytes` are the bytes of memory
-- in a state. `none` when the fuel of the path parser runs out.
use udemy_kernel.Prelude.{
  ℕ, Option, none, some, List, [], ◌∷◌, Array, Result, ok, err, eio, ◌==◌, if◌then◌else◌,
}
use udemy_kernel.PathParser.{Allocator, char_at}
use udemy_kernel.File.{Files, FileSystem, fopen, fstat, fread, fclose}
use udemy_kernel.Elf.{ElfFile, elf_process_loaded}

-- sizeof(struct elf_file).
abbrev pub elf_file_bytes : ℕ
elf_file_bytes = 132

abbrev pub mode_r : Array
mode_r = char_at (b'r' ∷ [])

-- The zeroed structure, with the address of the file in memory.
abbrev pub loaded_at : ℕ → ElfFile
loaded_at elf_memory = record {
  filename = λ _. 0;
  in_memory_size = 0;
  elf_memory = elf_memory;
  virtual_base_address = 0;
  virtual_end_address = 0;
  physical_base_address = 0;
  physical_end_address = 0;
}

module _ (A : Allocator) (ops : ℕ → FileSystem A.State) (bytes : A.State → Array) where
  open A use {State, kzalloc}

  -- The file is open, and a `struct elf_file` allocated: its fields, or the error.
  unfoldable pub read_elf : Files → (fd : ℕ) → State → Result ElfFile × State
  read_elf f fd s =
      let (stat, s1) = fstat A ops f fd s in
      elim stat [
        | err e ↦ (err e, s1)
        | ok st ↦
            let (elf_memory, s2) = kzalloc st.filesize s1 in
            let (res, s3) = fread A ops f elf_memory st.filesize 1 fd s2 in
            elim res [
              | err e ↦ (err e, s3)
              | ok _ ↦
                  let (checked, file) = elf_process_loaded (bytes s3) (loaded_at elf_memory) in
                  (elim checked [ err e ↦ err e | ok _ ↦ ok file ], s3)
            ]
      ]

  -- The address of the structure, and its fields. Its allocation is taken to succeed: the code
  -- writes through it untested. `fclose` of 0 changes nothing.
  unfoldable pub elf_load :
      (fuel disk_fs : ℕ)
      → (filename : List ℕ) → Files
      → State
      → Option (Result (ℕ × ElfFile) × Files × State)
  unfolding read_elf
  elf_load fuel disk_fs filename f s =
      let (elf_file, s1) = kzalloc elf_file_bytes s in
      elim (fopen A ops fuel disk_fs filename mode_r f s1) [
        | none ↦ none
        | some (fd, f1, s2) ↦
            let (res, s3) = read_elf f1 fd s2 in
            let (_, f2, s4) = fclose A ops f1 fd s3 in
            if fd == 0
            then some (err eio, f1, s2)
            else some (elim res [ err e ↦ err e | ok file ↦ ok (elf_file, file) ], f2, s4)
      ]
