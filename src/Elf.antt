-- ===== src/Elf.antt =====
-- src/loader/formats/elf.c, elf.h, elfloader.c and elfloader.h: the header of an ELF file in
-- memory, its checks, and the addresses that the loaded segments span. The file lies in the bytes
-- of memory `mem` from the address `elf_memory` on; offsets are taken to be below 2^31.
pub mod Bounds
pub mod Spans
pub mod Validate
pub mod Load
mod Examples
use udemy_kernel.Prelude.{
  is_zero, ℕ, zero, suc, ◌+◌, ◌*◌, ◌%◌, ◌^◌, Bool, ◌&&◌, ◌||◌, not, List, [], ◌∷◌, Array, le16,
  le32, field, ℤ, pos, negsuc, Result, ok, err, einformat, leb, ◌==◌, if◌then◌else◌, true, false,
}
use udemy_kernel.Memory.{memcmp}
use udemy_kernel.PathParser.{Allocator, char_at}

pub record Elf32Phdr : Type 0 where
  pub p_type : ℕ
  pub p_offset : ℕ
  pub p_vaddr : ℕ
  pub p_paddr : ℕ
  pub p_filesz : ℕ
  pub p_memsz : ℕ
  pub p_flags : ℕ
  pub p_align : ℕ

pub record Elf32Shdr : Type 0 where
  pub sh_name : ℕ
  pub sh_type : ℕ
  pub sh_flags : ℕ
  pub sh_addr : ℕ
  pub sh_offset : ℕ
  pub sh_size : ℕ
  pub sh_link : ℕ
  pub sh_info : ℕ
  pub sh_addralign : ℕ
  pub sh_entsize : ℕ

pub record ElfHeader : Type 0 where
  pub e_ident : Array
  pub e_type : ℕ
  pub e_machine : ℕ
  pub e_version : ℕ
  pub e_entry : ℕ
  pub e_phoff : ℕ
  pub e_shoff : ℕ
  pub e_flags : ℕ
  pub e_ehsize : ℕ
  pub e_phentsize : ℕ
  pub e_phnum : ℕ
  pub e_shentsize : ℕ
  pub e_shnum : ℕ
  pub e_shstrndx : ℕ

pub record ElfFile : Type 0 where
  pub filename : Array
  pub in_memory_size : ℕ
  pub elf_memory : ℕ
  pub virtual_base_address : ℕ
  pub virtual_end_address : ℕ
  pub physical_base_address : ℕ
  pub physical_end_address : ℕ

-- The structures at an address of memory.
unfoldable pub decode_elf_header : Array → (a : ℕ) → ElfHeader
decode_elf_header mem a = record {
  e_ident = field mem a;
  e_type = le16 mem (a + 16);
  e_machine = le16 mem (a + 18);
  e_version = le32 mem (a + 20);
  e_entry = le32 mem (a + 24);
  e_phoff = le32 mem (a + 28);
  e_shoff = le32 mem (a + 32);
  e_flags = le32 mem (a + 36);
  e_ehsize = le16 mem (a + 40);
  e_phentsize = le16 mem (a + 42);
  e_phnum = le16 mem (a + 44);
  e_shentsize = le16 mem (a + 46);
  e_shnum = le16 mem (a + 48);
  e_shstrndx = le16 mem (a + 50);
}

unfoldable pub decode_phdr : Array → (a : ℕ) → Elf32Phdr
decode_phdr mem a = record {
  p_type = le32 mem a;
  p_offset = le32 mem (a + 4);
  p_vaddr = le32 mem (a + 8);
  p_paddr = le32 mem (a + 12);
  p_filesz = le32 mem (a + 16);
  p_memsz = le32 mem (a + 20);
  p_flags = le32 mem (a + 24);
  p_align = le32 mem (a + 28);
}

unfoldable pub decode_shdr : Array → (a : ℕ) → Elf32Shdr
decode_shdr mem a = record {
  sh_name = le32 mem a;
  sh_type = le32 mem (a + 4);
  sh_flags = le32 mem (a + 8);
  sh_addr = le32 mem (a + 12);
  sh_offset = le32 mem (a + 16);
  sh_size = le32 mem (a + 20);
  sh_link = le32 mem (a + 24);
  sh_info = le32 mem (a + 28);
  sh_addralign = le32 mem (a + 32);
  sh_entsize = le32 mem (a + 36);
}

abbrev pub elf_signature : List ℕ
elf_signature = 0x7f ∷ b'E' ∷ b'L' ∷ b'F' ∷ []

unfoldable pub elf_valid_signature : (buffer : Array) → Bool
elf_valid_signature buffer = is_zero (memcmp buffer (char_at elf_signature) 4)

-- ELFCLASSNONE and ELFCLASS32.
unfoldable pub elf_valid_class : ElfHeader → Bool
elf_valid_class header = header.e_ident 4 == 0 || header.e_ident 4 == 1

-- ELFDATANONE and ELFDATA2LSB.
unfoldable pub elf_valid_encoding : ElfHeader → Bool
elf_valid_encoding header = header.e_ident 5 == 0 || header.e_ident 5 == 1

-- ET_EXEC, and an entry point from PEACHOS_PROGRAM_VIRTUAL_ADDRESS on.
unfoldable pub elf_is_executable : ElfHeader → Bool
elf_is_executable header = header.e_type == 2 && leb 0x400000 header.e_entry

unfoldable pub elf_has_program_header : ElfHeader → Bool
elf_has_program_header header = not (header.e_phoff == 0)

unfoldable pub elf_get_entry : ElfHeader → ℕ
elf_get_entry header = header.e_entry

unfoldable pub elf_memory : ElfFile → ℕ
elf_memory file = file.elf_memory

-- The structure that the pointer of the C function is to.
unfoldable pub elf_header : Array → ElfFile → ElfHeader
unfolding decode_elf_header
elf_header mem file = decode_elf_header mem file.elf_memory

-- Addresses, for a header at the address `a`; 0 for NULL.
unfoldable pub elf_sheader : Array → (a : ℕ) → ℕ
unfolding decode_elf_header
elf_sheader mem a = (a + (decode_elf_header mem a).e_shoff) % 2 ^ 32

unfoldable pub elf_pheader : Array → (a : ℕ) → ℕ
unfolding decode_elf_header
elf_pheader mem a =
    let e_phoff = (decode_elf_header mem a).e_phoff in
    if e_phoff == 0 then 0 else (a + e_phoff) % 2 ^ 32

unfoldable pub elf_program_header : Array → (a index : ℕ) → Elf32Phdr
unfolding elf_pheader decode_phdr
elf_program_header mem a index = decode_phdr mem ((elf_pheader mem a + 32 * index) % 2 ^ 32)

unfoldable pub elf_section : Array → (a index : ℕ) → Elf32Shdr
unfolding elf_sheader decode_shdr
elf_section mem a index = decode_shdr mem ((elf_sheader mem a + 40 * index) % 2 ^ 32)

unfoldable pub elf_phdr_phys_address : ElfFile → Elf32Phdr → ℕ
elf_phdr_phys_address file phdr = (file.elf_memory + phdr.p_offset) % 2 ^ 32

unfoldable pub elf_str_table : Array → (a : ℕ) → ℕ
unfolding elf_section decode_elf_header
elf_str_table mem a =
    (a + (elf_section mem a (decode_elf_header mem a).e_shstrndx).sh_offset) % 2 ^ 32

unfoldable pub elf_virtual_base : ElfFile → ℕ
elf_virtual_base file = file.virtual_base_address

unfoldable pub elf_virtual_end : ElfFile → ℕ
elf_virtual_end file = file.virtual_end_address

unfoldable pub elf_phys_base : ElfFile → ℕ
elf_phys_base file = file.physical_base_address

unfoldable pub elf_phys_end : ElfFile → ℕ
elf_phys_end file = file.physical_end_address

unfoldable pub elf_validate_loaded : ElfHeader → Result (Unit {0})
elf_validate_loaded header =
    if elf_valid_signature header.e_ident
      && (elf_valid_class header && (elf_valid_encoding header && elf_has_program_header header))
    then ok tt
    else err einformat

-- The first half, on the base addresses, and the second, on the end addresses.
unfoldable pub lower_base : ElfFile → Elf32Phdr → ElfFile
lower_base file phdr =
    let lowered : ElfFile = record file {
      virtual_base_address = phdr.p_vaddr;
      physical_base_address = (file.elf_memory + phdr.p_offset) % 2 ^ 32;
    } in
    if leb phdr.p_vaddr file.virtual_base_address || file.virtual_base_address == 0
    then lowered
    else file

unfoldable pub raise_end : ElfFile → Elf32Phdr → ElfFile
raise_end file phdr =
    let end_virtual_address = (phdr.p_vaddr + phdr.p_filesz) % 2 ^ 32 in
    let raised : ElfFile = record file {
      virtual_end_address = end_virtual_address;
      physical_end_address = (file.elf_memory + phdr.p_offset + phdr.p_filesz) % 2 ^ 32;
    } in
    if leb file.virtual_end_address end_virtual_address || file.virtual_end_address == 0
    then raised
    else file

unfoldable pub elf_process_phdr_pt_load : ElfFile → Elf32Phdr → ElfFile
unfolding lower_base raise_end
elf_process_phdr_pt_load file phdr = raise_end (lower_base file phdr) phdr

-- PT_LOAD is 1. The call always succeeds.
unfoldable pub elf_process_pheader : ElfFile → Elf32Phdr → ElfFile
elf_process_pheader file phdr =
    if phdr.p_type == 1 then elf_process_phdr_pt_load file phdr else file

-- The loop of `elf_process_pheaders` with `k` rounds left, over the program headers.
pub pheaders_loop : (phdrs : ℕ → Elf32Phdr) → (k i : ℕ) → ElfFile → ElfFile
pheaders_loop phdrs zero i file = file
pheaders_loop phdrs (suc k) i file =
    pheaders_loop phdrs k (i + 1) (elf_process_pheader file (phdrs i))

unfoldable pub elf_process_pheaders : Array → ElfFile → ElfFile
elf_process_pheaders mem file =
    pheaders_loop (elf_program_header mem file.elf_memory) (elf_header mem file).e_phnum 0 file

unfoldable pub elf_process_loaded : Array → ElfFile → Result (Unit {0}) × ElfFile
elf_process_loaded mem file = elim (elf_validate_loaded (elf_header mem file)) [
  | err e ↦ (err e, file)
  | ok done ↦ (ok done, elf_process_pheaders mem file)
]

-- `address` is that of the `struct elf_file`, 0 for NULL.
unfoldable pub elf_close : (A : Allocator) → (address : ℕ) → ElfFile → A.State → A.State
elf_close A address file s =
    let s1 = A.kfree file.elf_memory s in if address == 0 then s else A.kfree address s1
