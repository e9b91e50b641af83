-- ===== src/File/Examples.antt =====
-- A file system that opens everything with private data 5, and calls of src/fs/file.c on it.
use udemy_kernel.Prelude.{
  ℕ, ◌≡◌, ◌≢◌, refl, true, none, some, List, [], ◌∷◌, pos, ok, err, eio, einvarg, arith, ◌==◌,
  if◌then◌else◌,
}
use udemy_kernel.Str.{isdigit, tonumericdigit, strncmp}
use udemy_kernel.Memory.{memcmp}
use udemy_kernel.PathParser.{
  get_drive_by_path, parse_parts, parse_path_part, get_path_part, Allocator, PathRoot,
  pathparser_parse, char_at,
}
use udemy_kernel.File.{
  Files, FileDescriptor, FileSystem, FileMode, file_get_descriptor, fopen, fclose, fread, fstat,
  fseek, file_get_mode_by_string,
}
use udemy_kernel.File.Descriptors.{IsNumbered, IsFirstFree, fclose_lem}
use udemy_kernel.File.Open.{fopen_lem}

-- Every allocation gives the block at 64.
abbrev one_block : Allocator
one_block = record { State = Unit {0}; kzalloc = λ n s. (64, s); kfree = λ a s. s }

abbrev open_all : FileSystem (Unit {0})
open_all = record {
  resolve = λ s. (true, s);
  open_file = λ parts mode s. (ok 5, s);
  read = λ d size nmemb out_ptr s. (ok nmemb, s);
  seek = λ d offset whence s. (ok tt, s);
  stat = λ d s. (ok (record { flags = 0; filesize = 0 }), s);
  close = λ d s. (ok tt, s);
}

-- The descriptor 1 is open.
abbrev first_file : FileDescriptor
first_file = record { address = 64; index = 1; filesystem = 7; private_data = 5 }

abbrev one_open : Files
one_open = record {
  filesystems = λ _. 0;
  file_descriptors = λ i. if i == 0 then some first_file else none;
}

one_open-IsNumbered : IsNumbered one_open
one_open-IsNumbered i d held = ground (arith, held)

one_open-IsFirstFree : IsFirstFree one_open 1
one_open-IsFirstFree = record { free = refl; taken = λ j small. ground arith }

first_found : file_get_descriptor one_open 1 ≡ some first_file
unfolding file_get_descriptor
first_found = refl

fclose_lem_example :
    (f : Files) × (fclose one_block (λ _. open_all) one_open 1 tt ≡ (ok tt, f, tt))
    × ((t : Unit {0}) (ptr size nmemb : ℕ)
        → fread one_block (λ _. open_all) f ptr size nmemb 1 t ≡ (err einvarg, t))
    × ((t : Unit {0}) → fstat one_block (λ _. open_all) f 1 t ≡ (err eio, t))
    × ((t : Unit {0}) (offset whence : ℕ)
        → fseek one_block (λ _. open_all) f 1 offset whence t ≡ (err eio, t))
    × ((e : ℕ) → e ≢ 1 → file_get_descriptor f e ≡ file_get_descriptor one_open e)
    × IsNumbered f
fclose_lem_example =
    fclose_lem one_block (λ _. open_all) one_open 1 first_file tt tt one_open-IsNumbered first_found
      refl

-- "0:/a"
abbrev path_text : List ℕ
path_text = b'0' ∷ b':' ∷ b'/' ∷ b'a' ∷ []

abbrev parsed_root : PathRoot
parsed_root = record {
  address = 64;
  drive_no = pos 0;
  parts = record { node = 64; str = 64; bytes = b'a' ∷ [] } ∷ [];
}

path_parsed : pathparser_parse one_block 3 path_text tt ≡ some (some parsed_root, tt)
unfolding pathparser_parse get_drive_by_path isdigit memcmp parse_parts parse_path_part
    get_path_part tonumericdigit
path_parsed = refl

read_valid : file_get_mode_by_string (char_at (b'r' ∷ [])) ≢ FileMode.mode_invalid
unfolding file_get_mode_by_string strncmp
read_valid same = ground (arith, same)

fopen_lem_example :
    (f : Files) × (d : FileDescriptor) × (fopen one_block
        (λ _. open_all)
        3
        7
        path_text
        (char_at (b'r' ∷ []))
        one_open
        tt
      ≡ some (2, f, tt))
    × (file_get_descriptor f 2 ≡ some d)
    × (d.filesystem ≡ 7)
    × (d.private_data ≡ 5)
    × ((fd : ℕ) → fd ≢ 2 → file_get_descriptor f fd ≡ file_get_descriptor one_open fd)
    × IsNumbered f
fopen_lem_example =
    fopen_lem one_block (λ _. open_all) 3 7 1 5 path_text (char_at (b'r' ∷ [])) one_open tt tt tt
      parsed_root path_parsed (λ same. ground (arith, same)) refl (omega arith) read_valid refl
      (omega arith) one_open-IsNumbered one_open-IsFirstFree (omega arith)
