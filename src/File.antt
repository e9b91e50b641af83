-- ===== src/File.antt =====
-- src/fs/file.c and file.h: the tables of file systems and of descriptors, and the calls on files.
-- A file system is an interface of operations on a state that it shares with the allocator; the
-- one disk of disk.c is left out of their arguments. An `int` result that is negative is an `err`.
mod Examples
pub mod Descriptors
pub mod Open
use udemy_kernel.Prelude.{
  is_zero, ℕ, zero, suc, ◌+◌, ◌-◌, Bool, true, false, ◌||◌, not, Option, none, some, List, [], ◌∷◌,
  Array, update, ℤ, pos, negsuc, Result, ok, err, eio, einvarg, enomem, leb, ltb, ◌==◌,
  if◌then◌else◌,
}
use udemy_kernel.Str.{strncmp}
use udemy_kernel.Disk.{disk_get}
use udemy_kernel.PathParser.{Allocator, PathPart, PathRoot, pathparser_parse, char_at}

abbrev pub max_filesystems : ℕ
max_filesystems = 12

abbrev pub max_file_descriptors : ℕ
max_file_descriptors = 512

pub data FileMode : Type 0 where
  mode_read mode_write mode_append mode_invalid : FileMode

pub record FileStat : Type 0 where
  pub flags : ℕ
  pub filesize : ℕ

-- `open` returns the private data of the file; `read` puts the bytes at `out_ptr`, in the
-- state, and returns what the C function returns.
pub record FileSystem (S : Type 0) : Type 0 where
  pub resolve : S → Bool × S
  pub open_file : List PathPart → FileMode → S → Result ℕ × S
  pub read : (private_data size nmemb out_ptr : ℕ) → S → Result ℕ × S
  pub seek : (private_data offset whence : ℕ) → S → Result (Unit {0}) × S
  pub stat : (private_data : ℕ) → S → Result FileStat × S
  pub close : (private_data : ℕ) → S → Result (Unit {0}) × S

-- `address` is that of the struct, `filesystem` that of its file system.
pub record FileDescriptor : Type 0 where
  pub address : ℕ
  pub index : ℕ
  pub filesystem : ℕ
  pub private_data : ℕ

-- The static arrays: `filesystems` holds addresses, 0 for NULL.
pub record Files : Type 0 where
  pub filesystems : Array
  pub file_descriptors : ℕ → Option FileDescriptor

abbrev pub update_descriptor :
    (ℕ → Option FileDescriptor) → ℕ → Option FileDescriptor → ℕ → Option FileDescriptor
update_descriptor table i v j = if j == i then v else table j

-- The first index from `i` on, within `k`, where the table holds NULL.
pub free_filesystem : Array → (k i : ℕ) → Option ℕ
free_filesystem table zero i = none
free_filesystem table (suc k) i =
    let rest = free_filesystem table k (i + 1) in if table i == 0 then some i else rest

-- `none` is the endless loop behind the message.
unfoldable pub fs_insert_filesystem : (filesystem : ℕ) → Array → Option Array
fs_insert_filesystem filesystem table = elim (free_filesystem table max_filesystems 0) [
  | none ↦ none
  | some i ↦ some (update table i filesystem)
]

-- `fat16` and `fat32` are what `fat16_init` and `fat32_init` return.
unfoldable pub fs_load : (fat16 fat32 : ℕ) → Option Array
unfolding fs_insert_filesystem
fs_load fat16 fat32 = elim (fs_insert_filesystem fat16 (λ _. 0)) [
  | none ↦ none
  | some table ↦ fs_insert_filesystem fat32 table
]

unfoldable pub fs_init : (fat16 fat32 : ℕ) → Option Files
unfolding fs_load
fs_init fat16 fat32 = elim (fs_load fat16 fat32) [
  | none ↦ none
  | some table ↦ some (record { filesystems = table; file_descriptors = λ _. none })
]

-- The loop of `file_new_descriptor` up to the free entry, with `k` rounds left.
unfoldable pub free_descriptor : (ℕ → Option FileDescriptor) → (k i : ℕ) → Option ℕ
free_descriptor table zero i = none
free_descriptor table (suc k) i =
    let rest = free_descriptor table k (i + 1) in elim (table i) [ none ↦ some i | some _ ↦ rest ]

-- For a file descriptor that is not negative; a negative one gives NULL.
unfoldable pub file_get_descriptor : Files → (fd : ℕ) → Option FileDescriptor
file_get_descriptor f fd =
    if fd == 0 || leb max_file_descriptors fd then none else f.file_descriptors (fd - 1)

unfoldable pub file_get_mode_by_string : Array → FileMode
file_get_mode_by_string str =
    if is_zero (strncmp str (char_at (b'r' ∷ [])) 1)
    then FileMode.mode_read
    else if is_zero (strncmp str (char_at (b'w' ∷ [])) 1)
    then FileMode.mode_write
    else if is_zero (strncmp str (char_at (b'a' ∷ [])) 1)
    then FileMode.mode_append
    else FileMode.mode_invalid

module _ (A : Allocator) (ops : ℕ → FileSystem A.State) where
  open A use {State, kzalloc, kfree}

  -- The address of the first file system that accepts the disk, 0 for NULL; `k` rounds left.
  pub resolve_loop : Array → (k i : ℕ) → State → ℕ × State
  resolve_loop table zero i s = (0, s)
  resolve_loop table (suc k) i s =
      let skipped = resolve_loop table k (i + 1) s in
      let (mine, s') = (ops (table i)).resolve s in
      let rest = resolve_loop table k (i + 1) s' in
      if table i == 0 then skipped else if mine then (table i, s') else rest

  unfoldable pub fs_resolve : Files → State → ℕ × State
  fs_resolve f s = resolve_loop f.filesystems max_filesystems 0 s

  -- A new descriptor of the file system and private data, as `fopen` fills it in. Where the
  -- allocation fails the entry stays NULL, and the writes through NULL are not modelled.
  unfoldable pub file_new_descriptor :
      Files → (filesystem private_data : ℕ) → State → Result ℕ × Files × State
  file_new_descriptor f filesystem private_data s =
      elim (free_descriptor f.file_descriptors max_file_descriptors 0) [
        | none ↦ (err enomem, f, s)
        | some i ↦
            let (address, s') = kzalloc 16 s in
            let desc : FileDescriptor = record {
              address = address;
              index = i + 1;
              filesystem = filesystem;
              private_data = private_data;
            } in
            let entry = if address == 0 then none else some desc in
            (
              ok (i + 1),
              record f { file_descriptors = update_descriptor f.file_descriptors i entry },
              s',
            )
      ]

  -- `disk_fs` is the file system of the disk, 0 for NULL. The descriptor, or 0 for every error;
  -- `none` when the fuel of the path parser runs out.
  unfoldable pub fopen :
      (fuel disk_fs : ℕ) → List ℕ → (mode_str : Array) → Files → State → Option (ℕ × Files × State)
  unfolding file_new_descriptor
  fopen fuel disk_fs filename mode_str f s = elim (pathparser_parse A fuel filename s) [
    | none ↦ none
    | some (none, s1) ↦ some (0, f, s1)
    | some (some root, s1) ↦ some (opened root s1)
  ]
    where
      with_mode : PathRoot → FileMode → State → ℕ × Files × State
      with_mode root FileMode.mode_invalid s1 = (0, f, s1)
      with_mode root mode s1 =
          let (res, s2) = (ops disk_fs).open_file root.parts mode s1 in
          elim res [
            | err e ↦ (0, f, s2)
            | ok data_ ↦
                let (res', f', s3) = file_new_descriptor f disk_fs data_ s2 in
                elim res' [ err e ↦ (0, f', s3) | ok index ↦ (index, f', s3) ]
          ]

      on_disk : PathRoot → ℤ → State → ℕ × Files × State
      on_disk root (negsuc n) s1 = (0, f, s1)
      on_disk root (pos n) s1 = elim (disk_get n) [
        | none ↦ (0, f, s1)
        | some _ ↦
            let done = with_mode root (file_get_mode_by_string mode_str) s1 in
            if disk_fs == 0 then (0, f, s1) else done
      ]

      opened : PathRoot → State → ℕ × Files × State
      opened root s1 = elim root.parts [ [] ↦ (0, f, s1) | _ ∷ _ ↦ on_disk root root.drive_no s1 ]

  unfoldable pub fstat : Files → (fd : ℕ) → State → Result FileStat × State
  fstat f fd s = elim (file_get_descriptor f fd) [
    | none ↦ (err eio, s)
    | some desc ↦ (ops desc.filesystem).stat desc.private_data s
  ]

  unfoldable pub fclose : Files → (fd : ℕ) → State → Result (Unit {0}) × Files × State
  fclose f fd s = elim (file_get_descriptor f fd) [
    | none ↦ (err eio, f, s)
    | some desc ↦
        let (res, s') = (ops desc.filesystem).close desc.private_data s in
        elim res [
          | err e ↦ (err e, f, s')
          | ok done ↦ (
            ok done,
            record f {
              file_descriptors = update_descriptor f.file_descriptors (desc.index - 1) none;
            },
            kfree desc.address s',
          )
        ]
  ]

  unfoldable pub fseek : Files → (fd offset whence : ℕ) → State → Result (Unit {0}) × State
  fseek f fd offset whence s = elim (file_get_descriptor f fd) [
    | none ↦ (err eio, s)
    | some desc ↦ (ops desc.filesystem).seek desc.private_data offset whence s
  ]

  unfoldable pub fread : Files → (ptr size nmemb fd : ℕ) → State → Result ℕ × State
  fread f ptr size nmemb fd s =
      if size == 0 || (nmemb == 0 || fd == 0)
      then (err einvarg, s)
      else elim (file_get_descriptor f fd) [
        | none ↦ (err einvarg, s)
        | some desc ↦ (ops desc.filesystem).read desc.private_data size nmemb ptr s
      ]
