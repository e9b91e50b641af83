-- ===== src/File/Open.antt =====
-- fopen of src/fs/file.c, from a path to a descriptor, and how the file systems are registered.
use udemy_kernel.Prelude.{
  ℕ, ◌+◌, ◌<◌, ◌≡◌, ◌≢◌, Option, none, some, ok, refl, List, [], Array, pos, arith, ◌==◌,
  if◌then◌else◌,
}
use udemy_kernel.PathParser.{Allocator, PathRoot, pathparser_parse}
use udemy_kernel.Disk.{disk_get}
use udemy_kernel.File.Descriptors.{IsNumbered, IsFirstFree, new_descriptor_lem}
use udemy_kernel.File.{
  Files, FileDescriptor, FileSystem, FileMode, file_get_descriptor, file_get_mode_by_string, fopen,
  fs_init, fs_load, fs_insert_filesystem, free_filesystem,
}

module _ (A : Allocator) (ops : ℕ → FileSystem A.State) where
  -- Where the path is parsed to a root on drive 0 with at least one part, the disk has a file
  -- system, the mode is valid, the file system opens the file, the allocation of the descriptor
  -- succeeds, and in a table whose descriptors carry the numbers of their entries plus one the
  -- first free entry `i` is below 511: fopen returns i + 1, which finds the file system and the
  -- private data that it opened the file with; every other number gives what it did before.
  pub fopen_lem :
      (fuel disk_fs i content : ℕ) (filename : List ℕ) (mode_str : Array) (f : Files)
      (s s1 s2 : A.State) (root : PathRoot)
      → pathparser_parse A fuel filename s ≡ some (some root, s1)
      → root.parts ≢ []
      → root.drive_no ≡ pos 0
      → disk_fs ≢ 0
      → file_get_mode_by_string mode_str ≢ FileMode.mode_invalid
      → (ops disk_fs).open_file root.parts (file_get_mode_by_string mode_str) s1 ≡ (ok content, s2)
      → (A.kzalloc 16 s2).0 ≢ 0
      → IsNumbered f
      → IsFirstFree f i
      → i < 511
      → (f' : Files) × (d : FileDescriptor) × (fopen A ops fuel disk_fs filename mode_str f s
          ≡ some (i + 1, f', (A.kzalloc 16 s2).1))
        × (file_get_descriptor f' (i + 1) ≡ some d)
        × (d.filesystem ≡ disk_fs)
        × (d.private_data ≡ content)
        × ((fd : ℕ) → fd ≢ i + 1 → file_get_descriptor f' fd ≡ file_get_descriptor f fd)
        × IsNumbered f'
  unfolding fopen disk_get
  fopen_lem fuel disk_fs i content filename mode_str f s s1 s2 root parsed named drive real valid
        opened succeeds numbered at small =
      let (f', d, made, found, its_fs, its_data, others, numbered') =
        new_descriptor_lem A ops f disk_fs content i s2 succeeds numbered at small in
      (
        f',
        d,
        ground (arith, parsed, named, drive, real, valid, opened, made),
        found,
        its_fs,
        its_data,
        others,
        numbered',
      )

  -- Where the path is NULL, has no part, or names another drive than 0, or the disk has no file
  -- system, or the mode is none of r, w and a, fopen returns 0 and the table is unchanged.
  pub fopen_refused :
      (fuel disk_fs : ℕ) (filename : List ℕ) (mode_str : Array) (f : Files) (s s1 : A.State)
      (root : Option PathRoot)
      → pathparser_parse A fuel filename s ≡ some (root, s1)
      → ((r : PathRoot)
          → root ≡ some r
          → r.drive_no ≡ pos 0
          → disk_fs ≢ 0
          → file_get_mode_by_string mode_str ≢ FileMode.mode_invalid
          → r.parts ≡ [])
      → fopen A ops fuel disk_fs filename mode_str f s ≡ some (0, f, s1)
  unfolding fopen disk_get
  fopen_refused fuel disk_fs filename mode_str f s s1 none parsed bad = ground (arith, parsed)
  fopen_refused fuel disk_fs filename mode_str f s s1 (some r) parsed bad =
      ground (arith, parsed, bad r refl)

-- `fs_init` puts the two file systems, neither at NULL, into the first two entries, in this order,
-- and leaves every other entry and every descriptor free.
pub fs_init_lem :
    (fat16 fat32 : ℕ)
    → fat16 ≢ 0
    → (f : Files) × (fs_init fat16 fat32 ≡ some f)
      × ((i : ℕ) → f.filesystems i ≡ (if i == 0 then fat16 else if i == 1 then fat32 else 0))
      × ((i : ℕ) → f.file_descriptors i ≡ none)
unfolding fs_init fs_load fs_insert_filesystem free_filesystem
fs_init_lem fat16 fat32 real =
    let first : Files = record {
      filesystems = λ i. if i == 1 then fat32 else if i == 0 then fat16 else 0;
      file_descriptors = λ _. none;
    } in
    (first, ground (arith, real), λ i. ground arith, λ i. refl)
