-- ===== src/Fat32/Handle.antt =====
-- The operations of src/fs/fat/fat32.c on files. `none` is fuel that runs out; `junk` is what a
-- local buffer holds at first. The pointer of a handle to the private data of the volume is left
-- out: the operations are given that data.
pub mod Content
pub mod Round
pub mod Open
pub mod Seek
use udemy_kernel.Prelude.{
  ℕ, zero, suc, ◌+◌, ◌-◌, ◌%◌, ◌^◌, Option, none, some, List, Array, Result, ok, err, eio, einvarg,
  enomem, erdonly, eunimp, sub32, ltb, ◌==◌, if◌then◌else◌,
}
use udemy_kernel.PathParser.{Allocator, PathPart}
use udemy_kernel.Disk.{Controller}
use udemy_kernel.File.{FileMode, FileStat}
use udemy_kernel.Fat16.{FatDirectoryItem}
use udemy_kernel.Fat32.{FatPrivate, get_cluster_data_disk_pos, seek_and_read, get_next_cluster_id}
use udemy_kernel.Fat32.Directory.{get_path_directory_item, get_directory_item_target_cluster_id}

-- `struct fat_private_file_handle`.
pub record FatPrivateFileHandle : Type 0 where
  pub starting_cluster : ℕ
  pub file_size : ℕ
  pub file_pos : ℕ
  pub current_cluster : ℕ
  pub position_in_cluster : ℕ

-- sizeof(struct fat_private_file_handle).
abbrev pub handle_bytes : ℕ
handle_bytes = 24

abbrev pub min : ℕ → ℕ → ℕ
min n1 n2 = if ltb n1 n2 then n1 else n2

-- The handle of a file that is opened.
abbrev pub new_handle : FatDirectoryItem → FatPrivateFileHandle
new_handle item = record {
  starting_cluster = get_directory_item_target_cluster_id item;
  file_size = item.filesize;
  file_pos = 0;
  current_cluster = get_directory_item_target_cluster_id item;
  position_in_cluster = 0;
}

-- How many bytes the next round of a read takes.
unfoldable pub how_many : FatPrivate → FatPrivateFileHandle → (bytes_left : ℕ) → ℕ
how_many p h bytes_left =
    min (min (sub32 p.cluster_size_bytes h.position_in_cluster) (sub32 h.file_size h.file_pos))
      bytes_left

unfoldable pub fat32_stat : FatPrivateFileHandle → Result FileStat
fat32_stat h = ok (record { flags = 0b00000001; filesize = h.file_size })

module _ (c : Controller) (junk : Array) where
  -- The step to the next cluster, where the position is at the end of one.
  unfoldable pub next_cluster :
      FatPrivate → FatPrivateFileHandle → Option (FatPrivate × FatPrivateFileHandle)
  next_cluster p h =
      let stepped : Option (FatPrivate × FatPrivateFileHandle) =
        elim (get_next_cluster_id c junk p h.current_cluster) [
          | none ↦ none
          | some (next, p') ↦
              some (p', record h { position_in_cluster = 0; current_cluster = next })
        ] in
      if h.position_in_cluster == p.cluster_size_bytes then stepped else some (p, h)

  -- 1 if all `size` bytes are read. `at` is the index of `*out_ptr` in its buffer. Each round of
  -- the loop takes one of the fuel.
  unfoldable pub fat32_read_internal :
      (fuel : ℕ)
      → FatPrivate
      → FatPrivateFileHandle
      → (bytes_left at : ℕ) → (out : Array)
      → Option (ℕ × FatPrivate × FatPrivateFileHandle × ℕ × Array)
  unfolding how_many next_cluster
  fat32_read_internal zero p h bytes_left at out = none
  fat32_read_internal (suc fuel) p h bytes_left at out =
      let n = how_many p h bytes_left in
      let pos = (get_cluster_data_disk_pos p h.current_cluster + h.position_in_cluster) % 2 ^ 32 in
      elim (seek_and_read c junk p pos at n out) [
        | none ↦ none
        | some (p1, out') ↦
            let moved = record h {
              file_pos = (h.file_pos + n) % 2 ^ 32;
              position_in_cluster = (h.position_in_cluster + n) % 2 ^ 32;
            } in
            elim (next_cluster p1 moved) [
              | none ↦ none
              | some (p2, h') ↦
                  let rest = fat32_read_internal fuel p2 h' (bytes_left - n) (at + n) out' in
                  if bytes_left - n == 0
                  then some (1, p2, h', at + n, out')
                  else if h'.file_pos == h'.file_size
                  then some (0, p2, h', at + n, out')
                  else if h'.current_cluster == 0
                  then some (0, p2, h', at + n, out')
                  else rest
            ]
      ]

  -- The loop of `fat32_read` with `k` rounds left, and the items read so far.
  pub read_loop :
      (fuel : ℕ)
      → FatPrivate
      → FatPrivateFileHandle
      → (size k readed at : ℕ) → (out : Array)
      → Option (ℕ × FatPrivate × FatPrivateFileHandle × Array)
  read_loop fuel p h size zero readed at out = some (readed, p, h, out)
  read_loop fuel p h size (suc k) readed at out = elim (fat32_read_internal fuel p h size at out) [
    | none ↦ none
    | some (status, p1, h1, at1, out1) ↦
        let rest = read_loop fuel p1 h1 size k (readed + status) at1 out1 in
        if status == 0 then some (readed, p1, h1, out1) else rest
  ]

  unfoldable pub fat32_read :
      (fuel : ℕ)
      → FatPrivate
      → FatPrivateFileHandle
      → (size nmemb : ℕ) → (out : Array) → Option (ℕ × FatPrivate × FatPrivateFileHandle × Array)
  unfolding read_loop
  fat32_read fuel p h size nmemb out = read_loop fuel p h size nmemb 0 0 out

  -- The loop of `fat32_seek`, one of the fuel for each round.
  unfoldable pub seek_loop :
      (fuel : ℕ)
      → FatPrivate
      → FatPrivateFileHandle
      → (offset : ℕ) → Option (FatPrivate × FatPrivateFileHandle)
  unfolding next_cluster
  seek_loop zero p h offset = none
  seek_loop (suc fuel) p h offset =
      let seek = min offset (sub32 p.cluster_size_bytes h.position_in_cluster) in
      let moved = record h { position_in_cluster = (h.position_in_cluster + seek) % 2 ^ 32 } in
      let round : Option (FatPrivate × FatPrivateFileHandle) = elim (next_cluster p moved) [
        | none ↦ none
        | some (p1, h1) ↦ seek_loop fuel p1 h1 (offset - seek)
      ] in
      if offset == 0 then some (p, h) else round

  -- SEEK_CUR.
  unfoldable pub seek_cur :
      (fuel : ℕ)
      → FatPrivate
      → FatPrivateFileHandle
      → (offset : ℕ) → Option (Result (Unit {0}) × FatPrivate × FatPrivateFileHandle)
  unfolding seek_loop
  seek_cur fuel p h offset =
      let sought : Option (Result (Unit {0}) × FatPrivate × FatPrivateFileHandle) =
        elim (seek_loop fuel p h offset) [ none ↦ none | some (p', h') ↦ some (ok tt, p', h') ] in
      if ltb ((h.file_pos + offset) % 2 ^ 32) h.file_size then some (err einvarg, p, h) else sought

  -- SEEK_SET, SEEK_CUR and SEEK_END are 0, 1 and 2.
  unfoldable pub fat32_seek :
      (fuel : ℕ)
      → FatPrivate
      → FatPrivateFileHandle
      → (offset seek_mode : ℕ) → Option (Result (Unit {0}) × FatPrivate × FatPrivateFileHandle)
  unfolding seek_cur
  fat32_seek fuel p h offset seek_mode =
      let start = record h {
        current_cluster = h.starting_cluster;
        position_in_cluster = 0;
        file_pos = 0;
      } in
      if seek_mode == 0
      then (if ltb offset h.file_size
          then some (err einvarg, p, h)
          else seek_cur fuel p start offset)
      else if seek_mode == 2
      then some (err eunimp, p, h)
      else if seek_mode == 1
      then seek_cur fuel p h offset
      else some (err einvarg, p, h)

  module _ (A : Allocator) where
    open A use {State, kzalloc, kfree}

    -- The address of the handle, and the handle.
    unfoldable pub fat32_open :
        (fuel : ℕ)
        → FatPrivate
        → (path : List PathPart) → FileMode
        → State
        → Option (Result (ℕ × FatPrivateFileHandle) × FatPrivate × State)
    fat32_open fuel p path FileMode.mode_read s =
        elim (get_path_directory_item c junk fuel p path) [
          | none ↦ none
          | some (item, p1) ↦
              let (file_handle, s1) = kzalloc handle_bytes s in
              if item.filename 0 == 0
              then some (err eio, p1, s)
              else if file_handle == 0
              then some (err enomem, p1, s1)
              else some (ok (file_handle, new_handle item), p1, s1)
        ]
    fat32_open fuel p path mode s = some (err erdonly, p, s)

    unfoldable pub fat32_close : (file_handle : ℕ) → State → Result (Unit {0}) × State
    fat32_close file_handle s = (ok tt, kfree file_handle s)
