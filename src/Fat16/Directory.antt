-- ===== src/Fat16/Directory.antt =====
-- src/fs/fat/fat16.c: the items of a directory are counted, the root directory is read, and a disk
-- is taken over by the file system. The allocator is a parameter, save for the disk streams, whose
-- allocation the module Disk leaves out. A `none` is fuel that runs out.
pub mod Count
use udemy_kernel.Prelude.{
  ℕ, zero, suc, ◌+◌, ◌*◌, ◌/◌, ◌%◌, ◌^◌, not, Option, none, some, Array, Result, ok, err, eio,
  enomem, efsnotus, ◌==◌, if◌then◌else◌,
}
use udemy_kernel.PathParser.{Allocator}
use udemy_kernel.Disk.{Controller, DiskStream, sector_size, diskstreamer_new, diskstreamer_seek}
use udemy_kernel.Fat16.{
  FatPrivate, FatDirectory, header_bytes, decode_h, item_bytes, fat16_sector_to_absolute,
  stream_read,
}

abbrev pub fat16_signature : ℕ
fat16_signature = 0x29

-- sizeof(struct fat_private).
abbrev pub private_bytes : ℕ
private_bytes = 92

-- The file system holds no directory and no header yet.
unfoldable pub fat16_init_private : (disk_id : ℕ) → Option FatPrivate
fat16_init_private disk_id = elim (diskstreamer_new disk_id) [
  | none ↦ none
  | some stream ↦ some (record {
    header = decode_h (λ _. 0);
    root_directory = record {
      item = 0;
      bytes = λ _. 0;
      total = ok 0;
      sector_pos = 0;
      ending_sector_pos = 0;
    };
    cluster_read_stream = stream;
    fat_read_stream = stream;
    directory_stream = stream;
  })
]

module _ (c : Controller) (junk : Array) where
  -- The loop of `fat16_get_total_items_for_directory`: `item` is the buffer of the last item, `i`
  -- the number counted. A deleted item is not counted.
  pub count_items :
      (fuel : ℕ) → DiskStream → (item : Array) → (i : ℕ) → Option (Result ℕ × DiskStream)
  count_items zero stream item i = none
  count_items (suc fuel) stream item i = elim (stream_read c junk stream 0 item_bytes item) [
    | none ↦ none
    | some (err e, stream', _) ↦ some (err eio, stream')
    | some (ok _, stream', item') ↦
        let rest = count_items fuel stream' item' (if item' 0 == 0xE5 then i else i + 1) in
        if item' 0 == 0x00 then some (ok i, stream') else rest
  ]

  unfoldable pub fat16_get_total_items_for_directory :
      (fuel : ℕ) → FatPrivate → (directory_start_sector : ℕ) → Option (Result ℕ × FatPrivate)
  fat16_get_total_items_for_directory fuel p directory_start_sector =
      let (_, stream) =
        diskstreamer_seek p.directory_stream (directory_start_sector * sector_size % 2 ^ 32) in
      elim (count_items fuel stream junk 0) [
        | none ↦ none
        | some (res, stream') ↦ some (res, record p { directory_stream = stream' })
      ]

  module _ (A : Allocator) where
    open A use {State, kzalloc, kfree}

    unfoldable pub root_dir_sector_pos : FatPrivate → ℕ
    root_dir_sector_pos p =
        let primary_header = p.header.primary_header in
        primary_header.fat_copies * primary_header.sectors_per_fat + primary_header.reserved_sectors

    unfoldable pub root_dir_size : FatPrivate → ℕ
    root_dir_size p = p.header.primary_header.root_dir_entries * item_bytes

    -- The directory is that of `p`. An error in counting shows in its total only.
    unfoldable pub fat16_get_root_directory :
        (fuel : ℕ) → FatPrivate → State → Option (Result (Unit {0}) × FatPrivate × State)
    unfolding root_dir_sector_pos root_dir_size
    fat16_get_root_directory fuel p s =
        elim (fat16_get_total_items_for_directory fuel p (root_dir_sector_pos p)) [
          | none ↦ none
          | some (total_items, p1) ↦
              let (dir, s1) = kzalloc (root_dir_size p) s in
              let (_, stream) =
                diskstreamer_seek p1.directory_stream
                  (fat16_sector_to_absolute (root_dir_sector_pos p)) in
              let got : Option (Result (Unit {0}) × FatPrivate × State) =
                elim (stream_read c junk stream 0 (root_dir_size p) (λ _. 0)) [
                  | none ↦ none
                  | some (err e, stream', _) ↦
                      some (err eio, record p1 { directory_stream = stream' }, kfree dir s1)
                  | some (ok _, stream', bytes) ↦
                      let directory : FatDirectory = record {
                        item = dir;
                        bytes = bytes;
                        total = total_items;
                        sector_pos = root_dir_sector_pos p;
                        ending_sector_pos = root_dir_sector_pos p + root_dir_size p / sector_size;
                      } in
                      some (
                        ok tt,
                        record p1 { directory_stream = stream'; root_directory = directory },
                        s1,
                      )
                ] in
              if dir == 0 then some (err enomem, p1, s1) else got
        ]

    -- `disk->fs_private` after the call, `none` for NULL. The allocation of the private data is
    -- taken to succeed: the code writes through it untested.
    unfoldable pub fat16_resolve :
        (fuel disk_id : ℕ) → State → Option (Result (Unit {0}) × Option FatPrivate × State)
    fat16_resolve fuel disk_id s =
        let (fat_private, s1) = kzalloc private_bytes s in
        elim (fat16_init_private disk_id) [
          | none ↦ some (err enomem, none, kfree fat_private s1)
          | some p ↦ elim (diskstreamer_new disk_id) [
            | none ↦ some (err enomem, none, kfree fat_private s1)
            | some stream ↦ elim (stream_read c junk stream 0 header_bytes (λ _. 0)) [
              | none ↦ none
              | some (err e, _, _) ↦ some (err eio, none, kfree fat_private s1)
              | some (ok _, _, bytes) ↦
                  let p1 : FatPrivate = record p { header = decode_h bytes } in
                  let got : Option (Result (Unit {0}) × Option FatPrivate × State) =
                    elim (fat16_get_root_directory fuel p1 s1) [
                      | none ↦ none
                      | some (err e, _, s2) ↦ some (err eio, none, kfree fat_private s2)
                      | some (ok done, p2, s2) ↦ some (ok done, some p2, s2)
                    ] in
                  if not (p1.header.extended_header.signature == fat16_signature)
                  then some (err efsnotus, none, kfree fat_private s1)
                  else got
            ]
          ]
        ]
