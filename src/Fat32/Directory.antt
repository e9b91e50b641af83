-- ===== src/Fat32/Directory.antt =====
-- get_path_directory_item and fat32_resolve of src/fs/fat/fat32.c: the search for the item of a
-- path, and the takeover of a disk. `none` is fuel that runs out.
pub mod Find
use udemy_kernel.Prelude.{
  is_zero, ℕ, zero, suc, ◌+◌, ◌*◌, ◌/◌, ◌%◌, ◌^◌, bit_and, Bool, not, Option, none, some, List, [],
  ◌∷◌, Array, Result, ok, err, eio, enomem, efsnotus, field, ◌==◌, if◌then◌else◌,
}
use udemy_kernel.Str.{strncmp}
use udemy_kernel.PathParser.{Allocator, PathPart, char_at}
use udemy_kernel.Disk.{Controller, diskstreamer_new, diskstreamer_read}
use udemy_kernel.Fat16.{FatDirectoryItem, decode_item, item_bytes}
use udemy_kernel.Fat32.{
  FatPrivate, FatH, decode_h, header_bytes, get_cluster_data_disk_pos, seek_and_read,
  get_next_cluster_id,
}
use udemy_kernel.Fat32.Name.{transform_filename_to_fat}

-- `struct fat_directory_item` has the fields of the one of fat16.c.
unfoldable pub get_directory_item_target_cluster_id : FatDirectoryItem → ℕ
get_directory_item_target_cluster_id item =
    (item.high_16_bits_first_cluster * 2 ^ 16 + item.low_16_bits_first_cluster) % 2 ^ 32

unfoldable pub is_directory_item_directory : FatDirectoryItem → Bool
is_directory_item_directory item = not (bit_and item.attribute 0x10 == 0)

-- How the innermost loop ends: at an item with the name, at the first unused item, or at the end of
-- the cluster.
pub data Scan : Type 0 where
  found : FatDirectoryItem → Scan
  ended exhausted : Scan

-- The innermost loop with `k` rounds left, from the item `i` of the cluster on.
unfoldable pub scan_items : (bytes name : Array) → (k i : ℕ) → Scan
scan_items bytes name zero i = Scan.exhausted
scan_items bytes name (suc k) i =
    let rest = scan_items bytes name k (i + 1) in
    if field bytes (i * item_bytes) 0 == 0x00
    then Scan.ended
    else if is_zero (strncmp (field bytes (i * item_bytes)) name 11)
    then Scan.found (decode_item bytes i)
    else rest

-- What `memset` makes of the target item.
abbrev pub no_item : FatDirectoryItem
no_item = decode_item (λ _. 0) 0

-- The items whose offset is below the size of a cluster.
abbrev pub items_per_cluster : FatPrivate → ℕ
items_per_cluster p = (p.cluster_size_bytes + 31) / 32

-- sizeof(struct fat_private).
abbrev pub private_bytes : ℕ
private_bytes = 104

module _ (c : Controller) (junk : Array) where
  -- The loop over the clusters of a directory, one of the fuel for each. `none` inside is a name
  -- that is not found.
  unfoldable pub find_in_clusters :
      (fuel : ℕ)
      → FatPrivate
      → (current_cluster_id : ℕ) → (name : Array) → Option (Option FatDirectoryItem × FatPrivate)
  unfolding scan_items
  find_in_clusters zero p current_cluster_id name = none
  find_in_clusters (suc fuel) p current_cluster_id name =
      elim (seek_and_read c junk p (get_cluster_data_disk_pos p current_cluster_id) 0
        p.cluster_size_bytes p.bytes) [
          | none ↦ none
          | some (p1, bytes) ↦
              let p2 : FatPrivate = record p1 { bytes = bytes } in
              elim (scan_items bytes name (items_per_cluster p) 0) [
                | Scan.found item ↦ some (some item, p2)
                | Scan.ended ↦ some (none, p2)
                | Scan.exhausted ↦ elim (get_next_cluster_id c junk p2 current_cluster_id) [
                  | none ↦ none
                  | some (next, p3) ↦
                      let rest = find_in_clusters fuel p3 next name in
                      if next == 0 then some (none, p3) else rest
                ]
              ]
        ]

  -- The loop over the parts of a path, which has at least one.
  unfoldable pub walk_path :
      (fuel : ℕ)
      → FatPrivate
      → (current_cluster_id : ℕ) → (path : List PathPart) → Option (FatDirectoryItem × FatPrivate)
  unfolding find_in_clusters transform_filename_to_fat
  walk_path fuel p cluster [] = none
  walk_path fuel p cluster (part ∷ next) =
      elim (transform_filename_to_fat fuel junk (char_at part.bytes)) [
        | none ↦ none
        | some name ↦ elim (find_in_clusters fuel p cluster name) [
          | none ↦ none
          | some (none, p1) ↦ some (no_item, p1)
          | some (some item, p1) ↦
              let rest = walk_path fuel p1 (get_directory_item_target_cluster_id item) next in
              elim next [
                | [] ↦ some (item, p1)
                | _ ∷ _ ↦ if is_directory_item_directory item then rest else some (no_item, p1)
              ]
        ]
      ]

  unfoldable pub get_path_directory_item :
      (fuel : ℕ) → FatPrivate → (path : List PathPart) → Option (FatDirectoryItem × FatPrivate)
  unfolding walk_path
  get_path_directory_item fuel p path =
      walk_path fuel p p.header.fat_header_extended_32.root_clus path

  module _ (A : Allocator) where
    open A use {State, kzalloc, kfree}

    -- `disk->fs_private` after the call, `none` for NULL. The allocation of the private data is
    -- taken to succeed: the code writes through it untested. The buffer is NULL when it is freed.
    unfoldable pub fat32_resolve :
        (disk_id : ℕ) → State → Option (Result (Unit {0}) × Option FatPrivate × State)
    fat32_resolve disk_id s =
        let (fat_private, s1) = kzalloc private_bytes s in
        let s2 = kfree fat_private (kfree 0 s1) in
        elim (diskstreamer_new disk_id) [
          | none ↦ some (err enomem, none, s2)
          | some stream ↦ elim (diskstreamer_read c junk 2 stream 0 header_bytes (λ _. 0)) [
            | none ↦ none
            | some (err e, _, _) ↦ some (err eio, none, s2)
            | some (ok _, stream', bytes) ↦
                let header = decode_h bytes in
                let size =
                  header.primary_header.bytes_per_sector
                  * header.primary_header.sectors_per_cluster in
                let (buf, s3) = kzalloc size s1 in
                let p : FatPrivate = record {
                  header = header;
                  read_stream = stream';
                  buf = buf;
                  bytes = λ _. 0;
                  cluster_size_bytes = size;
                } in
                if not (header.fat_header_extended_32.boot_sig == 0x29)
                then some (err efsnotus, none, s2)
                else if buf == 0
                then some (err enomem, none, kfree fat_private (kfree 0 s3))
                else some (ok tt, some p, s3)
          ]
        ]
