-- ===== src/Fat16/Item.antt =====
-- src/fs/fat/fat16.c: the items of a directory, loaded and freed, and the search of a path. `A` is
-- the allocator; `none` is fuel that runs out, or a directory whose items could not be counted:
-- the code then goes on with a negative number of bytes.
pub mod Find
use udemy_kernel.Prelude.{
  is_zero, false, true, not, Bool, ℕ, zero, suc, ◌+◌, ◌*◌, ◌%◌, ◌^◌, bit_and, Option, none, some,
  List, [], ◌∷◌, Array, Result, ok, err, pos, ℤ, negsuc, length, ltb, ◌==◌, if◌then◌else◌,
}
use udemy_kernel.Str.{istrncmp}
use udemy_kernel.PathParser.{Allocator, PathPart, char_at, max_path}
use udemy_kernel.Disk.{Controller}
use udemy_kernel.Fat16.{
  FatPrivate, FatDirectory, FatDirectoryItem, item_bytes, decode_item, fat16_get_first_cluster,
  fat16_cluster_to_sector, cluster_bytes,
}
use udemy_kernel.Fat16.Cluster.{fat16_read_internal}
use udemy_kernel.Fat16.Directory.{fat16_get_total_items_for_directory}
use udemy_kernel.Fat16.Name.{fat16_get_full_relative_filename}

-- FAT_FILE_SUBDIRECTORY.
abbrev pub is_subdirectory : FatDirectoryItem → Bool
is_subdirectory item = not (bit_and item.attribute 0x10 == 0)

-- A directory in memory: the address of the `struct fat_directory`, 0 for NULL, and its fields. One
-- that was freed keeps what it held.
pub record DirectoryPtr : Type 0 where
  pub address : ℕ
  pub fields : FatDirectory

-- The union of `struct fat_item`, by the type: the copy of an item, with its address, or a
-- directory.
pub data FatContents : Type 0 where
  file : (copy : ℕ) → FatDirectoryItem → FatContents
  directory : DirectoryPtr → FatContents

pub record FatItem : Type 0 where
  pub address : ℕ
  pub contents : FatContents

abbrev pub empty_directory : FatDirectory
empty_directory = record {
  item = 0;
  bytes = λ _. 0;
  total = ok 0;
  sector_pos = 0;
  ending_sector_pos = 0;
}

-- `size` bytes are copied, of which an item has 32. The copy has the address 0 for NULL.
module _ (A : Allocator) where
  open A use {State, kzalloc, kfree}

  unfoldable pub fat16_clone_directory_item : FatDirectoryItem → (size : ℕ) → State → ℕ × State
  fat16_clone_directory_item item size s = if ltb size item_bytes then (0, s) else kzalloc size s

  unfoldable pub fat16_free_directory : DirectoryPtr → State → State
  fat16_free_directory d s =
      let s1 = if d.fields.item == 0 then s else kfree d.fields.item s in
      if d.address == 0 then s else kfree d.address s1

  unfoldable pub fat16_fat_item_free : FatItem → State → State
  unfolding fat16_free_directory
  fat16_fat_item_free item s = elim item.contents [
    | directory d ↦ kfree item.address (fat16_free_directory d s)
    | file copy _ ↦ kfree item.address (kfree copy s)
  ]

  module _ (c : Controller) (junk : Array) where
    -- The result of the call is a pointer, also where it has freed the directory.
    unfoldable pub fat16_load_fat_directory :
        (fuel : ℕ)
        → FatPrivate
        → FatDirectoryItem
        → State
        → Option (DirectoryPtr × FatPrivate × State)
    fat16_load_fat_directory fuel p item s =
        let (address, s1) = kzalloc 16 s in
        let cluster = fat16_get_first_cluster item in
        let loaded : Option (DirectoryPtr × FatPrivate × State) =
          elim (fat16_get_total_items_for_directory c junk fuel p
            (fat16_cluster_to_sector p cluster)) [
              | none ↦ none
              | some (err e, p1) ↦ none
              | some (ok total_items, p1) ↦
                  let directory_size = total_items * item_bytes in
                  let (items, s2) = kzalloc directory_size s1 in
                  let found : FatDirectory = record empty_directory {
                    item = items;
                    total = ok total_items;
                  } in
                  let got : Option (DirectoryPtr × FatPrivate × State) =
                    elim (fat16_read_internal c junk fuel p1 cluster 0x00 directory_size 0
                      (λ _. 0)) [
                        | none ↦ none
                        | some (err e, p2, bytes) ↦
                            let d : DirectoryPtr = record {
                              address = address;
                              fields = record found { bytes = bytes };
                            } in
                            some (d, p2, fat16_free_directory d s2)
                        | some (ok _, p2, bytes) ↦ some (
                          record { address = address; fields = record found { bytes = bytes } },
                          p2,
                          s2,
                        )
                      ] in
                  let lost : DirectoryPtr = record { address = address; fields = found } in
                  if items == 0 then some (lost, p1, fat16_free_directory lost s2) else got
            ] in
        let null : DirectoryPtr = record { address = 0; fields = empty_directory } in
        if not (is_subdirectory item)
        then some (null, p, s)
        else if address == 0
        then some (null, p, s1)
        else loaded

    -- `none` inside is NULL.
    unfoldable pub fat16_new_fat_item_for_directory_item :
        (fuel : ℕ)
        → FatPrivate
        → FatDirectoryItem
        → State
        → Option (Option FatItem × FatPrivate × State)
    fat16_new_fat_item_for_directory_item fuel p item s =
        let (address, s1) = kzalloc 8 s in
        let (copy, s2) = fat16_clone_directory_item item item_bytes s1 in
        let dir : Option (Option FatItem × FatPrivate × State) =
          elim (fat16_load_fat_directory fuel p item s1) [
            | none ↦ none
            | some (d, p1, s3) ↦
                some (some (record { address = address; contents = directory d }), p1, s3)
          ] in
        if address == 0
        then some (none, p, s1)
        else if is_subdirectory item
        then dir
        else some (some (record { address = address; contents = file copy item }), p, s2)

    -- The loop of `fat16_find_item_in_directory` from the item `i` on, with `k` left. A later
    -- match takes the place of an earlier one.
    pub find_loop :
        (fuel : ℕ)
        → FatPrivate
        → FatDirectory
        → (tmp_filename name : Array) → (k i : ℕ) → Option FatItem
        → State
        → Option (Option FatItem × FatPrivate × State)
    find_loop fuel p dir tmp_filename name zero i f_item s = some (f_item, p, s)
    find_loop fuel p dir tmp_filename name (suc k) i f_item s =
        let item = decode_item dir.bytes i in
        let named = fat16_get_full_relative_filename item tmp_filename max_path in
        let made : Option (Option FatItem × FatPrivate × State) =
          if is_zero (istrncmp named name max_path)
          then fat16_new_fat_item_for_directory_item fuel p item s
          else some (f_item, p, s) in
        elim made [
          | none ↦ none
          | some (f_item', p', s') ↦ find_loop fuel p' dir named name k (i + 1) f_item' s'
        ]

    -- A number of items that is negative gives no round.
    unfoldable pub fat16_find_item_in_directory :
        (fuel : ℕ)
        → FatPrivate
        → FatDirectory
        → (name : Array) → State
        → Option (Option FatItem × FatPrivate × State)
    fat16_find_item_in_directory fuel p dir name s = elim dir.total [
      | err e ↦ some (none, p, s)
      | ok total ↦ find_loop fuel p dir junk name total 0 none s
    ]
