-- ===== src/Fat16/Descriptor.antt =====
-- src/fs/fat/fat16.c: the operations of the file system on files. A `none` is as in the module
-- Item, or a NULL that the code reads through; `junk` is what a local buffer holds at first.
pub mod Open
pub mod Content
use udemy_kernel.Prelude.{
  ℕ, zero, suc, ◌+◌, ◌%◌, ◌^◌, bit_and, Option, none, some, List, [], ◌∷◌, Array, Result, ok, err,
  eio, einvarg, enomem, erdonly, eunimp, leb, ◌==◌, if◌then◌else◌, not,
}
use udemy_kernel.PathParser.{Allocator, PathPart, char_at}
use udemy_kernel.Disk.{Controller}
use udemy_kernel.File.{FileMode, FileStat}
use udemy_kernel.Fat16.{FatPrivate, FatDirectoryItem, fat16_get_first_cluster}
use udemy_kernel.Fat16.Cluster.{fat16_read_internal}
use udemy_kernel.Fat16.Item.{
  FatItem, FatContents, DirectoryPtr, fat16_fat_item_free, fat16_find_item_in_directory,
}

-- `struct fat_file_descriptor`, with its address.
pub record FatFileDescriptor : Type 0 where
  pub address : ℕ
  pub item : FatItem
  pub pos : ℕ

module _ (A : Allocator) (c : Controller) (junk : Array) where
  open A use {State, kzalloc, kfree}

  -- The loop over the parts behind the first. `none` inside is NULL.
  unfoldable pub entry_loop :
      (fuel : ℕ)
      → FatPrivate
      → (next_parts : List PathPart) → (current_item : Option FatItem) → State
      → Option (Option FatItem × FatPrivate × State)
  entry_loop fuel p [] current_item s = some (current_item, p, s)
  entry_loop fuel p (next_part ∷ parts) none s = none
  entry_loop fuel p (next_part ∷ parts) (some item) s = elim item.contents [
    | FatContents.file _ _ ↦ some (none, p, s)
    | FatContents.directory d ↦
        let went : Option (Option FatItem × FatPrivate × State) =
          elim (fat16_find_item_in_directory A c junk fuel p d.fields (char_at next_part.bytes) s) [
            | none ↦ none
            | some (tmp_item, p1, s1) ↦
                entry_loop fuel p1 parts tmp_item (fat16_fat_item_free A item s1)
          ] in
        if d.address == 0 then none else went
  ]

  -- The path has at least one part.
  unfoldable pub fat16_get_directory_entry :
      (fuel : ℕ)
      → FatPrivate
      → (path : List PathPart) → State
      → Option (Option FatItem × FatPrivate × State)
  fat16_get_directory_entry fuel p [] s = none
  fat16_get_directory_entry fuel p (part ∷ next) s =
      elim (fat16_find_item_in_directory A c junk fuel p p.root_directory (char_at part.bytes) s) [
        | none ↦ none
        | some (none, p1, s1) ↦ some (none, p1, s1)
        | some (some root_item, p1, s1) ↦ entry_loop fuel p1 next (some root_item) s1
      ]

  unfoldable pub fat16_open :
      (fuel : ℕ)
      → FatPrivate
      → (path : List PathPart) → FileMode
      → State
      → Option (Result FatFileDescriptor × FatPrivate × State)
  fat16_open fuel p path FileMode.mode_read s =
      let (address, s1) = kzalloc 8 s in
      let opened : Option (Result FatFileDescriptor × FatPrivate × State) =
        elim (fat16_get_directory_entry fuel p path s1) [
          | none ↦ none
          | some (none, p1, s2) ↦ some (err eio, p1, kfree address s2)
          | some (some item, p1, s2) ↦
              some (ok (record { address = address; item = item; pos = 0 }), p1, s2)
        ] in
      if address == 0 then some (err enomem, p, s1) else opened
  fat16_open fuel p path mode s = some (err erdonly, p, s)

  unfoldable pub fat16_close : FatFileDescriptor → State → Result (Unit {0}) × State
  fat16_close desc s = (ok tt, kfree desc.address (fat16_fat_item_free A desc.item s))

-- The type of the item is tested; `stat` is filled in where it is that of a file.
unfoldable pub fat16_stat : FatFileDescriptor → Result FileStat
fat16_stat desc = elim desc.item.contents [
  | FatContents.directory _ ↦ err einvarg
  | FatContents.file _ ritem ↦ ok (record {
    flags = if bit_and ritem.attribute 0x01 == 0 then 0x00 else 0x01;
    filesize = ritem.filesize;
  })
]

-- SEEK_SET, SEEK_CUR and SEEK_END are 0, 1 and 2. The descriptor's position is a number of 32 bits.
unfoldable pub fat16_seek :
    FatFileDescriptor → (offset seek_mode : ℕ) → Result (Unit {0}) × FatFileDescriptor
fat16_seek desc offset seek_mode = elim desc.item.contents [
  | FatContents.directory _ ↦ (err einvarg, desc)
  | FatContents.file _ ritem ↦
      if leb ritem.filesize offset
      then (err eio, desc)
      else if seek_mode == 0
      then (ok tt, record desc { pos = offset })
      else if seek_mode == 2
      then (err eunimp, desc)
      else if seek_mode == 1
      then (ok tt, record desc { pos = (desc.pos + offset) % 2 ^ 32 })
      else (err einvarg, desc)
]

module _ (c : Controller) (junk : Array) where
  -- The loop of `fat16_read` with `k` rounds left; `at` is the index of `out_ptr` in its buffer.
  pub read_loop :
      (fuel : ℕ)
      → FatPrivate
      → FatDirectoryItem
      → (size k offset at : ℕ) → Array
      → Option (Result (Unit {0}) × FatPrivate × Array)
  read_loop fuel p item size zero offset at out = some (ok tt, p, out)
  read_loop fuel p item size (suc k) offset at out =
      elim (fat16_read_internal c junk fuel p (fat16_get_first_cluster item) offset size at out) [
        | none ↦ none
        | some (err e, p1, out') ↦ some (err e, p1, out')
        | some (ok _, p1, out') ↦
            read_loop fuel p1 item size k ((offset + size) % 2 ^ 32) (at + size) out'
      ]

  -- The item is taken to be that of a file, untested; for a directory the code reads the
  -- structure in memory as an item, a `none` here. The position is not moved.
  unfoldable pub fat16_read :
      (fuel : ℕ)
      → FatPrivate
      → FatFileDescriptor
      → (size nmemb : ℕ) → Array
      → Option (Result ℕ × FatPrivate × Array)
  fat16_read fuel p desc size nmemb out = elim desc.item.contents [
    | FatContents.directory _ ↦ none
    | FatContents.file _ item ↦ elim (read_loop fuel p item size nmemb desc.pos 0 out) [
      | none ↦ none
      | some (err e, p1, out') ↦ some (err e, p1, out')
      | some (ok _, p1, out') ↦ some (ok nmemb, p1, out')
    ]
  ]
