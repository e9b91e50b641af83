-- ===== src/Fat16/Descriptor/Open.antt =====
-- Opening and closing of files by src/fs/fat/fat16.c, and the blocks that it allocates for them.
use mathlib.Core.List.Perm
use mathlib.Core.List.{List, Perm}
use udemy_kernel.Prelude.{
  ℕ, ◌<◌, ◌≡◌, ◌≢◌, refl, Array, true, false, ok, err, eio, some, [], ◌∷◌, ◌==◌, arith,
}
use udemy_kernel.PathParser.{Allocator, PathPart, char_at}
use udemy_kernel.PathParser.Blocks.{Grants, blocks, after, free_all}
use udemy_kernel.Disk.{Controller}
use udemy_kernel.File.{FileMode}
use udemy_kernel.Fat16.{FatPrivate, FatDirectory, FatDirectoryItem, item_bytes, decode_item}
use udemy_kernel.Fat16.Item.{is_subdirectory, fat16_fat_item_free}
use udemy_kernel.Fat16.Item.Find.{is_named, find_item_none, find_item_one, new_item, after_item}
use udemy_kernel.Fat16.Descriptor.{
  FatFileDescriptor, fat16_get_directory_entry, fat16_open, fat16_close, entry_loop,
}

-- The item `at` is the only one of the `total` of the directory with the name, and a file.
pub record IsOnlyFile (dir : FatDirectory) (name : Array) (total at : ℕ) : Type 0 where
  pub counted : dir.total ≡ ok total
  pub within : at < total
  pub named : is_named dir.bytes name at ≡ true
  pub is_file : is_subdirectory (decode_item dir.bytes at) ≡ false
  pub other : (j : ℕ) → j < total → j ≢ at → is_named dir.bytes name j ≡ false

module _ (A : Allocator) (c : Controller) (junk : Array) where
  open A use {State, kzalloc, kfree}

  -- The descriptor of a file that is opened, and the state then.
  abbrev pub opened : FatDirectoryItem → State → FatFileDescriptor
  opened item s = record {
    address = (kzalloc 8 s).0;
    item = new_item A c junk item (kzalloc 8 s).1;
    pos = 0;
  }

  abbrev pub after_open : State → State
  after_open s = after_item A c junk (kzalloc 8 s).1

  -- Where the allocations of the descriptor and of the item succeed, opening a name for reading
  -- that one item of the root directory has, a file, succeeds: the descriptor holds a copy of that
  -- item, at position 0.
  pub open_lem :
      (fuel : ℕ) (p : FatPrivate) (part : PathPart) (total at : ℕ) (s : State)
      → Grants A (8 ∷ 8 ∷ []) s
      → IsOnlyFile p.root_directory (char_at part.bytes) total at
      → fat16_open A c junk fuel p (part ∷ []) FileMode.mode_read s
        ≡ some (ok (opened (decode_item p.root_directory.bytes at) s), p, after_open s)
  unfolding fat16_open fat16_get_directory_entry entry_loop
  open_lem fuel p part total at s room only =
      let got : ((kzalloc 8 s).0 == 0) ≡ false = ground (arith, room.0) in
      rw
        (
          fat16_open,
          fat16_get_directory_entry,
          got,
          find_item_one A c junk fuel p p.root_directory (char_at part.bytes) total at
              (kzalloc 8 s).1 (room.1.0) only.counted only.within only.named only.is_file
              only.other,
        )
        refl

  -- Where the allocations of the descriptor and of the item succeed, and one item of the root
  -- directory has the name, a file: opening it for reading requests the descriptor, the item and
  -- the copy of the entry, and no other block, and closing it frees each of the three exactly
  -- once.
  pub close-open :
      (fuel : ℕ) (p : FatPrivate) (part : PathPart) (total at : ℕ) (s : State)
      → Grants A (8 ∷ 8 ∷ []) s
      → IsOnlyFile p.root_directory (char_at part.bytes) total at
      → (desc : FatFileDescriptor) × (freed : List ℕ) × (fat16_open A c junk fuel p
            (part ∷ [])
            FileMode.mode_read
            s
          ≡ some (ok desc, p, after A (8 ∷ 8 ∷ item_bytes ∷ []) s))
        × ((s' : State) → (fat16_close A c junk desc s').1 ≡ free_all A freed s')
        × Perm freed (blocks A (8 ∷ 8 ∷ item_bytes ∷ []) s)
  unfolding fat16_close fat16_fat_item_free
  close-open fuel p part total at s room only =
      let s1 = (kzalloc 8 s).1 in
      let s2 = (kzalloc 8 s1).1 in
      let copy = (kzalloc item_bytes s2).0 in
      let item = (kzalloc 8 s1).0 in
      let address = (kzalloc 8 s).0 in
      (
        opened (decode_item p.root_directory.bytes at) s,
        copy ∷ item ∷ address ∷ [],
        open_lem fuel p part total at s room only,
        λ s'. refl,
        Perm.trans (Perm.swap item copy (address ∷ [])) (
            Perm.trans (Perm.cons item (Perm.swap address copy []))
              (Perm.swap address item (copy ∷ []))),
      )

  -- Where the allocation of the descriptor succeeds, and no item of the root directory has the
  -- first name of a path: opening it for reading gives EIO, and the descriptor, the one block that
  -- it requests, is freed.
  pub open_missing :
      (fuel : ℕ) (p : FatPrivate) (part : PathPart) (parts : List PathPart) (total : ℕ) (s : State)
      → (kzalloc 8 s).0 ≢ 0
      → p.root_directory.total ≡ ok total
      → ((j : ℕ) → j < total → is_named p.root_directory.bytes (char_at part.bytes) j ≡ false)
      → fat16_open A c junk fuel p (part ∷ parts) FileMode.mode_read s
        ≡ some (err eio, p, free_all A (blocks A (8 ∷ []) s) (after A (8 ∷ []) s))
  unfolding fat16_open fat16_get_directory_entry
  open_missing fuel p part parts total s room is other =
      let got : ((kzalloc 8 s).0 == 0) ≡ false = ground (arith, room) in
      rw
        (
          fat16_open,
          fat16_get_directory_entry,
          got,
          find_item_none A c junk fuel p p.root_directory (char_at part.bytes) total (kzalloc 8 s).1
              is other,
        )
        refl
