-- ===== src/Fat16/Item/Find.antt =====
-- The search of a name in a directory by src/fs/fat/fat16.c.
use mathlib.Core.Path.{subst}
use udemy_kernel.Prelude.{
  is_zero, ℕ, zero, suc, ◌+◌, ◌<◌, ◌≤◌, ◌≡◌, ◌≢◌, ap, refl, Array, Bool, true, false, Bool-cases,
  inl, inr, ok, some, none, Option, ◌==◌, arith, update, ◌∙◌,
}
use udemy_kernel.Memory.{memset}
use udemy_kernel.Memory.Laws.{memset_lem}
use udemy_kernel.Str.{istrncmp}
use udemy_kernel.Str.Compare.{istrncmp-agree}
use udemy_kernel.PathParser.{Allocator, max_path}
use udemy_kernel.Disk.{Controller}
use udemy_kernel.Fat16.{FatPrivate, FatDirectory, FatDirectoryItem, decode_item, item_bytes}
use udemy_kernel.Fat16.Name.{
  is_padding, proper_loop, fat16_to_proper_string, fat16_get_full_relative_filename,
}
use udemy_kernel.Fat16.Item.{
  FatItem, FatContents, is_subdirectory, fat16_clone_directory_item,
  fat16_new_fat_item_for_directory_item, find_loop, fat16_find_item_in_directory,
}

-- Buffers with the same first `n` bytes.
abbrev Same : (n : ℕ) (a b : Array) → Type 0
Same n a b = (j : ℕ) → j < n → a j ≡ b j

update-Same : (n i v : ℕ) (a b : Array) → Same n a b → Same n (update a i v) (update b i v)
update-Same n i v a b same j lt = ground (arith, same j lt)

proper_loop-Same :
    (input : Array) (k i o n : ℕ) (a b : Array)
    → Same n a b
    → ((proper_loop input k i o a).0 ≡ (proper_loop input k i o b).0)
      × Same n (proper_loop input k i o a).1 (proper_loop input k i o b).1
unfolding proper_loop
proper_loop-Same input zero i o n a b same = (refl, same)
proper_loop-Same input (suc k) i o n a b same =
    let (ends, rest) =
      proper_loop-Same input k (i + 1) (o + 1) n (update a o (input i)) (update b o (input i))
        (update-Same n o (input i) a b same) in
    (ground (arith, ends), λ j lt. ground (arith, rest j lt, same j lt))

proper_string-Same :
    (input : Array) (size o n : ℕ) (a b : Array)
    → Same n a b
    → ((fat16_to_proper_string o a input size).0 ≡ (fat16_to_proper_string o b input size).0)
      × Same n (fat16_to_proper_string o a input size).1 (fat16_to_proper_string o b input size).1
unfolding fat16_to_proper_string
proper_string-Same input size o n a b same =
    let (ends, rest) = proper_loop-Same input size 0 o n a b same in
    (ends, λ j lt. ground (arith, ends, rest j lt))

-- The buffer makes no difference to the name written to it.
filename-Same :
    (item : FatDirectoryItem) (n : ℕ) (a b : Array)
    → Same n (fat16_get_full_relative_filename item a n) (fat16_get_full_relative_filename item b n)
unfolding fat16_get_full_relative_filename
filename-Same item n a b =
    let clear : Same n (memset a 0 n) (memset b 0 n) =
      λ j lt. ground (arith, memset_lem a 0 n j, memset_lem b 0 n j, lt) in
    let (o, named) = proper_string-Same item.filename 8 0 n (memset a 0 n) (memset b 0 n) clear in
    λ j lt. elim (Bool-cases (is_padding (item.ext 0))) [
      | inl padded ↦ rw (fat16_get_full_relative_filename, padded) (named j lt)
      | inr plain ↦
          let at : ℕ = (fat16_to_proper_string 0 (memset b 0 n) item.filename 8).0 in
          rw (fat16_get_full_relative_filename, plain, o)
            ((proper_string-Same item.ext 3 (at + 1) n _ _ (update-Same n at b'.' _ _ named)).1 j
              lt)
    ]

-- The item `i` of a directory has the name.
abbrev pub is_named : (bytes name : Array) → ℕ → Bool
is_named bytes name i = is_zero (
    istrncmp (fat16_get_full_relative_filename (decode_item bytes i) (λ _. 0) max_path) name
      max_path)

-- The buffer behind the item `i`.
abbrev written : (bytes tmp : Array) → ℕ → Array
written bytes tmp i = fat16_get_full_relative_filename (decode_item bytes i) tmp max_path

is_named_lem :
    (bytes name tmp : Array) (i : ℕ)
    → is_zero (
        istrncmp
          (fat16_get_full_relative_filename (decode_item bytes i) tmp max_path)
          name
          max_path)
      ≡ is_named bytes name i
is_named_lem bytes name tmp i =
    ap is_zero
      (istrncmp-agree _ _ name max_path (filename-Same (decode_item bytes i) max_path tmp (λ _. 0)))

module _ (A : Allocator) (c : Controller) (junk : Array) where
  open A use {State, kzalloc}

  -- The state after the two allocations of an item that is a file.
  abbrev pub after_item : State → State
  after_item s = (kzalloc item_bytes (kzalloc 8 s).1).1

  -- The item that those allocations hold.
  abbrev pub new_item : FatDirectoryItem → State → FatItem
  new_item item s = record {
    address = (kzalloc 8 s).0;
    contents = FatContents.file (kzalloc item_bytes (kzalloc 8 s).1).0 item;
  }

  new_fat_item_lem :
      (fuel : ℕ) (p : FatPrivate) (item : FatDirectoryItem) (s : State)
      → (kzalloc 8 s).0 ≢ 0
      → is_subdirectory item ≡ false
      → fat16_new_fat_item_for_directory_item A c junk fuel p item s
        ≡ some (some (new_item item s), p, after_item s)
  unfolding fat16_new_fat_item_for_directory_item fat16_clone_directory_item
  new_fat_item_lem fuel p item s room is_file =
      let got : ((kzalloc 8 s).0 == 0) ≡ false = ground (arith, room) in
      rw (fat16_new_fat_item_for_directory_item, got, is_file) refl

  find_none :
      (fuel : ℕ) (p : FatPrivate) (dir : FatDirectory) (tmp name : Array) (k i : ℕ)
      (f_item : Option FatItem) (s : State)
      → ((j : ℕ) → i ≤ j → j < i + k → is_named dir.bytes name j ≡ false)
      → find_loop A c junk fuel p dir tmp name k i f_item s ≡ some (f_item, p, s)
  unfolding find_loop
  find_none fuel p dir tmp name zero i f_item s other = refl
  find_none fuel p dir tmp name (suc k) i f_item s other =
      let here = is_named_lem dir.bytes name tmp i ∙ other i (omega arith) (omega arith) in
      rw (find_loop, here)
        (find_none fuel p dir (written dir.bytes tmp i) name k (i + 1) f_item s
          (λ j lo hi. other j (omega (arith, lo)) (omega (arith, hi))))

  find_here :
      (fuel : ℕ) (p : FatPrivate) (dir : FatDirectory) (tmp name : Array) (k i : ℕ)
      (f_item : Option FatItem) (s : State)
      → (kzalloc 8 s).0 ≢ 0
      → is_named dir.bytes name i ≡ true
      → is_subdirectory (decode_item dir.bytes i) ≡ false
      → ((j : ℕ) → i + 1 ≤ j → j < i + 1 + k → is_named dir.bytes name j ≡ false)
      → find_loop A c junk fuel p dir tmp name (suc k) i f_item s
        ≡ some (some (new_item (decode_item dir.bytes i) s), p, after_item s)
  unfolding find_loop
  find_here fuel p dir tmp name k i f_item s room named is_file other =
      let here = is_named_lem dir.bytes name tmp i ∙ named in
      rw (find_loop, here, new_fat_item_lem fuel p (decode_item dir.bytes i) s room is_file)
        (find_none fuel p dir (written dir.bytes tmp i) name k (i + 1)
          (some (new_item (decode_item dir.bytes i) s)) (after_item s) other)

  find_one :
      (fuel : ℕ) (p : FatPrivate) (dir : FatDirectory) (tmp name : Array) (k i at : ℕ)
      (f_item : Option FatItem) (s : State)
      → (kzalloc 8 s).0 ≢ 0
      → i ≤ at
      → at < i + k
      → is_named dir.bytes name at ≡ true
      → is_subdirectory (decode_item dir.bytes at) ≡ false
      → ((j : ℕ) → i ≤ j → j < i + k → j ≢ at → is_named dir.bytes name j ≡ false)
      → find_loop A c junk fuel p dir tmp name k i f_item s
        ≡ some (some (new_item (decode_item dir.bytes at) s), p, after_item s)
  unfolding find_loop
  find_one fuel p dir tmp name zero i at f_item s room lo hi named is_file other =
      absurd (omega (arith, lo, hi))
  find_one fuel p dir tmp name (suc k) i at f_item s room lo hi named is_file other =
      elim (Bool-cases (i == at)) [
        | inl same ↦
            let found =
              find_here fuel p dir tmp name k i f_item s room
                (subst (λ t. is_named dir.bytes name t ≡ true) (ground (arith, same)) named)
                (subst (λ t. is_subdirectory (decode_item dir.bytes t) ≡ false)
                  (ground (arith, same)) is_file)
                (λ j low high.
                  other j (omega (arith, low)) (omega (arith, high)) (ground (arith, same, low))) in
            subst
              (λ t.
                find_loop A c junk fuel p dir tmp name (suc k) i f_item s
                ≡ some (some (new_item (decode_item dir.bytes t) s), p, after_item s))
              (ground (arith, same)) found
        | inr before ↦
            let here =
              is_named_lem dir.bytes name tmp i
              ∙ other i (omega arith) (omega arith) (ground (arith, before)) in
            rw (find_loop, here)
              (find_one fuel p dir (written dir.bytes tmp i) name k (i + 1) at f_item s room
                (ground (arith, lo, before)) (omega (arith, hi)) named is_file
                (λ j low high. other j (omega (arith, low)) (omega (arith, high))))
      ]

  -- No item of the directory has the name: the search gives NULL, and changes nothing.
  pub find_item_none :
      (fuel : ℕ) (p : FatPrivate) (dir : FatDirectory) (name : Array) (total : ℕ) (s : State)
      → dir.total ≡ ok total
      → ((j : ℕ) → j < total → is_named dir.bytes name j ≡ false)
      → fat16_find_item_in_directory A c junk fuel p dir name s ≡ some (none, p, s)
  unfolding fat16_find_item_in_directory
  find_item_none fuel p dir name total s is other =
      rw (fat16_find_item_in_directory, is)
        (find_none fuel p dir junk name total 0 none s (λ j lo hi. other j (omega (arith, hi))))

  -- One item `at` of the directory has the name, and it is a file: the search gives its copy.
  pub find_item_one :
      (fuel : ℕ) (p : FatPrivate) (dir : FatDirectory) (name : Array) (total at : ℕ) (s : State)
      → (kzalloc 8 s).0 ≢ 0
      → dir.total ≡ ok total
      → at < total
      → is_named dir.bytes name at ≡ true
      → is_subdirectory (decode_item dir.bytes at) ≡ false
      → ((j : ℕ) → j < total → j ≢ at → is_named dir.bytes name j ≡ false)
      → fat16_find_item_in_directory A c junk fuel p dir name s
        ≡ some (some (new_item (decode_item dir.bytes at) s), p, after_item s)
  unfolding fat16_find_item_in_directory
  find_item_one fuel p dir name total at s room is within named is_file other =
      rw (fat16_find_item_in_directory, is)
        (find_one fuel p dir junk name total 0 at none s room (omega arith) (omega (arith, within))
          named is_file (λ j lo hi. other j (omega (arith, hi))))
