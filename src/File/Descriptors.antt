-- ===== src/File/Descriptors.antt =====
-- The table of descriptors of src/fs/file.c: taking an entry, finding it, and closing it.
use udemy_kernel.Prelude.{
  ℕ, zero, suc, ◌+◌, ◌-◌, ◌<◌, ◌≤◌, ◌≡◌, ◌≢◌, Bool-cases, inl, inr, none, some, ok, err, eio,
  einvarg, refl, false, arith, ◌==◌,
}
use udemy_kernel.PathParser.{Allocator}
use udemy_kernel.File.{
  Files, FileDescriptor, FileSystem, file_get_descriptor, free_descriptor, file_new_descriptor,
  fclose, fread, fstat, fseek, update_descriptor,
}

-- Every descriptor carries the number of its entry plus one.
abbrev pub IsNumbered : Files → Type 0
IsNumbered f = (i : ℕ) (d : FileDescriptor) → f.file_descriptors i ≡ some d → d.index ≡ i + 1

-- The entry `i` is free, and those in front of it are taken.
pub record IsFirstFree (f : Files) (i : ℕ) : Type 0 where
  pub free : f.file_descriptors i ≡ none
  pub taken : (j : ℕ) → j < i → f.file_descriptors j ≢ none

free_descriptor_lem :
    (f : Files) (k i b : ℕ)
    → IsFirstFree f b
    → i ≤ b
    → b < i + k
    → free_descriptor f.file_descriptors k i ≡ some b
unfolding free_descriptor
free_descriptor_lem f zero i b at lo hi = absurd (omega (arith, lo, hi))
free_descriptor_lem f (suc k) i b at lo hi = elim (Bool-cases (i == b)) [
  | inl here ↦ ground (arith, here, at.free)
  | inr later ↦ ground (
    arith,
    at.taken i (ground (arith, later)),
    free_descriptor_lem f k (i + 1) b at (ground (arith, later)) (omega arith),
  )
]

module _ (A : Allocator) (ops : ℕ → FileSystem A.State) where
  -- Where its allocation succeeds, each descriptor of the table carries the number of its entry
  -- plus one, and entry `i`, below 511, is the first free one: the new descriptor has number i +
  -- 1. Looking the number up gives the file system and the private data it was made for, every
  -- other number gives what it did before, and the table is numbered still.
  pub new_descriptor_lem :
      (f : Files) (fs content i : ℕ) (s : A.State)
      → (A.kzalloc 16 s).0 ≢ 0
      → IsNumbered f
      → IsFirstFree f i
      → i < 511
      → (f' : Files) × (d : FileDescriptor) × (file_new_descriptor A ops f fs content s
          ≡ (ok (i + 1), f', (A.kzalloc 16 s).1))
        × (file_get_descriptor f' (i + 1) ≡ some d)
        × (d.filesystem ≡ fs)
        × (d.private_data ≡ content)
        × ((fd : ℕ) → fd ≢ i + 1 → file_get_descriptor f' fd ≡ file_get_descriptor f fd)
        × IsNumbered f'
  unfolding file_new_descriptor file_get_descriptor
  new_descriptor_lem f fs content i s succeeds numbered at small =
      let d : FileDescriptor = record {
        address = (A.kzalloc 16 s).0;
        index = i + 1;
        filesystem = fs;
        private_data = content;
      } in
      let f' : Files = record f {
        file_descriptors = update_descriptor f.file_descriptors i (some d);
      } in
      (
        f',
        d,
        ground (arith, free_descriptor_lem f 512 0 i at (omega arith) (omega arith), succeeds),
        ground arith,
        refl,
        refl,
        λ fd other. ground arith,
        λ j e held. elim (Bool-cases (j == i)) [
          | inl same ↦ ground (arith, same, held)
          | inr apart ↦ ground (arith, apart, held, numbered j e)
        ],
      )

  -- The defect: where the allocation succeeds and entry 511 is the first free one, the new
  -- descriptor has number 512, and looking that number up gives NULL.
  pub last_descriptor :
      (f : Files) (fs content : ℕ) (s : A.State)
      → (A.kzalloc 16 s).0 ≢ 0
      → IsFirstFree f 511
      → ((file_new_descriptor A ops f fs content s).0 ≡ ok 512)
        × (file_get_descriptor (file_new_descriptor A ops f fs content s).1 512 ≡ none)
  unfolding file_new_descriptor file_get_descriptor
  last_descriptor f fs content s succeeds at =
      ground (arith, free_descriptor_lem f 512 0 511 at (omega arith) (omega arith), succeeds)

  -- Where each descriptor of the table carries the number of its entry plus one, and the file
  -- system of an open number closes the file: the call succeeds, and from then on fread, fstat
  -- and fseek on the number fail and change nothing. Every other number gives what it did before,
  -- and the table is numbered still.
  pub fclose_lem :
      (f : Files) (fd : ℕ) (d : FileDescriptor) (s s' : A.State)
      → IsNumbered f
      → file_get_descriptor f fd ≡ some d
      → (ops d.filesystem).close d.private_data s ≡ (ok tt, s')
      → (f' : Files) × (fclose A ops f fd s ≡ (ok tt, f', A.kfree d.address s'))
        × ((t : A.State) (ptr size nmemb : ℕ)
            → fread A ops f' ptr size nmemb fd t ≡ (err einvarg, t))
        × ((t : A.State) → fstat A ops f' fd t ≡ (err eio, t))
        × ((t : A.State) (offset whence : ℕ) → fseek A ops f' fd offset whence t ≡ (err eio, t))
        × ((e : ℕ) → e ≢ fd → file_get_descriptor f' e ≡ file_get_descriptor f e)
        × IsNumbered f'
  unfolding fclose fread fstat fseek file_get_descriptor
  fclose_lem f fd d s s' numbered found closed =
      let real : (fd == 0) ≡ false = ground (arith, found) in
      let held : f.file_descriptors (fd - 1) ≡ some d = ground (arith, found) in
      let index : d.index ≡ fd - 1 + 1 = numbered (fd - 1) d held in
      let f' : Files = record f {
        file_descriptors = update_descriptor f.file_descriptors (d.index - 1) none;
      } in
      (
        f',
        ground (arith, found, closed),
        λ t ptr size nmemb. ground (arith, index, real),
        λ t. ground (arith, index, real),
        λ t offset whence. ground (arith, index, real),
        λ e other. ground (arith, index, real, other),
        λ j e at. elim (Bool-cases (j == d.index - 1)) [
          | inl same ↦ ground (arith, same, at)
          | inr apart ↦ ground (arith, apart, at, numbered j e)
        ],
      )
