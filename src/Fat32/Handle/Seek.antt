-- ===== src/Fat32/Handle/Seek.antt =====
-- fat32_seek of src/fs/fat/fat32.c.
use udemy_kernel.Prelude.{
  ℕ, zero, suc, ◌+◌, ◌-◌, ◌%◌, ◌^◌, ◌≤◌, ◌≡◌, ◌∙◌, refl, Option, none, some, Array, ok, ◌==◌,
  if◌then◌else◌, arith, Bool-cases, inl, inr, sub32,
}
use udemy_kernel.Disk.{Controller}
use udemy_kernel.Fat32.{FatPrivate}
use udemy_kernel.Fat32.Handle.{
  FatPrivateFileHandle, min, next_cluster, seek_loop, seek_cur, fat32_seek,
}

-- What a step that gives a volume and a handle passes on.
passed :
    (m : Option (FatPrivate × FatPrivateFileHandle))
    (f : FatPrivate → FatPrivateFileHandle → Option (FatPrivate × FatPrivateFileHandle))
    {r : FatPrivate × FatPrivateFileHandle}
    → ◌≡◌ {A = Option (FatPrivate × FatPrivateFileHandle)}
        (elim m [ none ↦ none | some (p, h) ↦ f p h ])
        (some r)
    → (p : FatPrivate) × (h : FatPrivateFileHandle) × (m ≡ some (p, h)) × (f p h ≡ some r)
passed none f went = cc
passed (some (p, h)) f went = (p, h, refl, went)

module _ (c : Controller) (junk : Array) where
  next_cluster_pos :
      (p p' : FatPrivate) (h h' : FatPrivateFileHandle)
      → next_cluster c junk p h ≡ some (p', h')
      → h'.file_pos ≡ h.file_pos
  unfolding next_cluster
  next_cluster_pos p p' h h' stepped = ground arith

  seek_loop_pos :
      (fuel : ℕ) (p p' : FatPrivate) (h h' : FatPrivateFileHandle) (offset : ℕ)
      → seek_loop c junk fuel p h offset ≡ some (p', h')
      → h'.file_pos ≡ h.file_pos
  unfolding seek_loop
  seek_loop_pos zero p p' h h' offset went = ground arith
  seek_loop_pos (suc fuel) p p' h h' offset went = elim (Bool-cases (offset == 0)) [
    | inl end ↦ ground (arith, went, end)
    | inr more ↦
        let seek = min offset (sub32 p.cluster_size_bytes h.position_in_cluster) in
        let moved = record h { position_in_cluster = (h.position_in_cluster + seek) % 2 ^ 32 } in
        let (p1, h1, stepped, rest) =
          passed (next_cluster c junk p moved)
            (λ p1 h1. seek_loop c junk fuel p1 h1 (offset - seek)) (rw more at went) in
        seek_loop_pos fuel p1 p' h1 h' (offset - seek) rest ∙ next_cluster_pos p p1 moved h1 stepped
  ]

  seek_cur_pos :
      (fuel : ℕ) (p p' : FatPrivate) (h h' : FatPrivateFileHandle) (offset : ℕ)
      → seek_cur c junk fuel p h offset ≡ some (ok tt, p', h')
      → (h'.file_pos ≡ h.file_pos) × (h.file_size ≤ (h.file_pos + offset) % 2 ^ 32)
  unfolding seek_cur
  seek_cur_pos fuel p p' h h' offset went = ground (arith, seek_loop_pos fuel p p' h h' offset)

  -- The defect: a seek from the start or from the current position that succeeds was not to a place
  -- inside the file, and it does not move the position in the file, which stays, or is 0 after a
  -- seek from the start.
  pub fat32_seek_lem :
      (fuel : ℕ) (p p' : FatPrivate) (h h' : FatPrivateFileHandle) (offset seek_mode : ℕ)
      → fat32_seek c junk fuel p h offset seek_mode ≡ some (ok tt, p', h')
      → (h'.file_pos ≡ (if seek_mode == 0 then 0 else h.file_pos))
        × (h.file_size ≤ (h'.file_pos + offset) % 2 ^ 32)
  unfolding fat32_seek
  fat32_seek_lem fuel p p' h h' offset seek_mode went =
      let start = record h {
        current_cluster = h.starting_cluster;
        position_in_cluster = 0;
        file_pos = 0;
      } in
      ground (arith, seek_cur_pos fuel p p' h h' offset, seek_cur_pos fuel p p' start h' offset)
