-- ===== src/Fat16/Cluster.antt =====
-- The chains of clusters of src/fs/fat/fat16.c, and reads along them. A `none` is fuel that runs
-- out; `junk` is what a local buffer of the disk stream holds at first.
pub mod Chain
pub mod Read
use udemy_kernel.Prelude.{
  le16, ℕ, zero, suc, ◌+◌, ◌-◌, ◌*◌, ◌/◌, ◌%◌, ◌^◌, ◌||◌, Bool, Option, none, some, Array, Result,
  ok, err, eio, leb, ltb, ◌==◌, if◌then◌else◌,
}
use udemy_kernel.Disk.{Controller, DiskStream, diskstreamer_seek}
use udemy_kernel.Fat16.{
  FatPrivate, fat16_cluster_to_sector, fat16_get_first_fat_sector, cluster_bytes, stream_read,
}

-- The position that `fat16_get_fat_entry` seeks to, for the first sector of the table.
unfoldable pub fat_entry_position : (first cluster : ℕ) → ℕ
fat_entry_position first cluster = first * 512 % 2 ^ 32 * (cluster * 2) % 2 ^ 32

-- The entries that end the walk with EIO.
unfoldable pub is_last : ℕ → Bool
is_last entry =
    entry == 0xFF8
    || (entry == 0xFFF || (entry == 0xFF7 || (entry == 0xFF0 || (entry == 0xFF6 || entry == 0x00))))

module _ (c : Controller) (junk : Array) where
  -- The result, and the stream of the table.
  unfoldable pub fat16_get_fat_entry : FatPrivate → (cluster : ℕ) → Option (Result ℕ × FatPrivate)
  unfolding fat16_get_first_fat_sector
  fat16_get_fat_entry p cluster =
      let position = fat_entry_position (fat16_get_first_fat_sector p) cluster in
      let (_, stream) = diskstreamer_seek p.fat_read_stream position in
      elim (stream_read c junk stream 0 2 (λ _. 0)) [
        | none ↦ none
        | some (err e, stream', _) ↦ some (err e, record p { fat_read_stream = stream' })
        | some (ok _, stream', result) ↦
            some (ok (le16 result 0), record p { fat_read_stream = stream' })
      ]

  -- The loop of `fat16_get_cluster_for_offset` with `k` rounds left. The one negative number that
  -- the disk gives is -EIO.
  pub walk : (k : ℕ) → FatPrivate → (cluster_to_use : ℕ) → Option (Result ℕ × FatPrivate)
  walk zero p cluster = if leb (2 ^ 31) cluster then some (err eio, p) else some (ok cluster, p)
  walk (suc k) p cluster = elim (fat16_get_fat_entry p cluster) [
    | none ↦ none
    -- A negative entry is none of the marks, and the walk goes on with it.
    | some (err e, p') ↦ walk k p' (2 ^ 32 - 1)
    | some (ok entry, p') ↦
        let rest = walk k p' entry in if is_last entry then some (err eio, p') else rest
  ]

  unfoldable pub fat16_get_cluster_for_offset :
      FatPrivate → (starting_cluster offset : ℕ) → Option (Result ℕ × FatPrivate)
  unfolding walk
  fat16_get_cluster_for_offset p starting_cluster offset =
      walk (offset / cluster_bytes p) p starting_cluster

  -- The stream that is read is that of the clusters; `at` is the index of `out` in its buffer. Each
  -- recursive call takes one of the fuel.
  unfoldable pub fat16_read_internal :
      (fuel : ℕ)
      → FatPrivate
      → (cluster offset total at : ℕ) → Array
      → Option (Result (Unit {0}) × FatPrivate × Array)
  fat16_read_internal zero p cluster offset total at out = none
  fat16_read_internal (suc fuel) p cluster offset total at out =
      elim (fat16_get_cluster_for_offset p cluster offset) [
        | none ↦ none
        | some (err e, p1) ↦ some (err e, p1, out)
        | some (ok cluster_to_use, p1) ↦
            let starting_sector = fat16_cluster_to_sector p1 cluster_to_use in
            let starting_pos = (starting_sector * 512 + offset % cluster_bytes p) % 2 ^ 32 in
            let total_to_read = if ltb (cluster_bytes p) total then cluster_bytes p else total in
            let (_, stream) = diskstreamer_seek p1.cluster_read_stream starting_pos in
            elim (stream_read c junk stream at total_to_read out) [
              | none ↦ none
              | some (err e, stream', out') ↦
                  some (err e, record p1 { cluster_read_stream = stream' }, out')
              | some (ok done, stream', out') ↦
                  let p2 : FatPrivate = record p1 { cluster_read_stream = stream' } in
                  let rest =
                    fat16_read_internal fuel p2 cluster (offset + total_to_read)
                      (total - total_to_read) (at + total_to_read) out' in
                  if ltb 0 (total - total_to_read) then rest else some (ok done, p2, out')
            ]
      ]
