-- ===== src/Fat16/Cluster/Chain.antt =====
-- Walks and reads of src/fs/fat/fat16.c along a chain of clusters.
use mathlib.Core.Path.{subst, sym}
use native.Mathlib.Nat.{mod-add-div, mul-add-div, div-lt_iff_lt-mul, mod-eq-sub-mul-div}
use udemy_kernel.Prelude.{
  le16, ℕ, zero, suc, ◌+◌, ◌-◌, ◌*◌, ◌/◌, ◌%◌, ◌^◌, ◌<◌, ◌≤◌, ◌≡◌, ◌≢◌, ◌∙◌, ap, refl, true, false,
  some, Array, ok, err, eio, arith,
}
use udemy_kernel.Disk.{Controller, DiskStream, the_disk, diskstreamer_seek}
use udemy_kernel.Disk.Stream.{stream_at, diskstreamer_read_lem}
use udemy_kernel.Fat16.{cluster_bytes, FatPrivate}
use udemy_kernel.Fat16.Cluster.{
  fat16_get_cluster_for_offset, fat_entry_position, is_last, fat16_get_fat_entry, walk,
}

-- Numbers in the same block of `b` bytes.
pub div_within : (o j b : ℕ) → o % b + j < b → (o + j) / b ≡ o / b
div_within o j b within =
    let whole : b * (o / b) + (o % b + j) ≡ o + j = omega (arith, mod-add-div o b) in
    let none_left : (o % b + j) / b < 1 =
      (div-lt_iff_lt-mul (omega (arith, within))).1 (omega (arith, within)) in
    rw (← whole)
      (omega (arith, mul-add-div {m = b} (omega (arith, within)) (o / b) (o % b + j), none_left))

pub mod_within : (o j b : ℕ) → o % b + j < b → (o + j) % b ≡ o % b + j
mod_within o j b within =
    let whole : o % b + b * (o / b) ≡ o = mod-add-div o b in
    mod-eq-sub-mul-div (o + j) b
    ∙ ap (λ q. o + j - b * q) (div_within o j b within)
    ∙ omega (arith, whole)

-- The first sector of the table.
abbrev pub table_of : FatPrivate → ℕ
table_of p = p.header.primary_header.reserved_sectors

-- Where the entry of a cluster lies, for a table that starts at the sector `first`: the number of
-- bytes in front of the table, times two bytes for each cluster.
abbrev pub entry_position : (first cluster : ℕ) → ℕ
entry_position first cluster = first * 512 * (cluster * 2)

-- The entry of a cluster on the disk.
abbrev pub entry_at : Controller → (first cluster : ℕ) → ℕ
entry_at c first cluster = le16 c.image (entry_position first cluster)

-- An entry that names a cluster: neither free, nor reserved, nor bad, nor an end of the file.
abbrev pub IsLink : (entry : ℕ) → Type 0
IsLink entry =
    (entry ≢ 0)
    × (entry ≢ 0xFF0)
    × (entry ≢ 0xFF6)
    × (entry ≢ 0xFF7)
    × (entry ≢ 0xFF8)
    × (entry ≢ 0xFFF)

IsLink-is_last : (entry : ℕ) → IsLink entry → is_last entry ≡ false
unfolding is_last
IsLink-is_last entry link = ground (arith, link)

-- A position that the disk can be read at does not wrap around.
fat_entry_position_lem :
    (first cluster : ℕ)
    → entry_position first cluster + 514 ≤ 2 ^ 31
    → fat_entry_position first cluster ≡ entry_position first cluster
unfolding fat_entry_position
fat_entry_position_lem first zero small = omega arith
fat_entry_position_lem first (suc k) small =
    let product : first * 512 * (suc k * 2) ≡ first * 1024 * k + first * 1024 = omega arith in
    let low : first * 512 % 2 ^ 32 ≡ first * 512 = omega (arith, product, small) in
    rw low (omega (arith, small))

-- The cluster `k` steps behind another.
unfoldable pub chain : Controller → (first k cluster : ℕ) → ℕ
chain c first zero cluster = cluster
chain c first (suc k) cluster = chain c first k (entry_at c first cluster)

-- The `k` entries from a cluster on are no marks, and lie where the disk can be read.
abbrev pub GoesOn : Controller → (first k cluster : ℕ) → Type 0
GoesOn c first zero cluster = Unit
GoesOn c first (suc k) cluster =
    IsLink (entry_at c first cluster)
    × (entry_position first cluster + 514 ≤ 2 ^ 31)
    × GoesOn c first k (entry_at c first cluster)

-- A shorter part of such a chain is one.
pub GoesOn-le :
    (c : Controller) (first k m cluster : ℕ)
    → m ≤ k
    → GoesOn c first k cluster
    → GoesOn c first m cluster
GoesOn-le c first k zero cluster le on = tt
GoesOn-le c first zero (suc m) cluster le on = absurd (omega (arith, le))
GoesOn-le c first (suc k) (suc m) cluster le on =
    (on.0, on.1, GoesOn-le c first k m (entry_at c first cluster) (omega (arith, le)) on.2)

pub seek_at : (s : DiskStream) (x : ℕ) → s.disk ≡ the_disk → (diskstreamer_seek s x).1 ≡ stream_at x
unfolding diskstreamer_seek
seek_at s x is = ap (λ d. record { pos = x; disk = d }) is

get_fat_entry_lem :
    (c : Controller) (junk : Array) (p : FatPrivate) (cluster : ℕ)
    → p.fat_read_stream.disk ≡ the_disk
    → entry_position (table_of p) cluster + 514 ≤ 2 ^ 31
    → fat16_get_fat_entry c junk p cluster
      ≡ some (
        ok (entry_at c (table_of p) cluster),
        record p { fat_read_stream = stream_at (entry_position (table_of p) cluster + 2) },
      )
unfolding fat16_get_fat_entry
get_fat_entry_lem c junk p cluster is small =
    let position : ℕ = entry_position (table_of p) cluster in
    let (r, read, bytes) =
      diskstreamer_read_lem c junk 2 position 0 2 (λ _. 0) (omega (arith, small)) (omega arith) in
    let value : le16 r 0 ≡ le16 c.image position = ground (arith, bytes 0, bytes 1) in
    rw
      (
        fat16_get_fat_entry,
        fat_entry_position_lem (table_of p) cluster small,
        seek_at p.fat_read_stream position is,
        read,
        value,
      )
      refl

-- A walk of `k` steps, none of whose entries is a mark, ends at the cluster `k` steps behind.
pub walk_lem :
    (c : Controller) (junk : Array) (k : ℕ) (p : FatPrivate) (cluster : ℕ)
    → p.fat_read_stream.disk ≡ the_disk
    → cluster < 2 ^ 31
    → GoesOn c (table_of p) k cluster
    → (q : DiskStream) × (walk c junk k p cluster
        ≡ some (ok (chain c (table_of p) k cluster), record p { fat_read_stream = q }))
      × (q.disk ≡ the_disk)
unfolding walk chain
walk_lem c junk zero p cluster is small on = (p.fat_read_stream, ground arith, is)
walk_lem c junk (suc k) p cluster is small on =
    let position : ℕ = entry_position (table_of p) cluster in
    let p' : FatPrivate = record p { fat_read_stream = stream_at (position + 2) } in
    let (q, walked, ends) =
      walk_lem c junk k p' (entry_at c (table_of p) cluster) refl
        (omega (arith, c.is_byte position, c.is_byte (position + 1))) on.2 in
    (
      q,
      ground (
        arith,
        get_fat_entry_lem c junk p cluster is on.1,
        IsLink-is_last (entry_at c (table_of p) cluster) on.0,
        walked,
      ),
      ends,
    )

-- The walk ends with EIO at the first mark: an entry behind `k` that are none.
walk_mark :
    (c : Controller) (junk : Array) (k more : ℕ) (p : FatPrivate) (cluster : ℕ)
    → p.fat_read_stream.disk ≡ the_disk
    → GoesOn c (table_of p) k cluster
    → entry_position (table_of p) (chain c (table_of p) k cluster) + 514 ≤ 2 ^ 31
    → is_last (entry_at c (table_of p) (chain c (table_of p) k cluster)) ≡ true
    → (q : DiskStream) × (walk c junk (k + suc more) p cluster
        ≡ some (err eio, record p { fat_read_stream = q }))
unfolding walk chain
walk_mark c junk zero more p cluster is on small mark =
    let position : ℕ = entry_position (table_of p) cluster in
    (stream_at (position + 2), ground (arith, get_fat_entry_lem c junk p cluster is small, mark))
walk_mark c junk (suc k) more p cluster is on small mark =
    let position : ℕ = entry_position (table_of p) cluster in
    let p' : FatPrivate = record p { fat_read_stream = stream_at (position + 2) } in
    let (q, walked) =
      walk_mark c junk k more p' (entry_at c (table_of p) cluster) refl on.2 small mark in
    let shape : suc k + suc more ≡ suc (k + suc more) = omega arith in
    (
      q,
      rw shape (
          ground (
            arith,
            get_fat_entry_lem c junk p cluster is on.1,
            IsLink-is_last (entry_at c (table_of p) cluster) on.0,
            walked,
          )),
    )

-- On a stream of the disk, for an offset more than `k` clusters into a file: where `k` entries from
-- its first cluster on are no marks, the next is one, and they lie where the disk can be read, the
-- search for the cluster of the offset ends with EIO.
pub get_cluster_for_offset_mark :
    (c : Controller) (junk : Array) (k : ℕ) (p : FatPrivate) (cluster offset : ℕ)
    → p.fat_read_stream.disk ≡ the_disk
    → k < offset / cluster_bytes p
    → GoesOn c (table_of p) k cluster
    → entry_position (table_of p) (chain c (table_of p) k cluster) + 514 ≤ 2 ^ 31
    → is_last (entry_at c (table_of p) (chain c (table_of p) k cluster)) ≡ true
    → (q : DiskStream) × (fat16_get_cluster_for_offset c junk p cluster offset
        ≡ some (err eio, record p { fat_read_stream = q }))
unfolding fat16_get_cluster_for_offset
get_cluster_for_offset_mark c junk k p cluster offset is behind on small mark =
    let more : ℕ = offset / cluster_bytes p - suc k in
    let (q, walked) = walk_mark c junk k more p cluster is on small mark in
    let shape : offset / cluster_bytes p ≡ k + suc more = omega (arith, behind) in
    (
      q,
      subst (λ n. walk c junk n p cluster ≡ some (err eio, record p { fat_read_stream = q }))
          (sym shape) walked,
    )
