-- ===== src/Fat16/Cluster/Read.antt =====
-- Reads of src/fs/fat/fat16.c that span clusters.
use native.Mathlib.Nat.{le-div_iff_mul-le, div-mul-le_self, add-mod_right}
use udemy_kernel.Prelude.{
  sub32, ℕ, zero, suc, ◌+◌, ◌-◌, ◌*◌, ◌/◌, ◌%◌, ◌^◌, ◌<◌, ◌≤◌, ◌≡◌, ◌⊎◌, ◌∙◌, ap, inl, inr, refl,
  true, false, some, Array, ok, ltb, leb, ◌&&◌, if◌then◌else◌, arith, Bool-cases,
}
use udemy_kernel.Disk.{Controller, DiskStream, the_disk, diskstreamer_read}
use udemy_kernel.Disk.Stream.{stream_at, diskstreamer_read_lem, Reads}
use udemy_kernel.Fat16.{FatPrivate, cluster_bytes, fat16_cluster_to_sector}
use udemy_kernel.Fat16.Cluster.{fat16_get_cluster_for_offset, fat16_read_internal}
use udemy_kernel.Fat16.Cluster.Chain.{
  table_of, chain, GoesOn, GoesOn-le, seek_at, walk_lem, div_within, mod_within,
}

-- The bytes of a cluster, of sectors of 512 bytes.
abbrev pub cluster_size : FatPrivate → ℕ
cluster_size p = p.header.primary_header.sectors_per_cluster * 512

-- The cluster that holds the byte `x` of the file.
abbrev pub cluster_of : Controller → FatPrivate → (cluster x : ℕ) → ℕ
cluster_of c p cluster x = chain c (table_of p) (x / cluster_size p) cluster

-- The first sector of a cluster: the clusters from 2 on lie behind the root directory.
abbrev pub sector_of : FatPrivate → (cluster : ℕ) → ℕ
sector_of p cluster =
    p.root_directory.ending_sector_pos + (cluster - 2) * p.header.primary_header.sectors_per_cluster

-- The position on the disk of the byte `x` of the file that starts at `cluster`.
abbrev pub position_of : Controller → FatPrivate → (cluster x : ℕ) → ℕ
position_of c p cluster x = sector_of p (cluster_of c p cluster x) * 512 + x % cluster_size p

-- What a read of `total` bytes of the file from `offset` on into `out + at` gives.
abbrev pub ReadsFile :
    Controller → FatPrivate → (cluster offset at total : ℕ) → (out r : Array) → Type 0
ReadsFile c p cluster offset at total out r =
    (j : ℕ)
    → r j ≡ (
        if leb at j && ltb j (at + total)
        then c.image (position_of c p cluster (offset + (j - at)))
        else out j)

-- The chain of the file goes on up to `last`, and its clusters have numbers from 2 on and lie
-- where the disk can be read.
pub record InReach (c : Controller) (p : FatPrivate) (cluster last : ℕ) : Type 0 where
  pub goes_on : GoesOn c (table_of p) (last / cluster_size p) cluster
  pub start : cluster < 2 ^ 31
  pub low :
      (x : ℕ)
      → x ≤ last
      → (2 ≤ cluster_of c p cluster x)
        × (sector_of p (cluster_of c p cluster x) * 512 + 2 * cluster_size p + 512 ≤ 2 ^ 31)

le_mul : (a b : ℕ) → 0 < b → a ≤ a * b
le_mul a zero real = absurd (omega (arith, real))
le_mul a (suc b) real = omega arith

-- A cluster that the disk can be read at.
fat16_cluster_to_sector_lem :
    (p : FatPrivate) (cluster : ℕ)
    → 0 < cluster_bytes p
    → 2 ≤ cluster
    → sector_of p cluster * 512 < 2 ^ 32
    → fat16_cluster_to_sector p cluster ≡ sector_of p cluster
unfolding fat16_cluster_to_sector
fat16_cluster_to_sector_lem p cluster real from small =
    let width : ℕ = p.header.primary_header.sectors_per_cluster in
    let steps : cluster - 2 ≤ (cluster - 2) * width =
      le_mul (cluster - 2) width (omega (arith, real)) in
    let nowrap : sub32 cluster 2 ≡ cluster - 2 = omega (arith, from, small, steps) in
    rw nowrap (omega (arith, small))

cluster_of_lem :
    (c : Controller) (junk : Array) (p : FatPrivate) (cluster x : ℕ)
    → p.fat_read_stream.disk ≡ the_disk
    → cluster < 2 ^ 31
    → GoesOn c (table_of p) (x / cluster_bytes p) cluster
    → (q : DiskStream) × (fat16_get_cluster_for_offset c junk p cluster x
        ≡ some (ok (cluster_of c p cluster x), record p { fat_read_stream = q }))
      × (q.disk ≡ the_disk)
unfolding fat16_get_cluster_for_offset
cluster_of_lem c junk p cluster x is small on =
    walk_lem c junk (x / cluster_bytes p) p cluster is small on

-- Bytes of one cluster follow one another on the disk.
cluster-ReadsFile :
    (c : Controller) (p : FatPrivate) (cluster offset at n : ℕ) (out r : Array)
    → offset % cluster_bytes p + n ≤ cluster_bytes p
    → Reads c (position_of c p cluster offset) at n out r
    → ReadsFile c p cluster offset at n out r
cluster-ReadsFile c p cluster offset at n out r fits reads j =
    elim (Bool-cases (leb at j && ltb j (at + n))) [
      | inl inside ↦
          let within : offset % cluster_bytes p + (j - at) < cluster_bytes p =
            ground (arith, inside, fits) in
          let same : cluster_of c p cluster (offset + (j - at)) ≡ cluster_of c p cluster offset =
            ap (λ i. chain c (table_of p) i cluster)
              (div_within offset (j - at) (cluster_bytes p) within) in
          let position : position_of c p cluster (offset + (j - at))
              ≡ position_of c p cluster offset + (j - at) =
            rw (same, mod_within offset (j - at) (cluster_bytes p) within) (omega arith) in
          rw position (reads j)
      | inr outside ↦ ground (arith, reads j, outside)
    ]

-- A first part of `n` bytes, and the rest.
pub ReadsFile-append :
    (c : Controller) (p : FatPrivate) (cluster offset at n total : ℕ) (out mid r : Array)
    → n ≤ total
    → ReadsFile c p cluster offset at n out mid
    → ReadsFile c p cluster (offset + n) (at + n) (total - n) mid r
    → ReadsFile c p cluster offset at total out r
ReadsFile-append c p cluster offset at n total out mid r le first second j =
    elim (Bool-cases (leb (at + n) j)) [
      | inl later ↦
          let place : offset + n + (j - (at + n)) ≡ offset + (j - at) = ground arith in
          let moved : c.image (position_of c p cluster (offset + n + (j - (at + n))))
              ≡ c.image (position_of c p cluster (offset + (j - at))) =
            ap (λ x. c.image (position_of c p cluster x)) place in
          ground (arith, first j, second j, moved)
      | inr earlier ↦ ground (arith, first j, second j)
    ]

-- What one round of the read finds.
pub record Round (c : Controller) (junk : Array) (p : FatPrivate) (cluster offset n at : ℕ)
    (out : Array) : Type 0 where
  table : DiskStream
  table_disk : table.disk ≡ the_disk
  found :
      fat16_get_cluster_for_offset c junk p cluster offset
      ≡ some (ok (cluster_of c p cluster offset), record p { fat_read_stream = table })
  bytes : Array
  done :
      diskstreamer_read c junk (n / 512 + 2) (stream_at (position_of c p cluster offset)) at n out
      ≡ some (ok tt, stream_at (position_of c p cluster offset + n), bytes)
  reads : ReadsFile c p cluster offset at n out bytes

read-Round :
    (c : Controller) (junk : Array) (p : FatPrivate) (cluster offset n at last : ℕ) (out : Array)
    → p.fat_read_stream.disk ≡ the_disk
    → InReach c p cluster last
    → offset ≤ last
    → offset % cluster_bytes p + n ≤ cluster_bytes p
    → 0 < cluster_bytes p
    → Round c junk p cluster offset n at out
read-Round c junk p cluster offset n at last out is reach le fits real =
    let ahead : offset / cluster_bytes p ≤ last / cluster_bytes p =
      (le-div_iff_mul-le real).1 (omega (arith, div-mul-le_self offset (cluster_bytes p), le)) in
    let (q, found, ends) = cluster_of_lem c junk p cluster offset is reach.start (
      GoesOn-le c (table_of p) (last / cluster_bytes p) (offset / cluster_bytes p) cluster ahead
        reach.goes_on) in
    let position : ℕ = position_of c p cluster offset in
    let (r, read, bytes) =
      diskstreamer_read_lem c junk (n / 512 + 2) position at n out
        (omega (arith, (reach.low offset le).1, fits)) (omega arith) in
    record {
      table = q;
      table_disk = ends;
      found = found;
      bytes = r;
      done = read;
      reads = cluster-ReadsFile c p cluster offset at n out r fits bytes;
    }

-- A read of the rest starts at the start of a cluster, or all of it lies in one.
abbrev pub Fits : FatPrivate → (offset total : ℕ) → Type 0
Fits p offset total =
    (offset % cluster_size p ≡ 0) ⊎ (offset % cluster_size p + total ≤ cluster_size p)

pub record WasRead (c : Controller) (junk : Array) (fuel : ℕ) (p : FatPrivate)
    (cluster offset total at : ℕ) (out : Array) : Type 0 where
  pub table : DiskStream
  pub data_stream : DiskStream
  pub table_disk : table.disk ≡ the_disk
  pub data_disk : data_stream.disk ≡ the_disk
  pub bytes : Array
  pub done :
      fat16_read_internal c junk fuel p cluster offset total at out
      ≡ some (ok tt, record p { fat_read_stream = table; cluster_read_stream = data_stream }, bytes)
  pub reads : ReadsFile c p cluster offset at total out bytes

-- Streams that have moved on change nothing of where the file lies.
pub moved-InReach :
    (c : Controller) (p : FatPrivate) (q r : DiskStream) (cluster last : ℕ)
    → InReach c p cluster last
    → InReach c (record p { fat_read_stream = q; cluster_read_stream = r }) cluster last
moved-InReach c p q r cluster last reach = record {
  goes_on = reach.goes_on;
  start = reach.start;
  low = reach.low;
}

pub moved-ReadsFile :
    (c : Controller) (p : FatPrivate) (q r : DiskStream) (cluster offset at total : ℕ)
    (out bytes : Array)
    → ReadsFile c
        (record p { fat_read_stream = q; cluster_read_stream = r })
        cluster
        offset
        at
        total
        out
        bytes
    → ReadsFile c p cluster offset at total out bytes
moved-ReadsFile c p q r cluster offset at total out bytes reads = reads

-- A round that finds its cluster and reads `n` bytes from it.
read_round :
    (c : Controller) (junk : Array) (fuel : ℕ) (p : FatPrivate) (cluster offset total at n : ℕ)
    (out bytes : Array) (q : DiskStream)
    → p.cluster_read_stream.disk ≡ the_disk
    → fat16_get_cluster_for_offset c junk p cluster offset
      ≡ some (ok (cluster_of c p cluster offset), record p { fat_read_stream = q })
    → (if ltb (cluster_bytes p) total then cluster_bytes p else total) ≡ n
    → 0 < cluster_bytes p
    → 2 ≤ cluster_of c p cluster offset
    → position_of c p cluster offset < 2 ^ 32
    → diskstreamer_read c junk (n / 512 + 2) (stream_at (position_of c p cluster offset)) at n out
      ≡ some (ok tt, stream_at (position_of c p cluster offset + n), bytes)
    → fat16_read_internal c junk (suc fuel) p cluster offset total at out ≡ (
        let p2 : FatPrivate = record p {
          fat_read_stream = q;
          cluster_read_stream = stream_at (position_of c p cluster offset + n);
        } in
        if ltb 0 (total - n)
        then fat16_read_internal c junk fuel p2 cluster (offset + n) (total - n) (at + n) bytes
        else some (ok tt, p2, bytes))
unfolding fat16_read_internal
read_round c junk fuel p cluster offset total at n out bytes q js found takes real from small done =
    let sector =
      fat16_cluster_to_sector_lem (record p { fat_read_stream = q }) (cluster_of c p cluster offset)
        real from (omega (arith, small)) in
    let nowrap : position_of c p cluster offset % 2 ^ 32 ≡ position_of c p cluster offset =
      omega (arith, small) in
    rw
      (
        fat16_read_internal,
        found,
        sector,
        nowrap,
        takes,
        seek_at p.cluster_read_stream (position_of c p cluster offset) js,
        done,
        takes,
      )
      refl

pub read_internal_lem :
    (c : Controller) (junk : Array) (fuel : ℕ) (p : FatPrivate) (cluster offset total at last : ℕ)
    (out : Array)
    → p.fat_read_stream.disk ≡ the_disk
    → p.cluster_read_stream.disk ≡ the_disk
    → 0 < cluster_bytes p
    → InReach c p cluster last
    → offset ≤ last
    → offset + total ≤ last + 1
    → Fits p offset total
    → total < fuel
    → WasRead c junk fuel p cluster offset total at out
read_internal_lem c junk zero p cluster offset total at last out is js real reach le end fits
      enough =
    absurd (omega (arith, enough))
read_internal_lem c junk (suc fuel) p cluster offset total at last out is js real reach le end fits
      enough =
    elim (Bool-cases (ltb (cluster_bytes p) total)) [
      | inl more ↦
          let cb : ℕ = cluster_bytes p in
          let start : offset % cb ≡ 0 = ground (arith, fits, more) in
          let one =
            read-Round c junk p cluster offset cb at last out is reach le (omega (arith, start))
              real in
          let behind : DiskStream = stream_at (position_of c p cluster offset + cb) in
          let p2 : FatPrivate = record p {
            fat_read_stream = one.table;
            cluster_read_stream = behind;
          } in
          let rest =
            read_internal_lem c junk fuel p2 cluster (offset + cb) (total - cb) (at + cb) last
              one.bytes one.table_disk refl real
              (moved-InReach c p one.table behind cluster last reach) (ground (arith, more, end))
              (ground (arith, more, end)) (inl (add-mod_right offset cb ∙ start))
              (ground (arith, more, enough, real)) in
          let goes : ltb 0 (total - cb) ≡ true = ground (arith, more) in
          record {
            table = rest.table;
            data_stream = rest.data_stream;
            table_disk = rest.table_disk;
            data_disk = rest.data_disk;
            bytes = rest.bytes;
            done =
                read_round c junk fuel p cluster offset total at cb out one.bytes one.table js
                  one.found (ground (arith, more)) real (reach.low offset le).0
                  (omega (arith, (reach.low offset le).1)) one.done
                ∙ rw goes rest.done;
            reads =
                ReadsFile-append c p cluster offset at cb total out one.bytes rest.bytes
                  (ground (arith, more)) one.reads
                  (moved-ReadsFile c p one.table behind cluster (offset + cb) (at + cb) (total - cb)
                    one.bytes rest.bytes rest.reads);
          }
      | inr all ↦
          let one =
            read-Round c junk p cluster offset total at last out is reach le
              (ground (arith, fits, all)) real in
          let goes : ltb 0 (total - total) ≡ false = ground arith in
          record {
            table = one.table;
            data_stream = stream_at (position_of c p cluster offset + total);
            table_disk = one.table_disk;
            data_disk = refl;
            bytes = one.bytes;
            done =
                read_round c junk fuel p cluster offset total at total out one.bytes one.table js
                  one.found (ground (arith, all)) real (reach.low offset le).0
                  (omega (arith, (reach.low offset le).1)) one.done
                ∙ rw goes refl;
            reads = one.reads;
          }
    ]
