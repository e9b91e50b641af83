-- ===== src/Disk/Stream.antt =====
-- diskstreamer_read of src/disk/streamer.c: a read of any length at any position.
use udemy_kernel.Prelude.{
  ◌∙◌, ap, refl, ◌*◌, ◌/◌, ℕ, zero, suc, ◌+◌, ◌-◌, ◌*◌, ◌/◌, ◌%◌, ◌^◌, ◌≤◌, ◌<◌, ◌≡◌, refl, Array,
  update, ok, err, eio, some, arith, leb, ltb, ◌&&◌, if◌then◌else◌, Bool-cases, inl, inr,
}
use udemy_kernel.Disk.{
  Controller, DiskStream, the_disk, elsewhere, disk_read_block, disk_read_sector, copy_loop,
  diskstreamer_read,
}
use udemy_kernel.Disk.Sector.{disk_read_sector_lem}

copy_loop_lem :
    (buf : Array) (offset k i at : ℕ) (out : Array) (j : ℕ)
    → copy_loop buf offset k i at out j
      ≡ (if leb at j && ltb j (at + k) then buf (offset + i + (j - at)) else out j)
unfolding copy_loop
copy_loop_lem buf offset zero i at out j = ground arith
copy_loop_lem buf offset (suc k) i at out j =
    ground (arith, copy_loop_lem buf offset k (i + 1) (at + 1) (update out at (buf (offset + i))) j)

abbrev pub stream_at : ℕ → DiskStream
stream_at p = record { pos = p; disk = the_disk }

-- What a read of `total` bytes at position `p` into `out + at` gives.
abbrev pub Reads : Controller → (p at total : ℕ) → (out r : Array) → Type 0
Reads c p at total out r =
    (j : ℕ) → r j ≡ (if leb at j && ltb j (at + total) then c.image (p + (j - at)) else out j)

-- The bytes of one round: up to the end of the sector.
round_Reads :
    (c : Controller) (junk : Array) (p at k : ℕ) (out : Array)
    → p < 2 ^ 31
    → p % 512 + k ≤ 512
    → Reads c p at k out (copy_loop (disk_read_sector c (p / 512) 1 junk).1 (p % 512) k 0 at out)
round_Reads c junk p at k out small fits j =
    let (_, bytes) =
      disk_read_sector_lem c (p / 512) 1 junk (omega arith) (omega arith) (omega arith) in
    let position : 512 * (p / 512) + (p % 512 + 0 + (j - at)) ≡ p + (j - at) = omega arith in
    ground (
      arith,
      copy_loop_lem (disk_read_sector c (p / 512) 1 junk).1 (p % 512) k 0 at out j,
      bytes (p % 512 + 0 + (j - at)),
      position,
    )

Reads-append :
    (c : Controller) (p at k total : ℕ) (out mid r : Array)
    → k ≤ total
    → Reads c p at k out mid
    → Reads c (p + k) (at + k) (total - k) mid r
    → Reads c p at total out r
Reads-append c p at k total out mid r le first second j = elim (Bool-cases (leb (at + k) j)) [
  | inl later ↦
      let position : p + k + (j - (at + k)) ≡ p + (j - at) = ground arith in
      ground (arith, first j, second j, position)
  | inr earlier ↦ ground (arith, first j, second j)
]

-- Given fuel for one round in each sector that the read touches, and a position and length that
-- stay below 2^31 - 512, a read of the disk's stream succeeds: the stream has moved on by `total`
-- bytes, the `total` bytes at `out + at` are those of the disk from the position on, whatever
-- sectors they span, and no other byte of `out` changes.
pub diskstreamer_read_lem :
    (c : Controller) (junk : Array) (fuel p at total : ℕ) (out : Array)
    → p + total + 512 ≤ 2 ^ 31
    → p % 512 + total < 512 * fuel
    → (r : Array) × (diskstreamer_read c junk fuel (stream_at p) at total out
        ≡ some (ok tt, stream_at (p + total), r))
      × Reads c p at total out r
unfolding diskstreamer_read disk_read_block disk_read_sector
diskstreamer_read_lem c junk zero p at total out small enough = absurd (omega arith)
diskstreamer_read_lem c junk (suc fuel) p at total out small enough =
    let (status, _) =
      disk_read_sector_lem c (p / 512) 1 junk (omega arith) (omega arith) (omega arith) in
    elim (Bool-cases (leb 512 (p % 512 + total))) [
      | inr last ↦
          let r = copy_loop (disk_read_sector c (p / 512) 1 junk).1 (p % 512) total 0 at out in
          (
            r,
            rw (status, last, diskstreamer_read) refl,
            round_Reads c junk p at total out (omega arith) (ground arith),
          )
      | inl more ↦
          let k : ℕ = total - (p % 512 + total - 512) in
          let k_is : k + p % 512 ≡ 512 = ground arith in
          let out1 = copy_loop (disk_read_sector c (p / 512) 1 junk).1 (p % 512) k 0 at out in
          let (r, found, bytes) =
            diskstreamer_read_lem c junk fuel (p + k) (at + k) (total - k) out1 (ground arith)
              (ground arith) in
          let end : p + k + (total - k) ≡ p + total = ground arith in
          (
            r,
            rw (status, more) (found ∙ ap (λ (t : ℕ). some (ok tt, stream_at t, r)) end),
            Reads-append c p at k total out out1 r (ground arith)
                (round_Reads c junk p at k out (omega arith) (omega arith)) bytes,
          )
    ]

-- A stream of any other disk is refused with EIO, and nothing is written.
pub diskstreamer_read_elsewhere :
    (c : Controller) (junk : Array) (fuel p at total : ℕ) (out : Array)
    → 0 < fuel
    → diskstreamer_read c junk fuel (record { pos = p; disk = elsewhere }) at total out
      ≡ some (err eio, record { pos = p; disk = elsewhere }, out)
unfolding diskstreamer_read disk_read_block
diskstreamer_read_elsewhere c junk zero p at total out some_fuel = absurd (omega arith)
diskstreamer_read_elsewhere c junk (suc fuel) p at total out some_fuel = refl
