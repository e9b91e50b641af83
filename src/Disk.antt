-- ===== src/Disk.antt =====
-- src/disk/disk.c and streamer.c: the one disk, and streams that read it at a byte position. The
-- disk controller is not part of the repository: it is a record that says which 16-bit words the
-- data port gives after a read command, and what they are.
mod Examples
pub mod Sector
pub mod Stream
use udemy_kernel.Prelude.{
  ℕ, zero, suc, ◌+◌, ◌-◌, ◌*◌, ◌/◌, ◌%◌, ◌^◌, ◌<◌, ◌≡◌, bit_or, Option, none, some, Array, update,
  Result, ok, err, eio, leb, ◌==◌, if◌then◌else◌,
}

abbrev pub sector_size : ℕ
sector_size = 512

-- What `disk_read_sector` writes to the ports 0x1F6, 0x1F2, 0x1F3, 0x1F4 and 0x1F5.
pub record Registers : Type 0 where
  pub drive : ℕ
  pub count : ℕ
  pub lba_low : ℕ
  pub lba_mid : ℕ
  pub lba_high : ℕ

-- The sector that the registers name in LBA mode, by the 28 bits of the ATA interface.
abbrev pub address : Registers → ℕ
address r = r.drive % 16 * 2 ^ 24 + r.lba_high * 2 ^ 16 + r.lba_mid * 2 ^ 8 + r.lba_low

-- The sectors that one command transfers; a count of 0 stands for 256.
abbrev pub transfers : Registers → ℕ
transfers r = if r.count == 0 then 256 else r.count

-- `word r i` is the word that the port 0x1F0 gives at the `i`-th read after the command, and
-- `image` is the byte at each position of the disk. By the ATA interface the words run through
-- the sectors from the addressed one on, two bytes each, low byte first, as many as the command
-- transfers.
pub record Controller : Type 0 where
  pub word : Registers → ℕ → ℕ
  pub image : Array
  pub is_byte : (p : ℕ) → image p < 256
  pub words :
      (r : Registers) (i : ℕ)
      → i < 256 * transfers r
      → word r i
        ≡ image (address r * sector_size + 2 * i)
          + image (address r * sector_size + 2 * i + 1) * 256

-- The bytes that `outb` sends for a block address and a number of sectors.
registers : (lba total : ℕ) → Registers
registers lba total = record {
  drive = bit_or (lba / 2 ^ 24) 0xE0 % 256;
  count = total % 256;
  lba_low = lba % 256;
  lba_mid = lba / 2 ^ 8 % 256;
  lba_high = lba / 2 ^ 16 % 256;
}

module _ (c : Controller) where
  -- The `k` words left of one sector, from the `i`-th word of the command on. `*ptr = insw(0x1F0)`
  -- stores the low byte first.
  pub word_loop : Registers → (k i : ℕ) → Array → Array
  word_loop r zero i buf = buf
  word_loop r (suc k) i buf =
      word_loop r k (i + 1)
        (update (update buf (2 * i) (c.word r i % 256)) (2 * i + 1) (c.word r i / 256))

  sector_loop : Registers → (k i : ℕ) → Array → Array
  sector_loop r zero i buf = buf
  sector_loop r (suc k) i buf = sector_loop r k (i + 256) (word_loop r 256 i buf)

  -- The wait for the controller before each sector is left out.
  unfoldable pub disk_read_sector : (lba total : ℕ) → Array → Result (Unit {0}) × Array
  unfolding registers sector_loop
  disk_read_sector lba total buf = (ok tt, sector_loop (registers lba total) total 0 buf)

-- A `struct disk *`: the address of the one disk, or another address.
pub data DiskPtr : Type 0 where
  the_disk elsewhere : DiskPtr

unfoldable pub disk_get : ℕ → Option DiskPtr
disk_get index = if index == 0 then some the_disk else none

unfoldable pub disk_read_block :
    Controller → DiskPtr → (lba total : ℕ) → Array → Result (Unit {0}) × Array
disk_read_block c the_disk lba total buf = disk_read_sector c lba total buf
disk_read_block c elsewhere lba total buf = (err eio, buf)

pub record DiskStream : Type 0 where
  pub pos : ℕ
  pub disk : DiskPtr

-- The allocation of the stream is not modelled.
unfoldable pub diskstreamer_new : ℕ → Option DiskStream
unfolding disk_get
diskstreamer_new disk_id = elim (disk_get disk_id) [
  | none ↦ none
  | some disk ↦ some (record { pos = 0; disk = disk })
]

unfoldable pub diskstreamer_seek : DiskStream → ℕ → Result (Unit {0}) × DiskStream
diskstreamer_seek stream pos = (ok tt, record stream { pos = pos })

-- The copy loop with `k` rounds left; `at` is the index of `out` in its buffer.
copy_loop : (buf : Array) → (offset k i at : ℕ) → Array → Array
copy_loop buf offset zero i at out = out
copy_loop buf offset (suc k) i at out =
    copy_loop buf offset k (i + 1) (at + 1) (update out at (buf (offset + i)))

-- The status, the stream and the buffer after a read of `total` bytes to `out + at`; the bytes of
-- the local buffer before it is filled are `junk`. `none` when the fuel runs out, of which each
-- recursive call takes one. Positions from 2^31 on, which are negative numbers in an int, are not
-- described.
unfoldable pub diskstreamer_read :
    Controller
    → (junk : Array) → (fuel : ℕ) → DiskStream
    → (at total : ℕ) → Array
    → Option (Result (Unit {0}) × DiskStream × Array)
unfolding copy_loop
diskstreamer_read c junk zero stream at total out = none
diskstreamer_read c junk (suc fuel) stream at total out =
    let sector = stream.pos / sector_size in
    let offset = stream.pos % sector_size in
    let overflow = leb sector_size (offset + total) in
    let to_read = if overflow then total - (offset + total - sector_size) else total in
    let moved = record stream { pos = stream.pos + to_read } in
    let (res, buf) = disk_read_block c stream.disk sector 1 junk in
    let copied = copy_loop buf offset to_read 0 at out in
    elim res [
      | err e ↦ some (err e, stream, out)
      | ok done ↦
          let rest = diskstreamer_read c junk fuel moved (at + to_read) (total - to_read) copied in
          if overflow then rest else some (ok done, moved, copied)
    ]
