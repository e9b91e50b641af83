-- ===== src/Disk/Sector.antt =====
-- disk_read_sector of src/disk/disk.c against the controller's documented words.
use udemy_kernel.Prelude.Bits.{bit_or_comm, bit_or-shl}
use udemy_kernel.Prelude.{
  ◌∙◌, ℕ, zero, suc, ◌+◌, ◌*◌, ◌/◌, ◌%◌, ◌^◌, ◌<◌, ◌≤◌, ◌≡◌, refl, bit_or, Array, update, ok, arith,
  leb, ltb, ◌&&◌, if◌then◌else◌,
}
use udemy_kernel.Disk.{
  Controller, Registers, transfers, address, sector_size, registers, word_loop, sector_loop,
  disk_read_sector,
}

-- The command addresses the sector that was asked for.
address-registers : (lba total : ℕ) → lba < 2 ^ 28 → address (registers lba total) ≡ lba
unfolding registers
address-registers lba total h =
    let top : bit_or (lba / 2 ^ 24) 0xE0 ≡ 0xE0 + lba / 2 ^ 24 =
      bit_or_comm (lba / 2 ^ 24) 0xE0 ∙ bit_or-shl 4 14 (lba / 2 ^ 24) (omega arith) in
    omega (arith, top)

-- `buf` with the bytes from `lo` to `hi` from the disk, as they follow the addressed sector.
abbrev filled : Controller → Registers → Array → (lo hi j : ℕ) → ℕ
filled c r buf lo hi j =
    if leb lo j && ltb j hi then c.image (address r * sector_size + j) else buf j

module _ (c : Controller) (r : Registers) where
  word_loop_lem :
      (k i : ℕ) (buf : Array) (j : ℕ)
      → i + k ≤ 256 * transfers r
      → word_loop c r k i buf j ≡ filled c r buf (2 * i) (2 * (i + k)) j
  unfolding word_loop
  word_loop_lem zero i buf j fits = ground arith
  word_loop_lem (suc k) i buf j fits =
      let start : ℕ = address r * sector_size in
      let given = c.words r i (omega arith) in
      let low : c.word r i % 256 ≡ c.image (start + 2 * i) =
        omega (arith, given, c.is_byte (start + 2 * i)) in
      let high : c.word r i / 256 ≡ c.image (start + (2 * i + 1)) =
        let shift : start + 2 * i + 1 ≡ start + (2 * i + 1) = omega arith in
        rw (← shift) (omega (arith, given, c.is_byte (start + 2 * i))) in
      let buf' = update (update buf (2 * i) (c.word r i % 256)) (2 * i + 1) (c.word r i / 256) in
      ground (arith, low, high, word_loop_lem k (i + 1) buf' j (omega arith))

  sector_loop_lem :
      (k i : ℕ) (buf : Array) (j : ℕ)
      → i + 256 * k ≤ 256 * transfers r
      → sector_loop c r k i buf j ≡ filled c r buf (2 * i) (2 * i + 512 * k) j
  unfolding sector_loop
  sector_loop_lem zero i buf j fits = ground arith
  sector_loop_lem (suc k) i buf j fits = ground (
    arith,
    word_loop_lem 256 i buf j (omega arith),
    sector_loop_lem k (i + 256) (word_loop c r 256 i buf) j (omega arith),
  )

-- Reading 1 to 256 sectors from `lba` on, below 2^28, succeeds and fills the first 512 * total
-- bytes of the buffer with the bytes of the disk from 512 * lba on; no other byte of it changes.
pub disk_read_sector_lem :
    (c : Controller) (lba total : ℕ) (buf : Array)
    → lba < 2 ^ 28
    → 0 < total
    → total ≤ 256
    → ((disk_read_sector c lba total buf).0 ≡ ok tt)
      × ((j : ℕ)
          → (disk_read_sector c lba total buf).1 j
            ≡ (if ltb j (512 * total) then c.image (512 * lba + j) else buf j))
unfolding disk_read_sector registers
disk_read_sector_lem c lba total buf h some_ few = (
  refl,
  λ j. ground (
    arith,
    address-registers lba total h,
    sector_loop_lem c (registers lba total) total 0 buf j (ground arith),
  ),
)
