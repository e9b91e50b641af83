-- ===== src/Disk/Examples.antt =====
-- A disk whose byte at position p is p modulo 256, and reads of it.
use udemy_kernel.Prelude.{ℕ, ◌+◌, ◌*◌, ◌%◌, ◌≡◌, refl, some, Array, ok, arith}
use udemy_kernel.Disk.{Controller, address, sector_size, diskstreamer_read}
use udemy_kernel.Disk.Stream.{diskstreamer_read_lem, stream_at, Reads}

abbrev ramp : ℕ → ℕ
ramp p = p % 256

abbrev ramp_disk : Controller
ramp_disk = record {
  word = λ r i.
      ramp (address r * sector_size + 2 * i) + ramp (address r * sector_size + 2 * i + 1) * 256;
  image = ramp;
  is_byte = λ p. omega arith;
  words = λ r i within. refl;
}

-- 600 bytes from position 500 on lie in three sectors.
diskstreamer_read_lem_example :
    (r : Array) × (diskstreamer_read ramp_disk (λ _. 1) 3 (stream_at 500) 0 600 (λ _. 0)
      ≡ some (ok tt, stream_at (500 + 600), r))
    × Reads ramp_disk 500 0 600 (λ _. 0) r
diskstreamer_read_lem_example =
    diskstreamer_read_lem ramp_disk (λ _. 1) 3 500 0 600 (λ _. 0) (omega arith) (omega arith)
