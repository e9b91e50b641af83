-- ===== src/Fat32/Examples.antt =====
-- A small FAT32 volume: clusters of 64 bytes, the root directory in cluster 2, and the file HI.TXT
-- of 100 bytes in the clusters 3 and 4.
use udemy_kernel.Prelude.{
  ℕ, zero, suc, ◌+◌, ◌-◌, ◌*◌, ◌%◌, ◌^◌, ◌≤◌, ◌<◌, ◌≡◌, ◌≢◌, ◌↔◌, refl, inr, List, [], ◌∷◌, some,
  ok, Array, update, ltb, ◌==◌, if◌then◌else◌, arith,
}
use udemy_kernel.PathParser.{Allocator, PathPart, char_at}
use udemy_kernel.Disk.{Controller, address, sector_size}
use udemy_kernel.Disk.Stream.{stream_at}
use udemy_kernel.Fat32.{FatPrivate, decode_h, cluster_address, get_next_cluster_id}
use udemy_kernel.Fat32.Name.{transform_filename_to_fat, blanks}
use udemy_kernel.Fat32.Name.Text.{IsPlain, transform_filename_lem, padded_name}
use udemy_kernel.Fat32.Chain.{get_next_truncated, value_at}
use udemy_kernel.Fat32.Handle.{FatPrivateFileHandle, fat32_seek, seek_loop, next_cluster}
use udemy_kernel.Fat32.Handle.Seek.{fat32_seek_lem}

-- "hi.txt" and "HI      TXT".
abbrev hi_txt : List ℕ
hi_txt = b'h' ∷ b'i' ∷ b'.' ∷ b't' ∷ b'x' ∷ b't' ∷ []

abbrev hi_name : Array
hi_name = update (update (update (update (update (blanks (λ _. 0)) 0 72) 1 73) 8 84) 9 88) 10 84

abbrev entry_byte : Array
entry_byte p =
    if p == 76
    then 4
    else if p == 80
    then 0xF8
    else if p == 81
    then 0xFF
    else if p == 82
    then 0xFF
    else if p == 83
    then 0x0F
    else 0

abbrev item_byte : Array
item_byte i = if ltb i 11 then hi_name i else if i == 26 then 3 else if i == 28 then 100 else 0

abbrev volume_byte : Array
volume_byte p =
    if ltb p 128
    then entry_byte p
    else if p == 128
    then 66
    else if ltb p 160
    then 0
    else if ltb p 192
    then item_byte (p - 160)
    else p % 256

volume_is_byte : (p : ℕ) → volume_byte p < 256
volume_is_byte p = ground arith

abbrev volume : Controller
volume = record {
  word = λ r i.
      volume_byte (address r * sector_size + 2 * i)
      + volume_byte (address r * sector_size + 2 * i + 1) * 256;
  image = volume_byte;
  is_byte = volume_is_byte;
  words = λ r i within. refl;
}

-- 64 bytes in a sector, one sector in a cluster, one reserved sector, one table of one sector.
abbrev header_byte : Array
header_byte i =
    if i == 11
    then 64
    else if i == 13
    then 1
    else if i == 14
    then 1
    else if i == 16
    then 1
    else if i == 36
    then 1
    else if i == 44
    then 2
    else if i == 66
    then 0x29
    else 0

abbrev mounted : FatPrivate
mounted = record {
  header = decode_h header_byte;
  read_stream = stream_at 90;
  buf = 64;
  bytes = λ _. 0;
  cluster_size_bytes = 64;
}

abbrev one_block : Allocator
one_block = record { State = Unit {0}; kzalloc = λ n s. (64, s); kfree = λ a s. s }

abbrev hi_part : PathPart
hi_part = record { node = 8; str = 16; bytes = hi_txt }

base-IsPlain : IsPlain (char_at hi_txt) 0 2
base-IsPlain zero lt = (omega arith, omega arith)
base-IsPlain (suc zero) lt = (omega arith, omega arith)
base-IsPlain (suc (suc i)) lt = absurd (omega (arith, lt))

ext-IsPlain : IsPlain (char_at hi_txt) 3 3
ext-IsPlain zero lt = (omega arith, omega arith)
ext-IsPlain (suc zero) lt = (omega arith, omega arith)
ext-IsPlain (suc (suc zero)) lt = (omega arith, omega arith)
ext-IsPlain (suc (suc (suc i))) lt = absurd (omega (arith, lt))

transform_filename_lem_example :
    (r : Array) × (transform_filename_to_fat 7 (λ _. 0) (char_at hi_txt) ≡ some r)
    × ((j : ℕ) → j < 11 → r j ≡ padded_name (char_at hi_txt) 2 3 j)
transform_filename_lem_example =
    transform_filename_lem 7 (λ _. 0) (char_at hi_txt) 2 3 (omega arith) (omega arith) base-IsPlain
      (inr (refl, ext-IsPlain, refl)) (omega arith)

entry_low : cluster_address mounted 3 + 516 ≤ 2 ^ 31
unfolding cluster_address decode_h
entry_low = omega arith

entry_goes : value_at volume mounted 3 ≢ 0x0FFFFFF8
unfolding cluster_address decode_h
entry_goes = omega arith

get_next_truncated_example :
    (q : FatPrivate) × (get_next_cluster_id volume (λ _. 0) mounted 3
      ≡ some (value_at volume mounted 3 % 256, q))
    × ((value_at volume mounted 3 % 256 ≡ value_at volume mounted 3 % 2 ^ 28)
        ↔ (value_at volume mounted 3 % 2 ^ 28 < 256))
get_next_truncated_example = get_next_truncated volume (λ _. 0) mounted 3 refl entry_low entry_goes

-- A handle of 10 bytes, at the start of cluster 3 and 20 bytes into it.
abbrev at_start : FatPrivateFileHandle
at_start = record {
  starting_cluster = 3;
  file_size = 10;
  file_pos = 0;
  current_cluster = 3;
  position_in_cluster = 0;
}

abbrev at_20 : FatPrivateFileHandle
at_20 = record at_start { position_in_cluster = 20 }

sought : fat32_seek volume (λ _. 0) 2 mounted at_start 20 0 ≡ some (ok tt, mounted, at_20)
unfolding fat32_seek seek_loop next_cluster
sought = refl

fat32_seek_lem_example : (at_20.file_pos ≡ 0) × (10 ≤ (at_20.file_pos + 20) % 2 ^ 32)
fat32_seek_lem_example = fat32_seek_lem volume (λ _. 0) 2 mounted mounted at_start at_20 20 0 sought
