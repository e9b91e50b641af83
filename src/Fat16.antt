-- ===== src/Fat16.antt =====
-- src/fs/fat/fat16.c: the structures of a FAT16 volume, and the numbers that its code computes from
-- them. A structure is decoded from the bytes that the disk holds, low byte first; an `int` that is
-- a position or a sector is its 32-bit pattern.
mod Examples
pub mod Cluster
pub mod Descriptor
pub mod Item
pub mod Directory
pub mod Name
use udemy_kernel.Prelude.{
  le16, le32, field, ℕ, ◌+◌, ◌*◌, ◌/◌, ◌%◌, ◌^◌, bit_or, Option, none, some, Array, Result, sub32,
}
use udemy_kernel.Disk.{Controller, DiskStream, diskstreamer_read, sector_size}

-- The fields that the code reads, and those that it does not.
pub record FatHeaderExtended : Type 0 where
  pub drive_number : ℕ
  pub win_nt_bit : ℕ
  pub signature : ℕ
  pub volume_id : ℕ
  pub volume_id_string : Array
  pub system_id_string : Array

pub record FatHeader : Type 0 where
  pub short_jmp_ins : Array
  pub oem_identifier : Array
  pub bytes_per_sector : ℕ
  pub sectors_per_cluster : ℕ
  pub reserved_sectors : ℕ
  pub fat_copies : ℕ
  pub root_dir_entries : ℕ
  pub number_of_sectors : ℕ
  pub media_type : ℕ
  pub sectors_per_fat : ℕ
  pub sectors_per_track : ℕ
  pub number_of_heads : ℕ
  pub hidden_sectors : ℕ
  pub sectors_big : ℕ

pub record FatH : Type 0 where
  pub primary_header : FatHeader
  pub extended_header : FatHeaderExtended

pub record FatDirectoryItem : Type 0 where
  pub filename : Array
  pub ext : Array
  pub attribute : ℕ
  pub reserved : ℕ
  pub creation_time_tenths_of_a_sec : ℕ
  pub creation_time : ℕ
  pub creation_date : ℕ
  pub last_access : ℕ
  pub high_16_bits_first_cluster : ℕ
  pub last_mod_time : ℕ
  pub last_mod_date : ℕ
  pub low_16_bits_first_cluster : ℕ
  pub filesize : ℕ

-- `item` is the address of the array of items, `bytes` what it holds. `total` is an error code
-- where counting the items failed.
pub record FatDirectory : Type 0 where
  pub item : ℕ
  pub bytes : Array
  pub total : Result ℕ
  pub sector_pos : ℕ
  pub ending_sector_pos : ℕ

pub record FatPrivate : Type 0 where
  pub header : FatH
  pub root_directory : FatDirectory
  pub cluster_read_stream : DiskStream
  pub fat_read_stream : DiskStream
  pub directory_stream : DiskStream

unfoldable pub decode_header : Array → FatHeader
decode_header b = record {
  short_jmp_ins = field b 0;
  oem_identifier = field b 3;
  bytes_per_sector = le16 b 11;
  sectors_per_cluster = b 13;
  reserved_sectors = le16 b 14;
  fat_copies = b 16;
  root_dir_entries = le16 b 17;
  number_of_sectors = le16 b 19;
  media_type = b 21;
  sectors_per_fat = le16 b 22;
  sectors_per_track = le16 b 24;
  number_of_heads = le16 b 26;
  hidden_sectors = le32 b 28;
  sectors_big = le32 b 32;
}

unfoldable pub decode_extended : Array → FatHeaderExtended
decode_extended b = record {
  drive_number = b 36;
  win_nt_bit = b 37;
  signature = b 38;
  volume_id = le32 b 39;
  volume_id_string = field b 43;
  system_id_string = field b 54;
}

-- sizeof(struct fat_h).
abbrev pub header_bytes : ℕ
header_bytes = 62

unfoldable pub decode_h : Array → FatH
unfolding decode_header decode_extended
decode_h b = record { primary_header = decode_header b; extended_header = decode_extended b }

-- sizeof(struct fat_directory_item).
abbrev pub item_bytes : ℕ
item_bytes = 32

-- `directory->item[i]`.
unfoldable pub decode_item : Array → (i : ℕ) → FatDirectoryItem
decode_item bytes i =
    let b : Array = field bytes (i * item_bytes) in
    record {
      filename = field b 0;
      ext = field b 8;
      attribute = b 11;
      reserved = b 12;
      creation_time_tenths_of_a_sec = b 13;
      creation_time = le16 b 14;
      creation_date = le16 b 16;
      last_access = le16 b 18;
      high_16_bits_first_cluster = le16 b 20;
      last_mod_time = le16 b 22;
      last_mod_date = le16 b 24;
      low_16_bits_first_cluster = le16 b 26;
      filesize = le32 b 28;
    }

unfoldable pub fat16_sector_to_absolute : ℕ → ℕ
fat16_sector_to_absolute sector = sector * sector_size % 2 ^ 32

unfoldable pub fat16_get_first_cluster : FatDirectoryItem → ℕ
fat16_get_first_cluster item = bit_or item.high_16_bits_first_cluster item.low_16_bits_first_cluster

unfoldable pub fat16_cluster_to_sector : FatPrivate → (cluster : ℕ) → ℕ
fat16_cluster_to_sector p cluster =
    (p.root_directory.ending_sector_pos
      + sub32 cluster 2 * p.header.primary_header.sectors_per_cluster)
    % 2 ^ 32

unfoldable pub fat16_get_first_fat_sector : FatPrivate → ℕ
fat16_get_first_fat_sector p = p.header.primary_header.reserved_sectors

-- The bytes of a cluster.
abbrev pub cluster_bytes : FatPrivate → ℕ
cluster_bytes p = p.header.primary_header.sectors_per_cluster * sector_size

-- `diskstreamer_read`, with fuel for the sectors that it touches.
abbrev pub stream_read :
    Controller
    → (junk : Array) → DiskStream
    → (at total : ℕ) → Array
    → Option (Result (Unit {0}) × DiskStream × Array)
stream_read c junk stream at total out =
    diskstreamer_read c junk (total / 512 + 2) stream at total out
