-- ===== src/Fat32.antt =====
-- src/fs/fat/fat32.c: the structures of a FAT32 volume, decoded from bytes low byte first, and the
-- clusters. `none` is fuel that runs out; `junk` is what a local buffer holds at first.
mod Examples
pub mod Name
pub mod Directory
pub mod Handle
pub mod Chain
use udemy_kernel.Prelude.{
  le16, le32, field, ℕ, ◌+◌, ◌*◌, ◌/◌, ◌%◌, ◌^◌, Option, none, some, Array, sub32, ◌==◌,
  if◌then◌else◌,
}
use udemy_kernel.Disk.{Controller, DiskStream, diskstreamer_read, diskstreamer_seek}

pub record FatHeader : Type 0 where
  pub short_jmp_ins : Array
  pub oem_identifier : Array
  pub bytes_per_sector : ℕ
  pub sectors_per_cluster : ℕ
  pub reserved_sectors : ℕ
  pub fat_copies : ℕ
  pub zero_root_dir_entries : ℕ
  pub zero_number_of_sectors : ℕ
  pub media_type : ℕ
  pub zero_sectors_per_fat : ℕ
  pub sectors_per_track : ℕ
  pub number_of_heads : ℕ
  pub hidden_setors : ℕ
  pub sectors_big : ℕ

-- BPB_FATSz32 and the fields behind it, without their prefixes.
pub record FatHeaderExtended32 : Type 0 where
  pub fat_sz32 : ℕ
  pub ext_flags : ℕ
  pub fs_ver : ℕ
  pub root_clus : ℕ
  pub fs_info : ℕ
  pub bk_boot_sec : ℕ
  pub bpb_reserved : Array
  pub drv_num : ℕ
  pub reserved1 : ℕ
  pub boot_sig : ℕ
  pub vol_id : ℕ
  pub vol_lab : Array
  pub fil_sys_type : Array

pub record FatH : Type 0 where
  pub primary_header : FatHeader
  pub fat_header_extended_32 : FatHeaderExtended32

-- sizeof(struct fat_h).
abbrev pub header_bytes : ℕ
header_bytes = 90

unfoldable pub decode_h : Array → FatH
decode_h b = record {
  primary_header = record {
    short_jmp_ins = field b 0;
    oem_identifier = field b 3;
    bytes_per_sector = le16 b 11;
    sectors_per_cluster = b 13;
    reserved_sectors = le16 b 14;
    fat_copies = b 16;
    zero_root_dir_entries = le16 b 17;
    zero_number_of_sectors = le16 b 19;
    media_type = b 21;
    zero_sectors_per_fat = le16 b 22;
    sectors_per_track = le16 b 24;
    number_of_heads = le16 b 26;
    hidden_setors = le32 b 28;
    sectors_big = le32 b 32;
  };
  fat_header_extended_32 = record {
    fat_sz32 = le32 b 36;
    ext_flags = le16 b 40;
    fs_ver = le16 b 42;
    root_clus = le32 b 44;
    fs_info = le16 b 48;
    bk_boot_sec = le16 b 50;
    bpb_reserved = field b 52;
    drv_num = b 64;
    reserved1 = b 65;
    boot_sig = b 66;
    vol_id = le32 b 67;
    vol_lab = field b 71;
    fil_sys_type = field b 82;
  };
}

-- `buf` is the address of the buffer for one cluster, and `bytes` what it holds.
pub record FatPrivate : Type 0 where
  pub header : FatH
  pub read_stream : DiskStream
  pub buf : ℕ
  pub bytes : Array
  pub cluster_size_bytes : ℕ

-- The arithmetic of uint32_t wraps.
unfoldable pub get_cluster_data_disk_pos : FatPrivate → (cluster_id : ℕ) → ℕ
get_cluster_data_disk_pos p cluster_id =
    let h = p.header.primary_header in
    (h.bytes_per_sector * h.reserved_sectors
      + h.bytes_per_sector * h.fat_copies * p.header.fat_header_extended_32.fat_sz32
      + sub32 cluster_id 2 * p.cluster_size_bytes)
    % 2 ^ 32

-- `cluster_address` of `get_cluster_value`.
unfoldable pub cluster_address : FatPrivate → (cluster_id : ℕ) → ℕ
cluster_address p cluster_id =
    (p.header.primary_header.bytes_per_sector * p.header.primary_header.reserved_sectors
      + cluster_id * 4)
    % 2 ^ 32

-- The mask is `value & 0x0FFFFFFF`; the result is returned as a uint8_t.
unfoldable pub next_of_value : (value : ℕ) → ℕ
next_of_value value = if value == 0x0FFFFFF8 then 0 else value % 2 ^ 28 % 2 ^ 8

module _ (c : Controller) (junk : Array) where
  -- A seek and a read of the volume's stream, whose results the code does not look at. The buffer
  -- is `out`, written from `at` on.
  unfoldable pub seek_and_read :
      FatPrivate → (pos at total : ℕ) → (out : Array) → Option (FatPrivate × Array)
  seek_and_read p pos at total out =
      let (_, stream) = diskstreamer_seek p.read_stream pos in
      elim (diskstreamer_read c junk (total / 512 + 2) stream at total out) [
        | none ↦ none
        | some (_, stream', out') ↦ some (record p { read_stream = stream' }, out')
      ]

  unfoldable pub get_cluster_value : FatPrivate → (cluster_id : ℕ) → Option (ℕ × FatPrivate)
  unfolding cluster_address
  get_cluster_value p cluster_id = elim (seek_and_read p (cluster_address p cluster_id) 0 4 junk) [
    | none ↦ none
    | some (p', value) ↦ some (le32 value 0, p')
  ]

  unfoldable pub get_next_cluster_id : FatPrivate → (cluster_id : ℕ) → Option (ℕ × FatPrivate)
  unfolding next_of_value
  get_next_cluster_id p cluster_id = elim (get_cluster_value p cluster_id) [
    | none ↦ none
    | some (value, p') ↦ some (next_of_value value, p')
  ]
