-- ===== src/Fat16/Examples.antt =====
-- A small volume: clusters of one sector from sector 20 on, and a file that lies in the clusters 2
-- and 3.
use mathlib.Core.Path.{subst}
use mathlib.Core.List.{Perm}
use udemy_kernel.Memory.{memset}
use udemy_kernel.Str.{istrncmp, tolower}
use udemy_kernel.PathParser.{PathPart}
use udemy_kernel.PathParser.Blocks.{Grants, blocks, after, free_all}
use udemy_kernel.PathParser.Examples.{started, started-Grants}
use udemy_kernel.Heap.{heap_align_value_to_upper}
use udemy_kernel.KHeap.{Kernel}
use udemy_kernel.KHeap.Blocks.{kernel_blocks}
use udemy_kernel.File.{FileMode}
use udemy_kernel.Fat16.Name.{
  fat16_get_full_relative_filename, fat16_to_proper_string, proper_loop, is_padding,
}
use udemy_kernel.Fat16.Name.Text.{HasLength, full_relative_filename_lem}
use udemy_kernel.Fat16.{decode_item}
use udemy_kernel.Fat16.Item.Find.{is_named}
use udemy_kernel.Fat16.Descriptor.{fat16_open, fat16_close}
use udemy_kernel.Fat16.Descriptor.Open.{IsOnlyFile, close-open, open_missing}
use udemy_kernel.Prelude.{
  ℕ, zero, suc, ◌+◌, ◌*◌, ◌^◌, ◌<◌, ◌≤◌, ◌≡◌, ◌≢◌, ◌/◌, sym, refl, inl, Array, false, ok, err, eio,
  some, List, [], ◌∷◌, ◌==◌, arith, ltb, leb, if◌then◌else◌, Bool-cases, inr,
}
use udemy_kernel.PathParser.{char_at}
use udemy_kernel.Disk.{Controller, DiskStream, the_disk, address, sector_size}
use udemy_kernel.Disk.Stream.{stream_at}
use udemy_kernel.Fat16.{FatPrivate, FatDirectoryItem, item_bytes, decode_h}
use udemy_kernel.Fat16.Cluster.Chain.{table_of, chain}
use udemy_kernel.Fat16.Cluster.Read.{cluster_size, sector_of, InReach}
use udemy_kernel.Fat16.Directory.{fat16_get_total_items_for_directory}
use udemy_kernel.Fat16.Directory.Count.{get_total_items_lem}
use udemy_kernel.Fat16.Name.{is_padding}
use udemy_kernel.Fat16.Name.Text.{HasLength}
use udemy_kernel.Fat16.Item.{FatContents}
use udemy_kernel.Fat16.Descriptor.{FatFileDescriptor}
use udemy_kernel.Fat16.Descriptor.Content.{WasReadAll, read_lem}

-- The entries of the clusters 2 and 3 are 3 and 0xFF8; from sector 20 on lie three items, the
-- second of which is deleted.
abbrev bytes : ℕ → ℕ
bytes x =
    if x == 2048
    then 3
    else if x == 3072
    then 0xF8
    else if x == 3073
    then 0x0F
    else if ltb x 10240
    then 0
    else if x == 10272
    then 0xE5
    else if leb 10336 x
    then 0
    else 7

bytes_small : (x : ℕ) → bytes x < 256
bytes_small x = ground arith

abbrev volume : Controller
volume = record {
  word = λ r i.
      bytes (address r * sector_size + 2 * i) + bytes (address r * sector_size + 2 * i + 1) * 256;
  image = bytes;
  is_byte = bytes_small;
  words = λ r i within. refl;
}

-- One sector in a cluster, and one reserved.
abbrev volume_header : Array
volume_header i = if i == 13 then 1 else if i == 14 then 1 else 0

-- "AB.T" and "C".
abbrev root_bytes : Array
root_bytes i =
    if i == 0
    then b'A'
    else if i == 1
    then b'B'
    else if i == 8
    then b'T'
    else if i == 32
    then b'C'
    else 0

abbrev private_data : FatPrivate
unfolding decode_h
private_data = record {
  header = decode_h volume_header;
  root_directory = record {
    item = 4096;
    bytes = root_bytes;
    total = ok 2;
    sector_pos = 1;
    ending_sector_pos = 20;
  };
  cluster_read_stream = stream_at 0;
  fat_read_stream = stream_at 0;
  directory_stream = stream_at 0;
}

-- An item that starts at the cluster 2.
abbrev file_item : FatDirectoryItem
file_item = record {
  filename = char_at (b'A' ∷ b'B' ∷ []);
  ext = char_at (b'T' ∷ []);
  attribute = 0;
  reserved = 0;
  creation_time_tenths_of_a_sec = 0;
  creation_time = 0;
  creation_date = 0;
  last_access = 0;
  high_16_bits_first_cluster = 0;
  last_mod_time = 0;
  last_mod_date = 0;
  low_16_bits_first_cluster = 2;
  filesize = 1024;
}

abbrev file_descriptor : FatFileDescriptor
file_descriptor = record {
  address = 8;
  item = record { address = 16; contents = FatContents.file 16 file_item };
  pos = 0;
}

-- The cluster `d` steps from the start of the file can be read.
abbrev IsLow : (d : ℕ) → Type 0
IsLow d =
    (2 ≤ chain volume (table_of private_data) d 2)
    × (sector_of private_data (chain volume (table_of private_data) d 2) * 512
          + 2 * cluster_size private_data
          + 512
        ≤ 2 ^ 31)

file-InReach : InReach volume private_data file_item.low_16_bits_first_cluster 1023
unfolding chain private_data
file-InReach = record {
  goes_on = (
    (omega arith, omega arith, omega arith, omega arith, omega arith, omega arith),
    omega arith,
    tt,
  );
  start = omega arith;
  low = λ x le. elim (Bool-cases (ltb x 512)) [
    | inl first ↦ near x 0 (omega arith, omega arith) (ground (arith, first))
    | inr second ↦ near x 1 (omega arith, omega arith) (ground (arith, second, le))
  ];
}
  where
    near : (x d : ℕ) → IsLow d → x / 512 ≡ d → IsLow (x / 512)
    near x d small is = subst IsLow (sym is) small

-- Two clusters are read, the second of which follows the first in the table.
read_lem_example : WasReadAll volume (λ _. 1) 513 private_data file_descriptor 2 512 2 (λ _. 0)
unfolding private_data
read_lem_example =
    read_lem volume (λ _. 1) 513 private_data 8 16 0 512 2 1023 file_item (λ _. 0) refl refl
      (omega arith) (omega arith) refl file-InReach (omega arith) (omega arith)
      (λ i lt. inl (omega arith)) (omega arith)

starts : (j : ℕ) → j < 3 → bytes (20 * 512 + 32 * j) ≢ 0
starts j lt = ground (arith, lt)

get_total_items_lem_example :
    (q : DiskStream) × (fat16_get_total_items_for_directory volume (λ _. 1) 4 private_data 20
      ≡ some (ok 2, record private_data { directory_stream = q }))
    × (q.disk ≡ the_disk)
unfolding private_data
get_total_items_lem_example =
    get_total_items_lem volume (λ _. 1) 4 private_data 20 3 refl (omega arith) (omega arith) starts
      refl

name-HasLength : HasLength (char_at (b'A' ∷ b'B' ∷ [])) 0 8 2
name-HasLength = record { plain = two; fits = omega arith; ended = λ _. refl }
  where
    two : (j : ℕ) → j < 2 → is_padding (char_at (b'A' ∷ b'B' ∷ []) (0 + j)) ≡ false
    two zero lt = refl
    two (suc zero) lt = refl
    two (suc (suc j)) lt = absurd (omega (arith, lt))

ext-HasLength : HasLength (char_at (b'T' ∷ [])) 0 3 1
ext-HasLength = record { plain = one; fits = omega arith; ended = λ _. refl }
  where
    one : (j : ℕ) → j < 1 → is_padding (char_at (b'T' ∷ []) (0 + j)) ≡ false
    one zero lt = refl
    one (suc j) lt = absurd (omega (arith, lt))

full_relative_filename_lem_example :
    fat16_get_full_relative_filename file_item (λ _. 9) 108 3 ≡ b'T'
full_relative_filename_lem_example =
    full_relative_filename_lem file_item (λ _. 9) 108 2 1 3 name-HasLength ext-HasLength
      (omega arith) (omega arith)

-- "ab.t"
abbrev wanted : PathPart
wanted = record { node = 3; str = 4; bytes = b'a' ∷ b'b' ∷ b'.' ∷ b't' ∷ [] }

wanted-IsOnlyFile : IsOnlyFile private_data.root_directory (char_at wanted.bytes) 2 0
unfolding private_data istrncmp fat16_get_full_relative_filename fat16_to_proper_string proper_loop
    memset tolower decode_item
wanted-IsOnlyFile = record {
  counted = refl;
  within = omega arith;
  named = refl;
  is_file = refl;
  other = only;
}
  where
    only : (j : ℕ) → j < 2 → j ≢ 0 → is_named root_bytes (char_at wanted.bytes) j ≡ false
    only zero lt differs = absurd (differs refl)
    only (suc zero) lt differs = refl
    only (suc (suc j)) lt differs = absurd (omega (arith, lt))

two-Grants : Grants kernel_blocks (8 ∷ 8 ∷ []) started
unfolding heap_align_value_to_upper
two-Grants =
    started-Grants (8 ∷ 8 ∷ [])
      (omega arith, omega arith, omega arith, (omega arith, omega arith, omega arith, tt))

-- The blocks are those of the kernel's heap.
close-open_example :
    (desc : FatFileDescriptor) × (freed : List ℕ) × (fat16_open kernel_blocks volume
        (λ _. 1)
        5
        private_data
        (wanted ∷ [])
        FileMode.mode_read
        started
      ≡ some (ok desc, private_data, after kernel_blocks (8 ∷ 8 ∷ item_bytes ∷ []) started))
    × ((k : Kernel)
        → (fat16_close kernel_blocks volume (λ _. 1) desc k).1 ≡ free_all kernel_blocks freed k)
    × Perm freed (blocks kernel_blocks (8 ∷ 8 ∷ item_bytes ∷ []) started)
close-open_example =
    close-open kernel_blocks volume (λ _. 1) 5 private_data wanted 2 0 started two-Grants
      wanted-IsOnlyFile

-- "x"
abbrev missing : PathPart
missing = record { node = 3; str = 4; bytes = b'x' ∷ [] }

none-is_named : (j : ℕ) → j < 2 → is_named root_bytes (char_at missing.bytes) j ≡ false
unfolding istrncmp fat16_get_full_relative_filename fat16_to_proper_string proper_loop memset
    tolower decode_item
none-is_named zero lt = refl
none-is_named (suc zero) lt = refl
none-is_named (suc (suc j)) lt = absurd (omega (arith, lt))

open_missing_example :
    fat16_open kernel_blocks volume
      (λ _. 1)
      5
      private_data
      (missing ∷ wanted ∷ [])
      FileMode.mode_read
      started
    ≡ some (
      err eio,
      private_data,
      free_all kernel_blocks
          (blocks kernel_blocks (8 ∷ []) started)
          (after kernel_blocks (8 ∷ []) started),
    )
unfolding private_data
open_missing_example =
    open_missing kernel_blocks volume (λ _. 1) 5 private_data missing (wanted ∷ []) 2 started
      two-Grants.0 refl none-is_named
