-- ===== src/Fat32/Chain.antt =====
-- The chains of clusters of a FAT32 volume, and the steps along them by src/fs/fat/fat32.c.
use udemy_kernel.Prelude.{
  le32, ℕ, ◌+◌, ◌-◌, ◌/◌, ◌%◌, ◌^◌, ◌<◌, ◌≤◌, ◌≡◌, ◌≢◌, ◌↔◌, ◌∙◌, ap, refl, some, List, [], ◌∷◌,
  Array, first, ltb, ◌==◌, if◌then◌else◌, arith,
}
use udemy_kernel.Disk.{Controller, the_disk, diskstreamer_seek}
use udemy_kernel.Disk.Stream.{stream_at, diskstreamer_read_lem, Reads}
use udemy_kernel.Fat32.{
  FatPrivate, get_cluster_data_disk_pos, cluster_address, next_of_value, seek_and_read,
  get_cluster_value, get_next_cluster_id,
}

-- The entry of a cluster in the table.
abbrev pub value_at : Controller → FatPrivate → (cluster : ℕ) → ℕ
value_at c p cluster = le32 c.image (cluster_address p cluster)

-- The cluster that an entry of the table names by the format: 28 bits, 0 for the end.
abbrev pub successor : (value : ℕ) → ℕ
successor value = if value == 0x0FFFFFF8 then 0 else value % 2 ^ 28

abbrev pub Follows : Controller → (data_pos table_pos : ℕ → ℕ) → (size : ℕ) → List ℕ → Type 0
Follows c data_pos table_pos size [] = Unit
Follows c data_pos table_pos size (a ∷ l) =
    (a ≢ 0)
    × (a < 256)
    × (table_pos a + 516 ≤ 2 ^ 31)
    × (data_pos a + size + 512 ≤ 2 ^ 31)
    × (successor (le32 c.image (table_pos a)) ≡ first l)
    × Follows c data_pos table_pos size l

-- The clusters of a list lie on the disk, have numbers below 256, and each names the next in the
-- table, the last one none.
abbrev pub IsChain : Controller → FatPrivate → List ℕ → Type 0
IsChain c p l = Follows c (get_cluster_data_disk_pos p) (cluster_address p) p.cluster_size_bytes l

abbrev pub bytes_of : Controller → (data_pos : ℕ → ℕ) → (size : ℕ) → List ℕ → (offset : ℕ) → ℕ
bytes_of c data_pos size [] offset = 0
bytes_of c data_pos size (a ∷ l) offset =
    if ltb offset size
    then c.image (data_pos a + offset)
    else bytes_of c data_pos size l (offset - size)

-- The byte at an offset into the clusters of a list, one behind the other.
abbrev pub chain_byte : Controller → FatPrivate → List ℕ → (offset : ℕ) → ℕ
chain_byte c p l = bytes_of c (get_cluster_data_disk_pos p) p.cluster_size_bytes l

-- The volume with its stream at a position of the disk.
abbrev pub moved : FatPrivate → (pos : ℕ) → FatPrivate
moved p pos = record p { read_stream = stream_at pos }

pub seek_and_read_lem :
    (c : Controller) (junk : Array) (p : FatPrivate) (pos at total : ℕ) (out : Array)
    → p.read_stream.disk ≡ the_disk
    → pos + total + 512 ≤ 2 ^ 31
    → (r : Array) × (seek_and_read c junk p pos at total out ≡ some (moved p (pos + total), r))
      × Reads c pos at total out r
unfolding seek_and_read diskstreamer_seek
seek_and_read_lem c junk p pos at total out is small =
    let (r, read, bytes) =
      diskstreamer_read_lem c junk (total / 512 + 2) pos at total out (omega (arith, small))
        (omega arith) in
    let there : (diskstreamer_seek p.read_stream pos).1 ≡ stream_at pos =
      ap (λ d. record { pos = pos; disk = d }) is in
    (r, rw (seek_and_read, there, read) refl, bytes)

pub get_next_lem :
    (c : Controller) (junk : Array) (p : FatPrivate) (a : ℕ)
    → p.read_stream.disk ≡ the_disk
    → cluster_address p a + 516 ≤ 2 ^ 31
    → get_next_cluster_id c junk p a
      ≡ some (next_of_value (value_at c p a), moved p (cluster_address p a + 4))
unfolding get_next_cluster_id get_cluster_value
get_next_lem c junk p a is small =
    let (r, read, bytes) =
      seek_and_read_lem c junk p (cluster_address p a) 0 4 junk is (omega (arith, small)) in
    let value : le32 r 0 ≡ value_at c p a = ground (arith, bytes 0, bytes 1, bytes 2, bytes 3) in
    rw (get_next_cluster_id, get_cluster_value, read, value) refl

-- The next cluster of one whose entry is not 0x0FFFFFF8, on a stream of the disk, in a table that
-- lies below 2^31: the code returns the low 8 bits of the entry, which is the cluster that the low
-- 28 bits of the entry name exactly where that is below 256.
pub get_next_truncated :
    (c : Controller) (junk : Array) (p : FatPrivate) (a : ℕ)
    → p.read_stream.disk ≡ the_disk
    → cluster_address p a + 516 ≤ 2 ^ 31
    → value_at c p a ≢ 0x0FFFFFF8
    → (q : FatPrivate) × (get_next_cluster_id c junk p a ≡ some (value_at c p a % 256, q))
      × ((value_at c p a % 256 ≡ value_at c p a % 2 ^ 28) ↔ (value_at c p a % 2 ^ 28 < 256))
unfolding next_of_value
get_next_truncated c junk p a is small goes =
    let low : next_of_value (value_at c p a) ≡ value_at c p a % 256 = ground (arith, goes) in
    (moved p (cluster_address p a + 4), rw (← low) (get_next_lem c junk p a is small), ground arith)

next_of_value_small : (v m : ℕ) → successor v ≡ m → m < 256 → next_of_value v ≡ m
unfolding next_of_value
next_of_value_small v m same small = ground arith

-- The first cluster of a chain is followed by the second, or by 0.
pub get_next-IsChain :
    (c : Controller) (junk : Array) (p : FatPrivate) (a : ℕ) (l : List ℕ)
    → p.read_stream.disk ≡ the_disk
    → IsChain c p (a ∷ l)
    → get_next_cluster_id c junk p a ≡ some (first l, moved p (cluster_address p a + 4))
get_next-IsChain c junk p a l is chain =
    let small : first l < 256 = first_small l chain.5 in
    let same : next_of_value (value_at c p a) ≡ first l =
      next_of_value_small (value_at c p a) (first l) chain.4 small in
    get_next_lem c junk p a is chain.2 ∙ ap (λ n. some (n, moved p (cluster_address p a + 4))) same
  where
    first_small : (l : List ℕ) → IsChain c p l → first l < 256
    first_small [] chain = omega arith
    first_small (b ∷ l) chain = chain.1
