-- ===== src/Fat32/Directory/Find.antt =====
-- The search of src/fs/fat/fat32.c for a name among the first items of a directory.
use udemy_kernel.Prelude.{
  is_zero, ℕ, zero, suc, ◌+◌, ◌*◌, ◌^◌, ◌<◌, ◌≤◌, ◌≡◌, ◌≢◌, ◌∙◌, sym, ap, refl, true, false, some,
  [], ◌∷◌, Array, field, ◌==◌, arith, Bool-cases, inl, inr,
}
use udemy_kernel.Str.{strncmp}
use udemy_kernel.Str.Compare.{strncmp-agree}
use udemy_kernel.PathParser.{PathPart, char_at}
use udemy_kernel.Disk.{Controller, the_disk}
use udemy_kernel.Disk.Stream.{Reads}
use udemy_kernel.Fat16.{decode_item}
use udemy_kernel.Fat32.{FatPrivate, get_cluster_data_disk_pos}
use udemy_kernel.Fat32.Name.{transform_filename_to_fat}
use udemy_kernel.Fat32.Chain.{moved, seek_and_read_lem}
use udemy_kernel.Fat32.Directory.{
  Scan, scan_items, items_per_cluster, find_in_clusters, walk_path, get_path_directory_item,
}

-- The bytes of a cluster on the disk.
abbrev pub cluster_at : Controller → FatPrivate → (cluster : ℕ) → Array
cluster_at c p cluster = field c.image (get_cluster_data_disk_pos p cluster)

-- The item `at` is in use and has the name; the items before it are in use and have other names.
pub record IsFirst (bytes name : Array) (at : ℕ) : Type 0 where
  pub used : (i : ℕ) → i ≤ at → bytes (i * 32) ≢ 0
  pub named : is_zero (strncmp (field bytes (at * 32)) name 11) ≡ true
  pub other : (i : ℕ) → i < at → is_zero (strncmp (field bytes (i * 32)) name 11) ≡ false

-- Two arrays with the same bytes below `n`.
abbrev pub Agrees : (n : ℕ) (b d : Array) → Type 0
Agrees n b d = (i : ℕ) → i < n → b i ≡ d i

first_byte : (bytes : Array) (i : ℕ) → field bytes (i * 32) 0 ≡ bytes (i * 32)
first_byte bytes i = ap bytes (omega arith)

agree-IsFirst :
    (n : ℕ) (b d name : Array) (at : ℕ)
    → Agrees n b d
    → at * 32 + 32 ≤ n
    → IsFirst d name at
    → IsFirst b name at
agree-IsFirst n b d name at same within first = record {
  used = λ i le e. first.used i le (sym (same (i * 32) (omega (arith, le, within))) ∙ e);
  named = strncmp_same at (omega arith) ∙ first.named;
  other = λ i lt. strncmp_same i (omega (arith, lt)) ∙ first.other i lt;
}
  where
    strncmp_same :
        (i : ℕ)
        → i ≤ at
        → is_zero (strncmp (field b (i * 32)) name 11)
          ≡ is_zero (strncmp (field d (i * 32)) name 11)
    strncmp_same i le = ap is_zero (
        strncmp-agree (field b (i * 32)) (field d (i * 32)) name 11
          (λ j lt. same (i * 32 + j) (omega (arith, le, within, lt))))

scan_items_lem :
    (bytes name : Array) (k i at : ℕ)
    → IsFirst bytes name at
    → i ≤ at
    → at < i + k
    → scan_items bytes name k i ≡ Scan.found (decode_item bytes at)
unfolding scan_items
scan_items_lem bytes name zero i at first le within = absurd (omega (arith, le, within))
scan_items_lem bytes name (suc k) i at first le within =
    let used : (field bytes (i * 32) 0 == 0) ≡ false =
      ground (arith, first_byte bytes i, first.used i le) in
    elim (Bool-cases (i == at)) [
      | inl here ↦
          let same : i ≡ at = ground (arith, here) in
          let name_is : is_zero (strncmp (field bytes (i * 32)) name 11) ≡ true =
            rw same first.named in
          rw (used, name_is, same) refl
      | inr before ↦
          let less : i < at = ground (arith, before, le) in
          rw (used, first.other i less)
            (scan_items_lem bytes name k (i + 1) at first (omega (arith, less))
              (omega (arith, within)))
    ]

-- The volume after a read of a cluster of `size` bytes into its buffer.
abbrev pub buffered : FatPrivate → (pos : ℕ) → (bytes : Array) → FatPrivate
buffered p pos bytes = record (moved p pos) { bytes = bytes }

cluster-Agrees :
    (c : Controller) (p : FatPrivate) (cluster : ℕ) (r : Array)
    → Reads c (get_cluster_data_disk_pos p cluster) 0 p.cluster_size_bytes p.bytes r
    → Agrees p.cluster_size_bytes r (cluster_at c p cluster)
cluster-Agrees c p cluster r reads i lt = ground (arith, reads i)

-- On a stream of the disk, with the name among the items of the first cluster of a directory: the
-- item found is decoded from the buffer, which holds that cluster.
pub find_in_clusters_lem :
    (c : Controller) (junk : Array) (fuel : ℕ) (p : FatPrivate) (cluster : ℕ) (name : Array)
    (at : ℕ)
    → p.read_stream.disk ≡ the_disk
    → get_cluster_data_disk_pos p cluster + p.cluster_size_bytes + 512 ≤ 2 ^ 31
    → at * 32 + 32 ≤ p.cluster_size_bytes
    → IsFirst (cluster_at c p cluster) name at
    → (r : Array) × (find_in_clusters c junk (suc fuel) p cluster name
        ≡ some (
          some (decode_item r at),
          buffered p (get_cluster_data_disk_pos p cluster + p.cluster_size_bytes) r,
        ))
      × Agrees p.cluster_size_bytes r (cluster_at c p cluster)
unfolding find_in_clusters
find_in_clusters_lem c junk fuel p cluster name at is small within first =
    let (r, read, bytes) =
      seek_and_read_lem c junk p (get_cluster_data_disk_pos p cluster) 0 p.cluster_size_bytes
        p.bytes is small in
    let same = cluster-Agrees c p cluster r bytes in
    let found =
      scan_items_lem r name (items_per_cluster p) 0 at
        (agree-IsFirst p.cluster_size_bytes r (cluster_at c p cluster) name at same within first)
        (omega arith) (omega (arith, within)) in
    (r, rw (find_in_clusters, read, found) refl, same)

-- The first cluster of the root directory.
abbrev pub root_of : FatPrivate → ℕ
root_of p = p.header.fat_header_extended_32.root_clus

-- A path of one part, whose name is that of an item in the first cluster of the root directory.
pub get_path_directory_item_lem :
    (c : Controller) (junk : Array) (fuel : ℕ) (p : FatPrivate) (part : PathPart) (name : Array)
    (at : ℕ)
    → p.read_stream.disk ≡ the_disk
    → get_cluster_data_disk_pos p (root_of p) + p.cluster_size_bytes + 512 ≤ 2 ^ 31
    → at * 32 + 32 ≤ p.cluster_size_bytes
    → IsFirst (cluster_at c p (root_of p)) name at
    → transform_filename_to_fat (suc fuel) junk (char_at part.bytes) ≡ some name
    → (r : Array) × (get_path_directory_item c junk (suc fuel) p (part ∷ [])
        ≡ some (
          decode_item r at,
          buffered p (get_cluster_data_disk_pos p (root_of p) + p.cluster_size_bytes) r,
        ))
      × Agrees p.cluster_size_bytes r (cluster_at c p (root_of p))
unfolding get_path_directory_item walk_path
get_path_directory_item_lem c junk fuel p part name at is small within first made =
    let (r, found, same) =
      find_in_clusters_lem c junk fuel p (root_of p) name at is small within first in
    (r, rw (get_path_directory_item, walk_path, made, found) refl, same)
