-- ===== src/Fat32/Handle/Open.antt =====
-- fat32_open of src/fs/fat/fat32.c on a file of the root directory, and what is then read.
use udemy_kernel.Prelude.{ℕ, ◌+◌, ◌*◌, ◌^◌, ◌≤◌, ◌≡◌, Array}
use udemy_kernel.Disk.{Controller, the_disk}
use udemy_kernel.Fat16.{FatDirectoryItem, decode_item}
use udemy_kernel.Fat32.{FatPrivate, get_cluster_data_disk_pos}
use udemy_kernel.Fat32.Directory.Find.{IsFirst, cluster_at, root_of}

-- A name in the first cluster of the root directory, which lies where the disk can be read.
pub record IsRootFile (c : Controller) (p : FatPrivate) (name : Array) (at : ℕ) : Type 0 where
  pub disk : p.read_stream.disk ≡ the_disk
  pub small : get_cluster_data_disk_pos p (root_of p) + p.cluster_size_bytes + 512 ≤ 2 ^ 31
  pub within : at * 32 + 32 ≤ p.cluster_size_bytes
  pub item : IsFirst (cluster_at c p (root_of p)) name at

-- The item on the disk.
abbrev pub root_item : Controller → FatPrivate → (at : ℕ) → FatDirectoryItem
root_item c p at = decode_item (cluster_at c p (root_of p)) at
