-- ===== src/Fat16/Descriptor/Content.antt =====
-- What fat16_read of src/fs/fat/fat16.c reads of a file.
use mathlib.Core.Path.{subst}
use udemy_kernel.Prelude.{
  ℕ, zero, suc, ◌+◌, ◌*◌, ◌%◌, ◌^◌, ◌<◌, ◌≤◌, ◌≡◌, ◌∙◌, refl, Array, ok, some, arith,
}
use udemy_kernel.Prelude.Bits.{zero_or}
use udemy_kernel.Disk.{Controller, DiskStream, the_disk}
use udemy_kernel.Fat16.{FatPrivate, FatDirectoryItem, cluster_bytes, fat16_get_first_cluster}
use udemy_kernel.Fat16.Cluster.{fat16_read_internal}
use udemy_kernel.Fat16.Cluster.Read.{
  cluster_size, InReach, ReadsFile, Fits, read_internal_lem, moved-InReach, moved-ReadsFile,
  ReadsFile-append,
}
use udemy_kernel.Fat16.Item.{FatContents}
use udemy_kernel.Fat16.Descriptor.{FatFileDescriptor, read_loop, fat16_read}

-- Pieces of `size` bytes from `offset` on, each at the start of a cluster or within one.
abbrev pub AllFit : FatPrivate → (size k offset : ℕ) → Type 0
AllFit p size k offset = (i : ℕ) → i < k → Fits p (offset + i * size) size

read_step :
    (c : Controller) (junk : Array) (fuel : ℕ) (p p1 : FatPrivate) (item : FatDirectoryItem)
    (size k offset at : ℕ) (out bytes : Array)
    → fat16_read_internal c junk fuel p (fat16_get_first_cluster item) offset size at out
      ≡ some (ok tt, p1, bytes)
    → (offset + size) % 2 ^ 32 ≡ offset + size
    → read_loop c junk fuel p item size (suc k) offset at out
      ≡ read_loop c junk fuel p1 item size k (offset + size) (at + size) bytes
unfolding read_loop
read_step c junk fuel p p1 item size k offset at out bytes done nowrap =
    subst
      (λ x.
        read_loop c junk fuel p item size (suc k) offset at out
        ≡ read_loop c junk fuel p1 item size k x (at + size) bytes)
      nowrap (rw (read_loop, done) refl)

read_loop_lem :
    (c : Controller) (junk : Array) (fuel : ℕ) (p : FatPrivate) (item : FatDirectoryItem)
    (size k offset at last : ℕ) (out : Array)
    → p.fat_read_stream.disk ≡ the_disk
    → p.cluster_read_stream.disk ≡ the_disk
    → 0 < cluster_bytes p
    → 0 < size
    → InReach c p (fat16_get_first_cluster item) last
    → offset + k * size ≤ last + 1
    → last < 2 ^ 31
    → AllFit p size k offset
    → size < fuel
    → (q r : DiskStream) × (bytes : Array) × (read_loop c junk fuel p item size k offset at out
        ≡ some (ok tt, record p { fat_read_stream = q; cluster_read_stream = r }, bytes))
      × ReadsFile c p (fat16_get_first_cluster item) offset at (k * size) out bytes
unfolding read_loop
read_loop_lem c junk fuel p item size zero offset at last out is js real some_bytes reach end small
      fits enough =
    (p.fat_read_stream, p.cluster_read_stream, out, refl, λ j. ground arith)
read_loop_lem c junk fuel p item size (suc k) offset at last out is js real some_bytes reach end
      small fits enough =
    let cluster : ℕ = fat16_get_first_cluster item in
    let total : suc k * size ≡ size + k * size = omega arith in
    let first =
      read_internal_lem c junk fuel p cluster offset size at last out is js real reach
        (omega (arith, end, total, some_bytes)) (omega (arith, end, total))
        (subst (λ x. Fits p x size) (omega arith) (fits 0 (omega arith))) enough in
    let p1 : FatPrivate = record p {
      fat_read_stream = first.table;
      cluster_read_stream = first.data_stream;
    } in
    let nowrap : (offset + size) % 2 ^ 32 ≡ offset + size = omega (arith, end, total, small) in
    let (q, r, bytes, rest, reads) =
      read_loop_lem c junk fuel p1 item size k (offset + size) (at + size) last first.bytes
        first.table_disk first.data_disk real some_bytes
        (moved-InReach c p first.table first.data_stream cluster last reach)
        (omega (arith, end, total)) small
        (λ i lt. subst (λ x. Fits p x size) (omega arith) (fits (suc i) (omega (arith, lt))))
        enough in
    (
      q,
      r,
      bytes,
      read_step c junk fuel p p1 item size k offset at out first.bytes first.done nowrap ∙ rest,
      subst (λ n. ReadsFile c p cluster offset at n out bytes) (omega arith)
          (ReadsFile-append c p cluster offset at size (size + k * size) out first.bytes bytes
            (omega arith) first.reads
            (subst (λ n. ReadsFile c p cluster (offset + size) (at + size) n first.bytes bytes)
              (omega arith)
              (moved-ReadsFile c p first.table first.data_stream cluster (offset + size) (at + size)
                (k * size) first.bytes bytes reads))),
    )

first_cluster_lem :
    (item : FatDirectoryItem)
    → item.high_16_bits_first_cluster ≡ 0
    → fat16_get_first_cluster item ≡ item.low_16_bits_first_cluster
unfolding fat16_get_first_cluster
first_cluster_lem item high = rw high (zero_or item.low_16_bits_first_cluster)

pub record WasReadAll (c : Controller) (junk : Array) (fuel : ℕ) (p : FatPrivate)
    (desc : FatFileDescriptor) (cluster size nmemb : ℕ) (out : Array) : Type 0 where
  pub table : DiskStream
  pub data_stream : DiskStream
  pub bytes : Array
  pub done :
      fat16_read c junk fuel p desc size nmemb out
      ≡ some
          (ok nmemb, record p { fat_read_stream = table; cluster_read_stream = data_stream }, bytes)
  pub reads : ReadsFile c p cluster desc.pos 0 (nmemb * size) out bytes

-- On streams of the disk, for a file whose first cluster has a number of 16 bits, whose chain of
-- entries goes on up to the byte `last`, below 2^31, where the entry of a cluster is read at the
-- product of the table's position and twice the cluster, and whose clusters have numbers from 2 on
-- and lie where the disk can be read, and for pieces of `size` bytes, at least one and below the
-- fuel, that end by `last` and that each start a cluster or lie within one: the read succeeds, and
-- gives the bytes of the file from the position on, whatever clusters of the chain they lie in; no
-- other byte of the buffer changes.
pub read_lem :
    (c : Controller) (junk : Array) (fuel : ℕ) (p : FatPrivate)
    (address copy start size nmemb last : ℕ) (item : FatDirectoryItem) (out : Array)
    → p.fat_read_stream.disk ≡ the_disk
    → p.cluster_read_stream.disk ≡ the_disk
    → 0 < cluster_size p
    → 0 < size
    → item.high_16_bits_first_cluster ≡ 0
    → InReach c p item.low_16_bits_first_cluster last
    → start + nmemb * size ≤ last + 1
    → last < 2 ^ 31
    → AllFit p size nmemb start
    → size < fuel
    → WasReadAll c junk fuel p
        (record {
          address = address;
          item = record { address = copy; contents = FatContents.file copy item };
          pos = start;
        })
        item.low_16_bits_first_cluster
        size
        nmemb
        out
unfolding fat16_read
read_lem c junk fuel p address copy start size nmemb last item out is js real some_bytes high reach
      end small fits enough =
    let first = first_cluster_lem item high in
    let (q, r, bytes, done, reads) =
      read_loop_lem c junk fuel p item size nmemb start 0 last out is js real some_bytes
        (rw first reach) end small fits enough in
    record {
      table = q;
      data_stream = r;
      bytes = bytes;
      done = rw (fat16_read, done) refl;
      reads = subst (λ k. ReadsFile c p k start 0 (nmemb * size) out bytes) first reads;
    }
