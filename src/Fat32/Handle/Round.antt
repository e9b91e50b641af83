-- ===== src/Fat32/Handle/Round.antt =====
-- One round of fat32_read_internal of src/fs/fat/fat32.c, on a chain of clusters.
use udemy_kernel.Prelude.{
  ℕ, suc, ◌+◌, ◌-◌, ◌*◌, ◌%◌, ◌^◌, ◌<◌, ◌≤◌, ◌≡◌, ◌∙◌, refl, some, List, ◌∷◌, Array, true, false,
  first, length, leb, ltb, ◌&&◌, ◌==◌, if◌then◌else◌, arith, Bool-cases, inl, inr,
}
use udemy_kernel.Disk.{Controller, the_disk}
use udemy_kernel.Disk.Stream.{Reads}
use udemy_kernel.Fat32.{
  get_next_cluster_id, FatPrivate, get_cluster_data_disk_pos, seek_and_read, cluster_address,
}
use udemy_kernel.Fat32.Chain.{IsChain, chain_byte, moved, seek_and_read_lem, get_next-IsChain}
use udemy_kernel.Fat32.Handle.{
  FatPrivateFileHandle, min, how_many, next_cluster, fat32_read_internal,
}

-- The handle stands at an offset into the first cluster of a chain `l`, and `n` more bytes lie in
-- the file and in the chain.
pub record Stands (c : Controller) (p : FatPrivate) (h : FatPrivateFileHandle) (l : List ℕ) (n : ℕ)
    : Type 0 where
  pub disk : p.read_stream.disk ≡ the_disk
  pub chain : IsChain c p l
  pub current : h.current_cluster ≡ first l
  pub inside : h.position_in_cluster < p.cluster_size_bytes
  pub enough : h.position_in_cluster + n ≤ length l * p.cluster_size_bytes
  pub in_file : h.file_pos + n ≤ h.file_size
  pub word : h.file_size < 2 ^ 32

pub how_many_lem :
    (p : FatPrivate) (h : FatPrivateFileHandle) (n : ℕ)
    → h.position_in_cluster < p.cluster_size_bytes
    → p.cluster_size_bytes < 2 ^ 32
    → h.file_pos + n ≤ h.file_size
    → h.file_size < 2 ^ 32
    → how_many p h n ≡ min n (p.cluster_size_bytes - h.position_in_cluster)
unfolding how_many
how_many_lem p h n inside small in_file word = ground arith

-- What `n` bytes of a chain from the offset `q` on, read to `out + at`, leave in the buffer.
abbrev pub ReadsChain : Controller → FatPrivate → List ℕ → (q at n : ℕ) → (out r : Array) → Type 0
ReadsChain c p l q at n out r =
    (j : ℕ) → r j ≡ (if leb at j && ltb j (at + n) then chain_byte c p l (q + (j - at)) else out j)

-- The bytes of the first cluster.
pub round_bytes :
    (c : Controller) (p : FatPrivate) (a : ℕ) (l : List ℕ) (q at k : ℕ) (out r : Array)
    → q + k ≤ p.cluster_size_bytes
    → Reads c (get_cluster_data_disk_pos p a + q) at k out r
    → ReadsChain c p (a ∷ l) q at k out r
round_bytes c p a l q at k out r fits reads j = elim (Bool-cases (leb at j && ltb j (at + k))) [
  | inl here ↦
      let within : ltb (q + (j - at)) p.cluster_size_bytes ≡ true = ground (arith, here, fits) in
      let place : get_cluster_data_disk_pos p a + q + (j - at)
          ≡ get_cluster_data_disk_pos p a + (q + (j - at)) =
        omega arith in
      rw (within, ← place) (reads j)
  | inr outside ↦ ground (arith, reads j, outside)
]

-- The read of a round.
pub round :
    (c : Controller) (junk : Array) (p : FatPrivate) (h : FatPrivateFileHandle) (a : ℕ) (l : List ℕ)
    (n at : ℕ) (out : Array)
    → Stands c p h (a ∷ l) n
    → (k : ℕ) → h.position_in_cluster + k ≤ p.cluster_size_bytes
    → (x : ℕ) × (r : Array) × (seek_and_read c junk p
          ((get_cluster_data_disk_pos p h.current_cluster + h.position_in_cluster) % 2 ^ 32)
          at
          k
          out
        ≡ some (moved p x, r))
      × ReadsChain c p (a ∷ l) h.position_in_cluster at k out r
round c junk p h a l n at out s k fits =
    let start : ℕ = get_cluster_data_disk_pos p a + h.position_in_cluster in
    let (r, read, bytes) =
      seek_and_read_lem c junk p start at k out s.disk (omega (arith, s.chain.3, fits)) in
    let place : (get_cluster_data_disk_pos p h.current_cluster + h.position_in_cluster) % 2 ^ 32
        ≡ start =
      rw s.current (omega (arith, s.chain.3, s.inside)) in
    (start + k, r, rw place read, round_bytes c p a l h.position_in_cluster at k out r fits bytes)

-- How a read of `n` bytes ends.
pub record Done (c : Controller) (p : FatPrivate) (h : FatPrivateFileHandle) (l : List ℕ) (n at : ℕ)
    (out : Array) (x : ℕ) (h' : FatPrivateFileHandle) (r : Array) : Type 0 where
  pub rest : List ℕ
  pub shorter : length rest ≤ length l
  pub goes_on : (m : ℕ) → Stands c p h l (n + m) → Stands c (moved p x) h' rest m
  pub bytes : ReadsChain c p l h.position_in_cluster at n out r
  pub behind :
      (o : ℕ)
      → chain_byte c p rest (h'.position_in_cluster + o)
        ≡ chain_byte c p l (h.position_in_cluster + n + o)
  pub read_pos : h'.file_pos ≡ h.file_pos + n

pub wrap : (n : ℕ) → n < 2 ^ 32 → n % 2 ^ 32 ≡ n
wrap n small = omega (arith, small)

pub all_read : (n : ℕ) → (n - n == 0) ≡ true
all_read n = ground arith

-- The read ends inside the first cluster.
pub read_inside :
    (c : Controller) (junk : Array) (fuel : ℕ) (p : FatPrivate) (h : FatPrivateFileHandle) (a : ℕ)
    (l : List ℕ) (n at : ℕ) (out : Array)
    → Stands c p h (a ∷ l) n
    → h.position_in_cluster + n < p.cluster_size_bytes
    → (x : ℕ) × (h' : FatPrivateFileHandle) × (r : Array) × (fat32_read_internal c junk
          (suc fuel)
          p
          h
          n
          at
          out
        ≡ some (1, moved p x, h', at + n, r))
      × Done c p h (a ∷ l) n at out x h' r
unfolding fat32_read_internal next_cluster get_cluster_data_disk_pos cluster_address
read_inside c junk fuel p h a l n at out s inside =
    let (x, r, read, bytes) = round c junk p h a l n at out s n (omega (arith, inside)) in
    let small : p.cluster_size_bytes < 2 ^ 32 = omega (arith, s.chain.3) in
    let takes : how_many p h n ≡ n =
      how_many_lem p h n s.inside small s.in_file s.word ∙ ground (arith, inside) in
    let stays : (h.position_in_cluster + n == p.cluster_size_bytes) ≡ false =
      ground (arith, inside) in
    let h' = record h {
      file_pos = h.file_pos + n;
      position_in_cluster = h.position_in_cluster + n;
    } in
    (
      x,
      h',
      r,
      rw
          (
            fat32_read_internal,
            takes,
            read,
            takes,
            next_cluster,
            wrap (h.file_pos + n) (omega (arith, s.in_file, s.word)),
            wrap (h.position_in_cluster + n) (omega (arith, inside, small)),
            stays,
            takes,
            all_read n,
          )
          refl,
      record {
        rest = a ∷ l;
        shorter = omega arith;
        goes_on = λ m s'. record {
          disk = refl;
          chain = s.chain;
          current = s.current;
          inside = inside;
          enough = omega (arith, s'.enough);
          in_file = omega (arith, s'.in_file);
          word = s.word;
        };
        bytes = bytes;
        behind = λ o. refl;
        read_pos = refl;
      },
    )

-- The handle after the last byte of a cluster, at the next one.
abbrev pub at_next : FatPrivateFileHandle → (k : ℕ) → List ℕ → FatPrivateFileHandle
at_next h k l = record h {
  file_pos = h.file_pos + k;
  position_in_cluster = 0;
  current_cluster = first l;
}

-- The round that reads the rest of a cluster.
pub across_step :
    (c : Controller) (junk : Array) (fuel : ℕ) (p : FatPrivate) (h : FatPrivateFileHandle) (a : ℕ)
    (l : List ℕ) (n at : ℕ) (out : Array) (k : ℕ)
    → Stands c p h (a ∷ l) n
    → k ≤ n
    → h.position_in_cluster + k ≡ p.cluster_size_bytes
    → (x : ℕ) × (r : Array) × (fat32_read_internal c junk (suc fuel) p h n at out ≡ (
        if n - k == 0
        then some (1, moved p x, at_next h k l, at + k, r)
        else if h.file_pos + k == h.file_size
        then some (0, moved p x, at_next h k l, at + k, r)
        else if first l == 0
        then some (0, moved p x, at_next h k l, at + k, r)
        else fat32_read_internal c junk fuel (moved p x) (at_next h k l) (n - k) (at + k) r))
      × ReadsChain c p (a ∷ l) h.position_in_cluster at k out r
unfolding fat32_read_internal next_cluster cluster_address get_cluster_data_disk_pos
across_step c junk fuel p h a l n at out k s le ends =
    let (x1, r, read, bytes) = round c junk p h a l n at out s k (omega (arith, ends)) in
    let small : p.cluster_size_bytes < 2 ^ 31 = omega (arith, s.chain.3) in
    let takes : how_many p h n ≡ k =
      how_many_lem p h n s.inside (omega (arith, small)) s.in_file s.word
      ∙ ground (arith, ends, le) in
    let x : ℕ = cluster_address p a + 4 in
    let next : get_next_cluster_id c junk (moved p x1) h.current_cluster
        ≡ some (first l, moved p x) =
      rw s.current (get_next-IsChain c junk (moved p x1) a l refl s.chain) in
    let at_end : (h.position_in_cluster + k == p.cluster_size_bytes) ≡ true =
      ground (arith, ends) in
    (
      x,
      r,
      rw
          (
            fat32_read_internal,
            takes,
            read,
            takes,
            next_cluster,
            wrap (h.position_in_cluster + k) (omega (arith, ends, small)),
            at_end,
            next,
            takes,
            wrap (h.file_pos + k) (omega (arith, s.in_file, s.word, le)),
          )
          refl,
      bytes,
    )
