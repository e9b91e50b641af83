-- ===== src/Fat32/Handle/Content.antt =====
-- fat32_read of src/fs/fat/fat32.c: what it reads, against the clusters of a file.
use mathlib.Core.Path.{subst}
use udemy_kernel.Prelude.{
  ℕ, zero, suc, ◌+◌, ◌-◌, ◌*◌, ◌<◌, ◌≤◌, ◌≡◌, ◌∙◌, ap, refl, sym, some, List, [], ◌∷◌, Array, true,
  false, first, length, leb, ltb, ◌==◌, if◌then◌else◌, arith, Bool-cases, inl, inr,
}
use udemy_kernel.Disk.{Controller}
use udemy_kernel.Fat32.{FatPrivate, get_cluster_data_disk_pos, cluster_address}
use udemy_kernel.Fat32.Chain.{IsChain, chain_byte, moved}
use udemy_kernel.Fat32.Handle.{FatPrivateFileHandle, fat32_read_internal, fat32_read, read_loop}
use udemy_kernel.Fat32.Handle.Round.{Stands, ReadsChain, Done, at_next, read_inside, across_step}

-- The bytes behind the first cluster.
behind_across :
    (c : Controller) (p : FatPrivate) (a : ℕ) (l : List ℕ) (o i : ℕ)
    → i ≡ p.cluster_size_bytes + o
    → chain_byte c p (a ∷ l) i ≡ chain_byte c p l o
behind_across c p a l o i is =
    let beyond : ltb i p.cluster_size_bytes ≡ false = ground (arith, is) in
    let place : i - p.cluster_size_bytes ≡ o = omega (arith, is) in rw (beyond, place) refl

across_Stands :
    (c : Controller) (p : FatPrivate) (h : FatPrivateFileHandle) (a : ℕ) (l : List ℕ) (k n m x : ℕ)
    → Stands c p h (a ∷ l) n
    → n ≡ k + m
    → h.position_in_cluster + k ≡ p.cluster_size_bytes
    → Stands c (moved p x) (at_next h k l) l m
unfolding get_cluster_data_disk_pos cluster_address
across_Stands c p h a l k n m x s is ends = record {
  disk = refl;
  chain = s.chain.5;
  current = refl;
  inside = omega (arith, s.inside);
  enough =
      let more : suc (length l) * p.cluster_size_bytes
          ≡ p.cluster_size_bytes + length l * p.cluster_size_bytes =
        grind arith in
      omega (arith, s.enough, more, is, ends);
  in_file = omega (arith, s.in_file, is);
  word = s.word;
}

-- A read up to the end of the cluster, and the read of the rest.
across_bytes :
    (c : Controller) (p : FatPrivate) (a : ℕ) (l : List ℕ) (q at k n : ℕ) (out mid r : Array)
    → k ≤ n
    → q + k ≡ p.cluster_size_bytes
    → ReadsChain c p (a ∷ l) q at k out mid
    → ReadsChain c p l 0 (at + k) (n - k) mid r
    → ReadsChain c p (a ∷ l) q at n out r
across_bytes c p a l q at k n out mid r le ends first_part second j =
    elim (Bool-cases (leb (at + k) j)) [
      | inl later ↦
          let same =
            behind_across c p a l (0 + (j - (at + k))) (q + (j - at))
              (ground (arith, later, ends)) in
          rw (same, second j) (ground (arith, first_part j, later, le))
      | inr earlier ↦ ground (arith, first_part j, second j, earlier, le)
    ]

gone : (n k : ℕ) → (n - k == 0) ≡ true → k ≤ n → n ≡ k
gone n k last le = ground arith

some_left : (n k : ℕ) → (n - k == 0) ≡ false → k < n
some_left n k more = ground arith

is_below : (n m : ℕ) → ltb n m ≡ true → n < m
is_below n m inside = ground arith

is_above : (n m : ℕ) → ltb n m ≡ false → m ≤ n
is_above n m across = ground arith

-- The read ends with the last byte of the first cluster.
last_Done :
    (c : Controller) (p : FatPrivate) (h : FatPrivateFileHandle) (a : ℕ) (l : List ℕ) (k at x : ℕ)
    (out r : Array)
    → h.position_in_cluster + k ≡ p.cluster_size_bytes
    → ReadsChain c p (a ∷ l) h.position_in_cluster at k out r
    → Done c p h (a ∷ l) k at out x (at_next h k l) r
last_Done c p h a l k at x out r ends bytes = record {
  rest = l;
  shorter = omega arith;
  goes_on = λ m s. across_Stands c p h a l k (k + m) m x s refl ends;
  bytes = bytes;
  behind = λ o.
      sym (behind_across c p a l (0 + o) (h.position_in_cluster + k + o) (omega (arith, ends)));
  read_pos = refl;
}

-- The read goes on in the next cluster.
across_Done :
    (c : Controller) (p : FatPrivate) (h : FatPrivateFileHandle) (a : ℕ) (l : List ℕ)
    (k n at x x' : ℕ) (h' : FatPrivateFileHandle) (out mid r : Array)
    → k ≤ n
    → h.position_in_cluster + k ≡ p.cluster_size_bytes
    → ReadsChain c p (a ∷ l) h.position_in_cluster at k out mid
    → Done c (moved p x) (at_next h k l) l (n - k) (at + k) mid x' h' r
    → Done c p h (a ∷ l) n at out x' h' r
unfolding get_cluster_data_disk_pos cluster_address
across_Done c p h a l k n at x x' h' out mid r le ends bytes d = record {
  rest = d.rest;
  shorter = omega (arith, d.shorter);
  goes_on = λ m s.
      d.goes_on m (across_Stands c p h a l k (n + m) (n - k + m) x s (omega (arith, le)) ends);
  bytes = across_bytes c p a l h.position_in_cluster at k n out mid r le ends bytes d.bytes;
  behind = λ o.
      d.behind o
      ∙ sym (
          behind_across c p a l (0 + (n - k) + o) (h.position_in_cluster + n + o)
            (omega (arith, ends, le)));
  read_pos = omega (arith, d.read_pos, le);
}

not_at_end :
    (h : FatPrivateFileHandle) (n k : ℕ)
    → h.file_pos + n ≤ h.file_size
    → k < n
    → (h.file_pos + k == h.file_size) ≡ false
not_at_end h n k in_file less = ground (arith, in_file, less)

-- Bytes are left in a chain that is not empty.
first_real :
    (c : Controller) (p : FatPrivate) (l : List ℕ) (n : ℕ)
    → IsChain c p l
    → 0 + n ≤ length l * p.cluster_size_bytes
    → 0 < n
    → (first l == 0) ≡ false
first_real c p [] n chain enough more = absurd (omega (arith, enough, more))
first_real c p (a ∷ l) n chain enough more = ground (arith, chain.0)

-- A read of `n` bytes, more than none, given fuel for every cluster of the chain.
read_internal_lem :
    (c : Controller) (junk : Array) (fuel : ℕ) (p : FatPrivate) (h : FatPrivateFileHandle)
    (l : List ℕ) (n at : ℕ) (out : Array)
    → Stands c p h l n
    → 0 < n
    → length l ≤ fuel
    → (x : ℕ) × (h' : FatPrivateFileHandle) × (r : Array) × (fat32_read_internal c junk fuel p h n
          at out
        ≡ some (1, moved p x, h', at + n, r))
      × Done c p h l n at out x h' r
unfolding get_cluster_data_disk_pos cluster_address
read_internal_lem c junk fuel p h [] n at out s some_bytes fuelled =
    absurd (omega (arith, s.enough, some_bytes))
read_internal_lem c junk zero p h (a ∷ l) n at out s some_bytes fuelled =
    absurd (omega (arith, fuelled))
read_internal_lem c junk (suc fuel) p h (a ∷ l) n at out s some_bytes fuelled =
    elim (Bool-cases (ltb (h.position_in_cluster + n) p.cluster_size_bytes)) [
      | inl inside ↦
          read_inside c junk fuel p h a l n at out s
            (is_below (h.position_in_cluster + n) p.cluster_size_bytes inside)
      | inr across ↦
          let k : ℕ = p.cluster_size_bytes - h.position_in_cluster in
          let ends : h.position_in_cluster + k ≡ p.cluster_size_bytes = omega (arith, s.inside) in
          let le : k ≤ n =
            omega (arith, is_above (h.position_in_cluster + n) p.cluster_size_bytes across) in
          let (x, r, step, bytes) = across_step c junk fuel p h a l n at out k s le ends in
          elim (Bool-cases (n - k == 0)) [
            | inl last ↦
                let all : n ≡ k = gone n k last le in
                (
                  x,
                  at_next h k l,
                  r,
                  step ∙ rw (last, all) refl,
                  subst (λ m. Done c p h (a ∷ l) m at out x (at_next h k l) r) (sym all)
                      (last_Done c p h a l k at x out r ends bytes),
                )
            | inr more ↦
                let s' = across_Stands c p h a l k n (n - k) x s (omega (arith, le)) ends in
                let (x', h', r', read, d) =
                  read_internal_lem c junk fuel (moved p x) (at_next h k l) l (n - k) (at + k) r s'
                    (omega (arith, some_left n k more)) (omega (arith, fuelled)) in
                let in_file : (h.file_pos + k == h.file_size) ≡ false =
                  not_at_end h n k s.in_file (some_left n k more) in
                let real : (first l == 0) ≡ false =
                  first_real c p l (n - k) s.chain.5 s'.enough
                    (omega (arith, some_left n k more)) in
                let place : at + k + (n - k) ≡ at + n = omega (arith, le) in
                (
                  x',
                  h',
                  r',
                  step
                      ∙ rw (more, in_file, real)
                          (read ∙ ap (λ (i : ℕ). some (1, moved p x', h', i, r')) place),
                  across_Done c p h a l k n at x x' h' out r r' le ends bytes d,
                )
          ]
    ]

Stands-le :
    (c : Controller) (p : FatPrivate) (h : FatPrivateFileHandle) (l : List ℕ) (n m : ℕ)
    → m ≤ n
    → Stands c p h l n
    → Stands c p h l m
Stands-le c p h l n m le s = record {
  disk = s.disk;
  chain = s.chain;
  current = s.current;
  inside = s.inside;
  enough = omega (arith, s.enough, le);
  in_file = omega (arith, s.in_file, le);
  word = s.word;
}

-- A read, and one that goes on behind it.
ReadsChain-append :
    (c : Controller) (p : FatPrivate) (l rest : List ℕ) (q q' at n m : ℕ) (out mid r : Array)
    → ((o : ℕ) → chain_byte c p rest (q' + o) ≡ chain_byte c p l (q + n + o))
    → ReadsChain c p l q at n out mid
    → ReadsChain c p rest q' (at + n) m mid r
    → ReadsChain c p l q at (n + m) out r
ReadsChain-append c p l rest q q' at n m out mid r behind first_part second j =
    elim (Bool-cases (leb (at + n) j)) [
      | inl later ↦
          let place : q + n + (j - (at + n)) ≡ q + (j - at) = ground (arith, later) in
          let same = behind (j - (at + n)) ∙ ap (chain_byte c p l) place in
          ground (arith, first_part j, second j, later, same)
      | inr earlier ↦ ground (arith, first_part j, second j, earlier)
    ]

read_loop_lem :
    (c : Controller) (junk : Array) (fuel : ℕ) (p : FatPrivate) (h : FatPrivateFileHandle)
    (l : List ℕ) (size k readed at : ℕ) (out : Array)
    → Stands c p h l (k * size)
    → 0 < size
    → length l ≤ fuel
    → (p' : FatPrivate) × (h' : FatPrivateFileHandle) × (r : Array) × (read_loop c junk fuel p h
          size k readed at out
        ≡ some (readed + k, p', h', r))
      × ReadsChain c p l h.position_in_cluster at (k * size) out r
      × (h'.file_pos ≡ h.file_pos + k * size)
unfolding read_loop get_cluster_data_disk_pos
read_loop_lem c junk fuel p h l size zero readed at out s some_bytes fuelled =
    let none_read : readed + 0 ≡ readed = omega arith in
    let no_bytes : 0 * size ≡ 0 = grind arith in
    (p, h, out, ground (arith, none_read), λ j. ground (arith, no_bytes), omega (arith, no_bytes))
read_loop_lem c junk fuel p h l size (suc k) readed at out s some_bytes fuelled =
    let all : suc k * size ≡ size + k * size = grind arith in
    let s1 = subst (Stands c p h l) all s in
    let (x, h1, r1, read, d) =
      read_internal_lem c junk fuel p h l size at out
        (Stands-le c p h l (size + k * size) size (omega arith) s1) some_bytes fuelled in
    let (p', h', r, went, bytes, pos) =
      read_loop_lem c junk fuel (moved p x) h1 d.rest size k (readed + 1) (at + size) r1
        (d.goes_on (k * size) s1) some_bytes (omega (arith, d.shorter, fuelled)) in
    let count : readed + 1 + k ≡ readed + suc k = omega arith in
    (
      p',
      h',
      r,
      rw (read_loop, read) (went ∙ ap (λ (i : ℕ). some (i, p', h', r)) count),
      subst (λ n. ReadsChain c p l h.position_in_cluster at n out r) (sym all)
          (ReadsChain-append c p l d.rest h.position_in_cluster h1.position_in_cluster at size
            (k * size) out r1 r d.behind d.bytes bytes),
      omega (arith, pos, d.read_pos, all),
    )

-- On a handle that stands in a chain of clusters, with `nmemb` items of `size` bytes, more than
-- none, left in the file and in the chain, and fuel for every cluster: a read returns `nmemb`, the
-- position in the file moves on by as many bytes, the buffer begins with the bytes of the chain
-- from the handle's offset on, across its clusters, and no other byte of the buffer changes.
pub fat32_read_lem :
    (c : Controller) (junk : Array) (fuel : ℕ) (p : FatPrivate) (h : FatPrivateFileHandle)
    (l : List ℕ) (size nmemb : ℕ) (out : Array)
    → Stands c p h l (nmemb * size)
    → 0 < size
    → length l ≤ fuel
    → (p' : FatPrivate) × (h' : FatPrivateFileHandle) × (r : Array) × (fat32_read c junk fuel p h
          size nmemb out
        ≡ some (nmemb, p', h', r))
      × ((j : ℕ)
          → r j ≡ (
              if ltb j (nmemb * size) then chain_byte c p l (h.position_in_cluster + j) else out j))
      × (h'.file_pos ≡ h.file_pos + nmemb * size)
unfolding fat32_read
fat32_read_lem c junk fuel p h l size nmemb out s some_bytes fuelled =
    let (p', h', r, read, bytes, pos) =
      read_loop_lem c junk fuel p h l size nmemb 0 0 out s some_bytes fuelled in
    let count : 0 + nmemb ≡ nmemb = omega arith in
    (p', h', r, read ∙ ap (λ (i : ℕ). some (i, p', h', r)) count, λ j. ground (arith, bytes j), pos)
