-- ===== src/Paging/Build/Round.antt =====
-- One round of the outer loop of paging_new_4gb of src/memory/paging/paging.c.
use udemy_kernel.Prelude.Bits.{bit_or_two, bit_and_page, bit_or_page}
use udemy_kernel.Prelude.{
  ℕ, zero, suc, ◌+◌, ◌*◌, ◌/◌, ◌%◌, ◌^◌, ◌<◌, ◌≤◌, ◌≡◌, ◌≢◌, ◌⊎◌, bit_or, Array, update, ◌==◌,
  arith, refl, Bool-cases, inl, inr, sym, ap, ◌∙◌,
}
use mathlib.Core.Path.{subst}
use udemy_kernel.PathParser.{Allocator}
use udemy_kernel.Paging.{entry_address, page_size, table_span}
use udemy_kernel.Paging.Build.{cleared, fill_table, writeable}

-- What the allocation of a block at `p` gives to one who owns blocks: a page that is not NULL, lies
-- below 2^32 and is none of those owned, and the ownership of it.
pub record NewPage (Owns : ℕ → Type 0) (Owns' : ℕ → Type 0) (p : ℕ) : Type 0 where
  pub aligned : p % 4096 ≡ 0
  pub real : p ≢ 0
  pub small : p < 2 ^ 32
  pub fresh : ¬ Owns p
  pub owned : Owns' p
  pub keeps : (q : ℕ) → Owns q → Owns' q

-- An allocator that gives blocks of up to 4096 bytes, each of a page, as long as there is room for
-- them.
pub record GivesPages (A : Allocator) : Type 1 where
  pub Owns : A.State → ℕ → Type 0
  pub Room : A.State → ℕ → Type 0
  pub gives :
      (n k : ℕ) (s : A.State)
      → 0 < n
      → n ≤ 4096
      → Room s (suc k)
      → NewPage (Owns s) (Owns (A.kzalloc n s).1) (A.kzalloc n s).0
  pub next : (n k : ℕ) (s : A.State) → 0 < n → n ≤ 4096 → Room s (suc k) → Room (A.kzalloc n s).1 k

-- Outside the page of the table nothing changes, and its `b`-th entries are those of the loop.
fill_frame :
    (k b offset flags entry : ℕ) (mem : Array) (a : ℕ)
    → (a < entry + 4 * b) ⊎ (entry + 4 * (b + k) ≤ a)
    → fill_table k b offset flags entry mem a ≡ mem a
unfolding fill_table
fill_frame zero b offset flags entry mem a out = refl
fill_frame (suc k) b offset flags entry mem a out =
    let next = update mem (entry + 4 * b) (bit_or ((offset + b * page_size) % 2 ^ 32) flags) in
    ground (arith, fill_frame k (b + 1) offset flags entry next a (ground (arith, out)))

fill_entry :
    (k b offset flags entry : ℕ) (mem : Array) (t : ℕ)
    → b ≤ t
    → t < b + k
    → fill_table k b offset flags entry mem (entry + 4 * t)
      ≡ bit_or ((offset + t * page_size) % 2 ^ 32) flags
unfolding fill_table
fill_entry zero b offset flags entry mem t lo hi = absurd (omega (arith, lo, hi))
fill_entry (suc k) b offset flags entry mem t lo hi =
    let next : Array =
      update mem (entry + 4 * b) (bit_or ((offset + b * page_size) % 2 ^ 32) flags) in
    elim (Bool-cases (t == b)) [
      | inl same ↦ ground (
        arith,
        same,
        fill_frame k (b + 1) offset flags entry next (entry + 4 * t) (inl (ground (arith, same))),
      )
      | inr later ↦
          fill_entry k (b + 1) offset flags entry next t (ground (arith, later)) (omega arith)
    ]

-- The `d`-th entry of the directory, and the address that it holds.
abbrev pub entry_word : (entry flags : ℕ) → ℕ
entry_word entry flags = bit_or (bit_or entry flags) writeable

address-entry_word :
    (entry flags : ℕ)
    → entry % 4096 ≡ 0
    → entry < 2 ^ 32
    → flags < 256
    → (entry_address (entry_word entry flags) ≡ entry) × (entry_word entry flags < 2 ^ 32)
unfolding entry_address
address-entry_word entry flags aligned small few =
    let whole : entry / 4096 * 4096 ≡ entry = omega (arith, aligned) in
    let added : bit_or entry flags ≡ entry + flags =
      rw (← whole) (bit_or_page (entry / 4096) flags (omega (arith, few))) in
    let word = bit_or_two (bit_or entry flags) in
    (
      omega (
        arith,
        added,
        word,
        aligned,
        bit_and_page (entry_word entry flags) (omega (arith, added, word, aligned)),
      ),
      omega (arith, added, word, aligned),
    )

-- The first `n` tables of the directory are built, in pages that are owned.
pub record Built (Owns : ℕ → Type 0) (mem : Array) (directory flags n : ℕ) : Type 0 where
  pub word : (d : ℕ) → d < n → mem (directory + 4 * d) < 2 ^ 32
  pub owns : (d : ℕ) → d < n → Owns (entry_address (mem (directory + 4 * d)))
  pub apart : (d : ℕ) → d < n → entry_address (mem (directory + 4 * d)) ≢ directory
  pub distinct :
      (d e : ℕ)
      → d < n
      → e < n
      → entry_address (mem (directory + 4 * d)) ≡ entry_address (mem (directory + 4 * e))
      → d ≡ e
  pub entry :
      (d t : ℕ)
      → d < n
      → t < 1024
      → mem (entry_address (mem (directory + 4 * d)) + 4 * t)
        ≡ bit_or ((d * table_span + t * page_size) % 2 ^ 32) flags

pub address_page : (x : ℕ) → x < 2 ^ 32 → entry_address x % 4096 ≡ 0
unfolding entry_address
address_page x small = omega (arith, bit_and_page x small)

module _ (Owns : ℕ → Type 0) (Owns' : ℕ → Type 0) (mem : Array) (directory flags n p : ℕ)
    (page : NewPage Owns Owns' p) (built : Built Owns mem directory flags n)
    (at : directory % 4096 ≡ 0) (ours : Owns directory) (few : flags < 256) (room : n < 1024) where
  -- The memory after one round of the outer loop.
  abbrev pub round : Array
  round =
      update (fill_table 1024 0 ((n * table_span) % 2 ^ 32) flags p (cleared mem p 4096))
        (directory + 4 * n) (entry_word p flags)

  apart_p : p ≢ directory
  apart_p same = page.fresh (subst Owns (sym same) ours)

  round_frame : (a : ℕ) → (a < p) ⊎ (p + 4096 ≤ a) → a ≢ directory + 4 * n → round a ≡ mem a
  round_frame a out other = ground (
    arith,
    out,
    other,
    fill_frame 1024 0 ((n * table_span) % 2 ^ 32) flags p (cleared mem p 4096) a
        (ground (arith, out)),
  )

  round_word : (d : ℕ) → d < n → round (directory + 4 * d) ≡ mem (directory + 4 * d)
  round_word d lt =
      round_frame (directory + 4 * d) (ground (arith, at, page.aligned, apart_p, room))
        (omega (arith, lt))

  round_last : entry_address (round (directory + 4 * n)) ≡ p
  round_last = ground (arith, (address-entry_word p flags page.aligned page.small few).0)

  old_apart : (d : ℕ) → d < n → entry_address (mem (directory + 4 * d)) ≢ p
  old_apart d lt same = page.fresh (subst Owns same (built.owns d lt))

  old_entry :
      (d t : ℕ)
      → d < n
      → t < 1024
      → round (entry_address (mem (directory + 4 * d)) + 4 * t)
        ≡ mem (entry_address (mem (directory + 4 * d)) + 4 * t)
  old_entry d t lt in_ =
      let aligned = address_page (mem (directory + 4 * d)) (built.word d lt) in
      round_frame (entry_address (mem (directory + 4 * d)) + 4 * t)
        (ground (arith, aligned, page.aligned, old_apart d lt, in_))
        (ground (arith, aligned, at, built.apart d lt, in_, room))

  new_entry :
      (t : ℕ)
      → t < 1024
      → round (p + 4 * t) ≡ bit_or ((n * table_span + t * page_size) % 2 ^ 32) flags
  new_entry t in_ =
      let wrapped : ((n * table_span) % 2 ^ 32 + t * page_size) % 2 ^ 32
          ≡ (n * table_span + t * page_size) % 2 ^ 32 =
        omega arith in
      let apart_entry : p + 4 * t ≢ directory + 4 * n =
        ground (arith, at, page.aligned, apart_p, in_, room) in
      ground (
        arith,
        apart_entry,
        wrapped,
        fill_entry 1024 0 ((n * table_span) % 2 ^ 32) flags p (cleared mem p 4096) t (omega arith)
            in_,
      )

  round_table :
      (d : ℕ)
      → d < suc n
      → ((d ≡ n) × (entry_address (round (directory + 4 * d)) ≡ p))
        ⊎ ((d < n)
            × (entry_address (round (directory + 4 * d)) ≡ entry_address (mem (directory + 4 * d))))
  round_table d lt = elim (Bool-cases (d == n)) [
    | inl last ↦ let is_n : d ≡ n = ground (arith, last) in inl (is_n, rw is_n round_last)
    | inr old ↦
        let before : d < n = ground (arith, old) in
        inr (before, ap entry_address (round_word d before))
  ]

  round_distinct :
      (d e : ℕ)
      → d < suc n
      → e < suc n
      → entry_address (round (directory + 4 * d)) ≡ entry_address (round (directory + 4 * e))
      → d ≡ e
  round_distinct d e p_ q_ same = elim (round_table d p_) [
    | inl (x, first) ↦ elim (round_table e q_) [
      | inl (y, second) ↦ x ∙ sym y
      | inr (y, second) ↦ absurd (old_apart e y (sym second ∙ sym same ∙ first))
    ]
    | inr (x, first) ↦ elim (round_table e q_) [
      | inl (y, second) ↦ absurd (old_apart d x (sym first ∙ same ∙ second))
      | inr (y, second) ↦ built.distinct d e x y (sym first ∙ same ∙ second)
    ]
  ]

  pub round-Built : Built Owns' round directory flags (suc n)
  round-Built = record {
    word = λ d lt. elim (Bool-cases (d == n)) [
      | inl last ↦ ground (arith, last, (address-entry_word p flags page.aligned page.small few).1)
      | inr old ↦ rw (round_word d (ground (arith, old))) (built.word d (ground (arith, old)))
    ];
    owns = λ d lt. elim (Bool-cases (d == n)) [
      | inl last ↦ let is_n : d ≡ n = ground (arith, last) in rw (is_n, round_last) page.owned
      | inr old ↦ rw (round_word d (ground (arith, old))) (
          page.keeps (entry_address (mem (directory + 4 * d))) (built.owns d (ground (arith, old))))
    ];
    apart = λ d lt. elim (Bool-cases (d == n)) [
      | inl last ↦ let is_n : d ≡ n = ground (arith, last) in rw (is_n, round_last) apart_p
      | inr old ↦ rw (round_word d (ground (arith, old))) (built.apart d (ground (arith, old)))
    ];
    distinct = round_distinct;
    entry = λ d t lt in_. elim (Bool-cases (d == n)) [
      | inl last ↦
          let is_n : d ≡ n = ground (arith, last) in rw (is_n, round_last) (new_entry t in_)
      | inr old ↦
          rw (round_word d (ground (arith, old)), old_entry d t (ground (arith, old)) in_)
            (built.entry d t (ground (arith, old)) in_)
    ];
  }
