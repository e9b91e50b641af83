-- ===== src/Paging/Build/Identity.antt =====
-- The directory that paging_new_4gb of src/memory/paging/paging.c builds maps every page to itself.
use udemy_kernel.Prelude.Bits.{bit_and_page, bit_or_page}
use udemy_kernel.Prelude.{
  ℕ, zero, suc, ◌+◌, ◌*◌, ◌/◌, ◌%◌, ◌^◌, ◌<◌, ◌≤◌, ◌≡◌, ◌≢◌, ◌⊎◌, bit_or, true, false, Array,
  update, ◌==◌, arith, refl, sym, ap, ◌∙◌,
}
use mathlib.Core.Path.{subst}
use udemy_kernel.PathParser.{Allocator}
use udemy_kernel.Paging.{entry_address, page_size, table_span, paging_get}
use udemy_kernel.Paging.Entries.{IsDirectory, IsPage}
use udemy_kernel.Paging.Build.{
  kzalloc_words, new_tables, paging_new_4gb, paging_new_4gb_validate, table_valid,
}
use udemy_kernel.Paging.Build.Round.{NewPage, GivesPages, Built, address_page, round, round-Built}

module _ (A : Allocator) (g : GivesPages A) where
  open g use {Owns, Room, gives, next}

  tables_step :
      (k n directory flags : ℕ) (s : A.State) (mem : Array)
      (page : NewPage (Owns s) (Owns (A.kzalloc 4096 s).1) (A.kzalloc 4096 s).0)
      (built : Built (Owns s) mem directory flags n) (at : directory % 4096 ≡ 0)
      (ours : Owns s directory) (few : flags < 256) (room : n < 1024)
      → new_tables A (suc k) n ((n * table_span) % 2 ^ 32) directory flags s mem
        ≡ new_tables A k
            (suc n)
            ((suc n * table_span) % 2 ^ 32)
            directory
            flags
            (A.kzalloc 4096 s).1
            (round
              (Owns s)
              (Owns (A.kzalloc 4096 s).1)
              mem
              directory
              flags
              n
              (A.kzalloc 4096 s).0
              page
              built
              at
              ours
              few
              room)
  unfolding new_tables
  tables_step k n directory flags s mem page built at ours few room =
      let real : ((A.kzalloc 4096 s).0 == 0) ≡ false = ground (arith, page.real) in
      let offset : ((n * table_span) % 2 ^ 32 + table_span) % 2 ^ 32
          ≡ (suc n * table_span) % 2 ^ 32 =
        omega arith in
      let one : n + 1 ≡ suc n = omega arith in rw (real, offset, one) refl

  -- The state after the loop, with room for `m` more allocations.
  record Done (directory flags n m : ℕ) (r : A.State × Array) : Type 0 where
    built : Built (Owns r.0) r.1 directory flags n
    ours : Owns r.0 directory
    left : Room r.0 m

  tables_lem :
      (k n m directory flags : ℕ) (s : A.State) (mem : Array)
      → Built (Owns s) mem directory flags n
      → directory % 4096 ≡ 0
      → Owns s directory
      → flags < 256
      → n + k ≡ 1024
      → Room s (k + m)
      → Done directory flags 1024 m
          (new_tables A k n ((n * table_span) % 2 ^ 32) directory flags s mem)
  unfolding new_tables
  tables_lem zero n m directory flags s mem built at ours few sum room =
      let all : n ≡ 1024 = omega (arith, sum) in
      record {
        built = subst (Built (Owns s) mem directory flags) all built;
        ours = ours;
        left = subst (Room s) (omega arith) room;
      }
  tables_lem (suc k) n m directory flags s mem built at ours few sum room =
      let more : suc k + m ≡ suc (k + m) = omega arith in
      let one = subst (Room s) more room in
      let page = gives 4096 (k + m) s (omega arith) (omega arith) one in
      let in_ : n < 1024 = omega (arith, sum) in
      rw (tables_step k n directory flags s mem page built at ours few in_) (
        tables_lem k (suc n) m directory flags (A.kzalloc 4096 s).1
          (round (Owns s) (Owns (A.kzalloc 4096 s).1) mem directory flags n (A.kzalloc 4096 s).0
            page built at ours few in_)
          (round-Built (Owns s) (Owns (A.kzalloc 4096 s).1) mem directory flags n
            (A.kzalloc 4096 s).0 page built at ours few in_)
          at (page.keeps directory ours) few (omega (arith, sum))
          (next 4096 (k + m) s (omega arith) (omega arith) one))

module _ (Owns : ℕ → Type 0) (mem mem' : Array) (directory flags chunk : ℕ)
    (built : Built Owns mem directory flags 1024) (at : directory % 4096 ≡ 0)
    (ours : Owns directory) (aligned : chunk % 4096 ≡ 0) (fresh : ¬ Owns chunk)
    (same : (a : ℕ) → (a < chunk) ⊎ (chunk + 4096 ≤ a) → mem' a ≡ mem a) where
  away : (p b : ℕ) → p % 4096 ≡ 0 → Owns p → b < 1024 → mem' (p + 4 * b) ≡ mem (p + 4 * b)
  away p b page own in_ =
      let other : p ≢ chunk = (λ is. fresh (subst Owns is own)) in
      same (p + 4 * b) (ground (arith, other, aligned, page, in_))

  kept : (d : ℕ) → d < 1024 → mem' (directory + 4 * d) ≡ mem (directory + 4 * d)
  kept d in_ = away directory d at ours in_

  -- A chunk in a page of its own leaves what is built.
  frame-Built : Built Owns mem' directory flags 1024
  frame-Built = record {
    word = λ d lt. rw (kept d lt) (built.word d lt);
    owns = λ d lt. rw (kept d lt) (built.owns d lt);
    apart = λ d lt. rw (kept d lt) (built.apart d lt);
    distinct = λ d e p q. rw (kept d p, kept e q) (built.distinct d e p q);
    entry = λ d t lt in_. rw (kept d lt) (
        away (entry_address (mem (directory + 4 * d))) t
          (address_page (mem (directory + 4 * d)) (built.word d lt)) (built.owns d lt) in_
        ∙ built.entry d t lt in_);
  }

module _ (Owns : ℕ → Type 0) (mem : Array) (directory flags : ℕ)
    (built : Built Owns mem directory flags 1024) (few : flags < 256) where
  Built-IsDirectory : directory % 4096 ≡ 0 → IsDirectory mem directory
  Built-IsDirectory at = record {
    page = at;
    words = built.word;
    apart = built.apart;
    distinct = built.distinct;
  }

  Built-get : (v : ℕ) → IsPage v → paging_get mem directory v ≡ v + flags
  unfolding paging_get
  Built-get v on =
      let d : ℕ = v / 4194304 in
      let t : ℕ = v % 4194304 / 4096 in
      let address : (d * table_span + t * page_size) % 2 ^ 32 ≡ v / 4096 * 4096 =
        omega (arith, on.aligned, on.small) in
      let whole : v / 4096 * 4096 ≡ v = omega (arith, on.aligned) in
      ground (
        arith,
        on.aligned,
        built.entry d t (omega (arith, on.small)) (omega arith),
        address,
        bit_or_page (v / 4096) flags (omega (arith, few)),
        whole,
      )

  entry_value :
      (d t : ℕ)
      → d < 1024
      → t < 1024
      → entry_address (mem (entry_address (mem (directory + 4 * d)) + 4 * t))
        ≡ d * table_span + t * page_size
  unfolding entry_address
  entry_value d t p q =
      let x : ℕ = (d * table_span + t * page_size) % 2 ^ 32 in
      let whole : x / 4096 * 4096 ≡ x = omega arith in
      let sum : bit_or x flags ≡ x + flags =
        rw (← whole) (bit_or_page (x / 4096) flags (omega (arith, few))) in
      let word = built.entry d t p q in
      rw word (omega (arith, sum, few, bit_and_page (bit_or x flags) (omega (arith, sum, few))))

  Built-table_valid : (d : ℕ) → d < 1024 → table_valid mem directory d ≡ true
  unfolding table_valid
  Built-table_valid d p =
      let table : ℕ = entry_address (mem (directory + 4 * d)) in
      let first : entry_address (mem table) ≡ d * table_span =
        let start : table + 4 * 0 ≡ table = omega arith in
        ap (λ a. entry_address (mem a)) (sym start)
        ∙ entry_value d 0 p (omega arith)
        ∙ omega arith in
      ground (arith, first, entry_value d 1 p (omega arith), entry_value d 1023 p (omega arith))

-- What a new chunk is like: its directory is one, it maps every page to itself with the flags, and
-- the check prints no message.
pub record IsIdentity (mem : Array) (chunk flags : ℕ) : Type 0 where
  pub directory : IsDirectory mem (mem chunk)
  pub maps : (v : ℕ) → IsPage v → paging_get mem (mem chunk) v ≡ v + flags
  pub valid : paging_new_4gb_validate mem (mem chunk) ≡ true

-- Where the allocator has room for 1026 pages, and the flags are below 256, paging_new_4gb gives a
-- chunk whose directory has 1024 tables of their own, maps every page of the 32-bit address space
-- to itself with the flags, and passes paging_new_4gb_validate.
pub new_4gb-IsIdentity :
    (A : Allocator) (g : GivesPages A) (flags : ℕ) (s : A.State) (mem : Array)
    → GivesPages.Room g s 1026
    → flags < 256
    → IsIdentity (paging_new_4gb A flags s mem).2 (paging_new_4gb A flags s mem).0 flags
unfolding paging_new_4gb paging_new_4gb_validate
new_4gb-IsIdentity A g flags s mem room few =
    let directory : ℕ = (A.kzalloc 4096 s).0 in
    let s1 : A.State = (A.kzalloc 4096 s).1 in
    let page = g.gives 4096 1025 s (omega arith) (omega arith) room in
    let mem1 : Array = (kzalloc_words A 4096 s mem).2 in
    let none_yet : Built (g.Owns s1) mem1 directory flags 0 = record {
      word = λ d lt. absurd (omega (arith, lt));
      owns = λ d lt. absurd (omega (arith, lt));
      apart = λ d lt. absurd (omega (arith, lt));
      distinct = λ d e p q same. absurd (omega (arith, p));
      entry = λ d t p q. absurd (omega (arith, p));
    } in
    let done =
      tables_lem A g 1024 0 1 directory flags s1 mem1 none_yet page.aligned page.owned few refl
        (g.next 4096 1025 s (omega arith) (omega arith) room) in
    let s2 : A.State = (new_tables A 1024 0 0 directory flags s1 mem1).0 in
    let mem2 : Array = (new_tables A 1024 0 0 directory flags s1 mem1).1 in
    let last = g.gives 4 0 s2 (omega arith) (omega arith) done.left in
    let chunk : ℕ = (A.kzalloc 4 s2).0 in
    let mem3 : Array = update (kzalloc_words A 4 s2 mem2).2 chunk directory in
    let at : mem3 chunk ≡ directory = ground arith in
    let built =
      frame-Built (g.Owns s2) mem2 mem3 directory flags chunk done.built page.aligned done.ours
        last.aligned last.fresh (λ a out. ground (arith, out, last.real)) in
    let valid = Built-table_valid (g.Owns s2) mem3 directory flags built few in
    record {
      directory = rw at (Built-IsDirectory (g.Owns s2) mem3 directory flags built few page.aligned);
      maps = λ v on. rw at (Built-get (g.Owns s2) mem3 directory flags built few v on);
      valid = rw (at, valid 0 (omega arith), valid 1 (omega arith), valid 1023 (omega arith)) refl;
    }
