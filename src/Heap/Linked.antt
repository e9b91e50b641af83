-- ===== src/Heap/Linked.antt =====
-- The consistency of the table of src/memory/heap/heap.c: its entries are those of whole
-- allocations and of free blocks.
use udemy_kernel.Heap.RoundTrip.{InMemory, block-address, blocks, malloc_Allocated}
use udemy_kernel.Prelude.{
  suc, zero, ◌-◌, ◌*◌, inl, inr, true, false, not, ap, ◌∙◌, bit_and, Bool-cases, ℕ, ◌+◌, ◌≤◌, ◌<◌,
  ◌≡◌, Bool, true, false, ◌||◌, arith, ◌==◌, Array,
}
use udemy_kernel.Heap.{
  Heap, heap_malloc, heap_free, has_next, not, has_next, bit_and, Heap, heap_free,
  heap_get_entry_type,
}
use udemy_kernel.Heap.FirstFit.{FreeRun, IsFree}
use udemy_kernel.Heap.Mark.{mark_free_lem, ChainTo, freed, ChainTo, freed, allocated}

-- The entry says that its allocation goes on with the next block.
unfoldable pub goes_on : ℕ → Bool
goes_on x = x == 0x81 || x == 0xC1

-- The entry belongs to an allocation that began before it.
unfoldable pub continues : ℕ → Bool
continues x = x == 0x01 || x == 0x81

unfoldable pub is_start : ℕ → Bool
is_start x = x == 0x41 || x == 0xC1

-- Every entry is free or one of the four kinds of taken ones; a block continues an allocation
-- exactly if the block before it goes on; the first block does not continue one, and the last
-- does not go on.
pub record IsLinked (e : Array) (total : ℕ) : Type 0 where
  pub code : (i : ℕ) → i < total → (e i == 0 || is_start (e i) || continues (e i)) ≡ true
  pub link : (i : ℕ) → i + 1 < total → continues (e (i + 1)) ≡ goes_on (e i)
  pub head : 0 < total → continues (e 0) ≡ false
  pub last : (i : ℕ) → i + 1 ≡ total → goes_on (e i) ≡ false

-- In such a table an entry that the search takes for free is 0.
eq_zero_of_free :
    {e : Array} {total : ℕ} → IsLinked e total → (i : ℕ) → i < total → IsFree e i → e i ≡ 0
unfolding is_start continues heap_get_entry_type
eq_zero_of_free {e} linked i lt free = ground (arith, linked.code i lt)

module _ {e f : Array} {total : ℕ} (b n : ℕ) (linked : IsLinked e total) (fits : b + n ≤ total)
    (some_blocks : 0 < n) (free : (j : ℕ) → b ≤ j → j < b + n → e j ≡ 0)
    (marked : (j : ℕ) → f j ≡ allocated e b n j) where
  allocated-IsLinked : IsLinked f total
  unfolding is_start continues goes_on
  allocated-IsLinked = record {
    code = λ i lt. ground (arith, linked.code i lt, marked i, free i);
    link = λ i lt. ground (arith, linked.link i lt, marked i, marked (i + 1), free i, free (i + 1));
    head = λ lt. ground (arith, linked.head lt, marked 0, free 0);
    last = λ i at. ground (arith, linked.last i at, marked i, free i);
  }

-- The allocation that goes on from block `i` ends at block `last`.
record Ends (e : Array) (total i : ℕ) : Type 0 where
  last : ℕ
  from : i ≤ last
  within : last < total
  chain : ChainTo e i last
  inner : (j : ℕ) → i < j → j ≤ last → continues (e j) ≡ true
  stops : goes_on (e last) ≡ false

module _ {e : Array} {total : ℕ} (linked : IsLinked e total) where
  next_bit : (i : ℕ) → i < total → (bit_and (e i) has_next == 0) ≡ not (goes_on (e i))
  unfolding is_start continues goes_on
  next_bit i lt = ground (arith, linked.code i lt)

  find_end : (k i : ℕ) → i + k ≡ total → 0 < k → Ends e total i
  find_end zero i left some_left = absurd (omega arith)
  find_end (suc k) i left some_left = elim (Bool-cases (goes_on (e i))) [
    | inr stop ↦ record {
      last = i;
      from = omega arith;
      within = omega arith;
      chain = (λ j lo hi. absurd (omega arith), next_bit i (omega arith) ∙ ap not stop);
      inner = λ j lo hi. absurd (omega arith);
      stops = stop;
    }
    | inl more ↦
        let more_left : 0 < k = ground (arith, linked.last i) in
        let rest = find_end k (i + 1) (omega arith) more_left in
        record {
          last = rest.last;
          from = omega (arith, rest.from);
          within = rest.within;
          chain =
              (λ j lo hi. ground (arith, next_bit i (omega arith), rest.chain.0 j), rest.chain.1);
          inner = λ j lo hi. elim (Bool-cases (j == i + 1)) [
            | inl same ↦ ground (arith, linked.link i (omega arith))
            | inr other ↦ rest.inner j (ground arith) hi
          ];
          stops = rest.stops;
        }
  ]

  freed-IsLinked :
      {f : Array} (i : ℕ) (end : Ends e total i)
      → continues (e i) ≡ false
      → ((j : ℕ) → f j ≡ freed e i end.last j)
      → IsLinked f total
  unfolding is_start continues goes_on
  freed-IsLinked i end start is = record {
    code = λ j lt. ground (arith, linked.code j lt, is j);
    link = λ j lt. ground (arith, linked.link j lt, is j, is (j + 1), end.stops);
    head = λ lt. ground (arith, linked.head lt, is 0);
    last = λ j at. ground (arith, linked.last j at, is j);
  }

-- Where a free run is long enough, an allocation keeps the table consistent.
pub malloc-IsLinked :
    (h : Heap) (size s : ℕ)
    → InMemory h
    → 0 < blocks size
    → s + blocks size ≤ h.table.total
    → FreeRun h.table.entries s (blocks size)
    → IsLinked h.table.entries h.table.total
    → IsLinked (heap_malloc h size).1.table.entries h.table.total
malloc-IsLinked h size s mem some_blocks fits wanted linked =
    let a = malloc_Allocated h size s mem some_blocks fits wanted in
    allocated-IsLinked a.block (blocks size) linked a.within some_blocks
      (λ j lo hi. eq_zero_of_free linked j (omega (arith, a.within)) (a.was_free j lo hi)) a.marked

-- Freeing the address of a block that no allocation continues into keeps the table consistent.
pub free-IsLinked :
    (h : Heap) (b : ℕ)
    → InMemory h
    → b < h.table.total
    → continues (h.table.entries b) ≡ false
    → IsLinked h.table.entries h.table.total
    → IsLinked (heap_free h (h.saddr + b * 4096)).table.entries h.table.total
unfolding heap_free
free-IsLinked h b mem lt start linked =
    let end = find_end linked (h.table.total - b) b (omega arith) (omega arith) in
    rw (block-address h b mem lt) (
      freed-IsLinked linked b end start
        λ j. mark_free_lem h b end.last j end.from end.within end.chain)
