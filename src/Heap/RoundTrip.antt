-- ===== src/Heap/RoundTrip.antt =====
-- heap_malloc and heap_free of src/memory/heap/heap.c, whole: what an allocation gives, and that
-- freeing it undoes it.
use udemy_kernel.Prelude.{
  sym, ap, ◌∙◌, ℕ, ◌+◌, ◌-◌, ◌*◌, ◌/◌, ◌^◌, ◌≤◌, ◌<◌, ◌≡◌, refl, pos, arith, sub32,
}
use udemy_kernel.Heap.{
  heap_malloc_block, heap_free, ok, heap_get_start_block, Heap, heap_align_value_to_upper,
  heap_malloc_block, heap_malloc, block_size, heap_mark_blocks_taken, heap_block_to_address,
  heap_address_to_block,
}
use udemy_kernel.Heap.FirstFit.{start_block_full, IsFree, FreeRun, start_block_first_fit}
use udemy_kernel.Heap.Mark.{mark_free_lem, alloc_chain, allocated, mark_taken_lem}

-- The number of blocks that `heap_malloc` takes for `size` bytes.
abbrev pub blocks : ℕ → ℕ
blocks size = heap_align_value_to_upper size / block_size

blocks_bounds :
    (size : ℕ)
    → 0 < size
    → size ≤ 2 ^ 32 - 4096
    → (0 < blocks size) × (size ≤ blocks size * 4096) × (blocks size * 4096 < size + 4096)
unfolding heap_align_value_to_upper
blocks_bounds size p q = ground arith

-- The blocks lie in the 32-bit address space, and their number times 4096 is no negative `int`.
pub record InMemory (h : Heap) : Type 0 where
  pub addressable : h.saddr + h.table.total * 4096 ≤ 2 ^ 32
  pub countable : h.table.total ≤ 2 ^ 19

address-block :
    (h : Heap) (b : ℕ)
    → InMemory h
    → b < h.table.total
    → heap_block_to_address h b ≡ h.saddr + b * 4096
unfolding heap_block_to_address
address-block h b mem lt = omega arith

pub block-address :
    (h : Heap) (b : ℕ)
    → InMemory h
    → b < h.table.total
    → heap_address_to_block h (h.saddr + b * 4096) ≡ pos b
unfolding heap_address_to_block
block-address h b mem lt =
    let distance : sub32 (h.saddr + b * 4096) h.saddr ≡ b * 4096 = omega arith in
    rw distance (ground arith)

malloc_found :
    (h : Heap) (size b : ℕ)
    → heap_get_start_block h (blocks size) ≡ ok b
    → heap_malloc h size ≡ (heap_block_to_address h b, heap_mark_blocks_taken h b (blocks size))
unfolding heap_malloc heap_malloc_block
malloc_found h size b found = rw (found, heap_malloc_block)

-- What the caller of an allocation of `size` bytes gets.
pub record Allocated (h : Heap) (size s : ℕ) : Type 0 where
  pub block : ℕ
  pub address : (heap_malloc h size).0 ≡ h.saddr + block * 4096
  pub first : block ≤ s
  pub within : block + blocks size ≤ h.table.total
  pub was_free : FreeRun h.table.entries block (blocks size)
  pub marked :
      (j : ℕ)
      → (heap_malloc h size).1.table.entries j ≡ allocated h.table.entries block (blocks size) j
  pub same_below : (heap_malloc h size).1.table.below ≡ h.table.below
  pub same_total : (heap_malloc h size).1.table.total ≡ h.table.total
  pub same_saddr : (heap_malloc h size).1.saddr ≡ h.saddr

pub malloc_Allocated :
    (h : Heap) (size s : ℕ)
    → InMemory h
    → 0 < blocks size
    → s + blocks size ≤ h.table.total
    → FreeRun h.table.entries s (blocks size)
    → Allocated h size s
unfolding heap_mark_blocks_taken
malloc_Allocated h size s mem some_blocks fits wanted =
    let (b, found, before, within, free) =
      start_block_first_fit h (blocks size) s some_blocks fits wanted in
    let result = malloc_found h size b found in
    record {
      block = b;
      address = rw result (address-block h b mem (omega arith));
      first = before;
      within = within;
      was_free = free;
      marked = λ j. rw result (mark_taken_lem h b (blocks size) j some_blocks);
      same_below = rw result refl;
      same_total = rw result refl;
      same_saddr = rw result refl;
    }

-- An entry that the search takes for free is 0, as the allocator writes it.
abbrev pub IsClean : Heap → Type 0
IsClean h = (j : ℕ) → j < h.table.total → IsFree h.table.entries j → h.table.entries j ≡ 0

module _ (h : Heap) (size s : ℕ) (mem : InMemory h) where
  address-Allocated :
      (a : Allocated h size s)
      → 0 < blocks size
      → heap_address_to_block (heap_malloc h size).1 (heap_malloc h size).0 ≡ pos a.block
  address-Allocated a some_blocks =
      let g : Heap = (heap_malloc h size).1 in
      let here : (heap_malloc h size).0 ≡ g.saddr + a.block * 4096 =
        a.address ∙ ap (λ (t : ℕ). t + a.block * 4096) (sym a.same_saddr) in
      let mem_g : InMemory g = record {
        addressable = omega (arith, a.same_saddr, a.same_total, mem.addressable);
        countable = omega (arith, a.same_total, mem.countable);
      } in
      ap (heap_address_to_block g) here
      ∙ block-address g a.block mem_g (omega (arith, a.same_total, a.within))

  -- In a heap of at most 2^19 blocks below 2^32, for 1 to 2^32 - 4096 bytes, where enough
  -- consecutive blocks from `s` on are free, the allocation succeeds: it takes the first run of
  -- free blocks that is long enough, that run covers the size and lies in the table, the address
  -- is that of its first block, and exactly the entries of the run are written.
  pub malloc_lem :
      0 < size
      → size ≤ 2 ^ 32 - 4096
      → s + blocks size ≤ h.table.total
      → FreeRun h.table.entries s (blocks size)
      → Allocated h size s × (size ≤ blocks size * 4096)
  malloc_lem p q fits wanted =
      let (some_blocks, covers, _) = blocks_bounds size p q in
      (malloc_Allocated h size s mem some_blocks fits wanted, covers)

  -- In a heap of at most 2^19 blocks below 2^32, whose free entries are 0, and for 1 to 2^32 -
  -- 4096 bytes, where enough consecutive blocks from `s` on are free: freeing the address that
  -- the allocation returned gives back every entry of the table as it was before.
  pub free-malloc :
      0 < size
      → size ≤ 2 ^ 32 - 4096
      → s + blocks size ≤ h.table.total
      → FreeRun h.table.entries s (blocks size)
      → IsClean h
      → (j : ℕ)
      → (heap_free (heap_malloc h size).1 (heap_malloc h size).0).table.entries j
        ≡ h.table.entries j
  unfolding heap_free
  free-malloc p q fits wanted clean j =
      let (a, _) = malloc_lem p q fits wanted in
      let (some_blocks, _, _) = blocks_bounds size p q in
      let b = a.block in
      let n = blocks size in
      let g : Heap = (heap_malloc h size).1 in
      let last_in : b + n - 1 < g.table.total = omega (arith, a.same_total, a.within) in
      let chain = alloc_chain h.table.entries g.table.entries b n some_blocks a.marked in
      rw
        (
          address-Allocated a some_blocks,
          mark_free_lem g b (b + n - 1) j (omega arith) last_in chain,
        )
        (ground (arith, a.marked j, a.was_free j, clean j, a.within))

-- Where every block is taken, an allocation of any size returns NULL and changes nothing.
pub malloc_full :
    (h : Heap) (size : ℕ)
    → ((j : ℕ) → j < h.table.total → ¬ IsFree h.table.entries j)
    → heap_malloc h size ≡ (0, h)
unfolding heap_malloc heap_malloc_block
malloc_full h size full = rw (start_block_full h (blocks size) full, heap_malloc_block)
