-- ===== src/Heap/Mark.antt =====
-- The entries that heap_mark_blocks_taken and heap_mark_blocks_free of src/memory/heap/heap.c
-- write.
use udemy_kernel.Prelude.{
  refl, ℕ, zero, suc, ◌+◌, ◌-◌, ◌≤◌, ◌<◌, ◌≡◌, inl, inr, true, false, Array, update, pos, arith,
  bit_and, ◌==◌, leb, ltb, ◌&&◌, Bool-cases, if◌then◌else◌,
}
use udemy_kernel.Heap.{
  heap_mark_blocks_free, Heap, HeapTable, has_next, mark_taken_loop, heap_mark_blocks_taken,
  mark_free_loop, set_entry, get_entry,
}

-- The entry of block `i` behind the first of an allocation that ends with block `last`: TAKEN,
-- with HAS_NEXT on all but the last block.
abbrev inner_entry : (last i : ℕ) → ℕ
inner_entry last i = if i == last then 0x01 else 0x81

taken_loop_lem :
    (last k i : ℕ) (e : Array) (j : ℕ)
    → i + k ≡ last + 1
    → mark_taken_loop last k i (inner_entry last i) e j
      ≡ (if leb i j && leb j last then inner_entry last j else e j)
unfolding mark_taken_loop
taken_loop_lem last zero i e j left = ground arith
taken_loop_lem last (suc k) i e j left =
    ground (arith, taken_loop_lem last k (i + 1) (update e i (inner_entry last i)) j (omega arith))

-- The entries of the allocation whose first block is `b` and whose last is `last`.
abbrev pub alloc_entry : (b last j : ℕ) → ℕ
alloc_entry b last j = if j == b then (if b == last then 0x41 else 0xC1) else inner_entry last j

abbrev pub allocated : Array → (b n j : ℕ) → ℕ
allocated e b n j = if leb b j && ltb j (b + n) then alloc_entry b (b + n - 1) j else e j

-- For at least one block, the call writes the entries of one allocation and no others.
pub mark_taken_lem :
    (h : Heap) (b n j : ℕ)
    → 0 < n
    → (heap_mark_blocks_taken h b n).table.entries j ≡ allocated h.table.entries b n j
unfolding heap_mark_blocks_taken mark_taken_loop
mark_taken_lem h b zero j pos_n = absurd (omega arith)
mark_taken_lem h b (suc zero) j pos_n = ground arith
mark_taken_lem h b (suc (suc m)) j pos_n =
    let last : ℕ = b + suc (suc m) - 1 in
    let split : (b == last) ≡ false = ground arith in
    let e : Array = update h.table.entries b 0xC1 in
    ground (arith, split, taken_loop_lem last (suc m) (b + 1) e j (omega arith))

-- HAS_NEXT is set on the entries from `i` on, up to `last`, where it is not.
abbrev pub ChainTo : Array → (i last : ℕ) → Type 0
ChainTo e i last =
    ((j : ℕ) → i ≤ j → j < last → (bit_and (e j) has_next == 0) ≡ false)
    × ((bit_and (e last) has_next == 0) ≡ true)

ChainTo-update :
    (e : Array) (i last v : ℕ) → i < last → ChainTo e i last → ChainTo (update e i v) (i + 1) last
ChainTo-update e i last v lt (next, stop) = (λ j lo hi. ground (arith, next j), ground arith)

abbrev pub freed : Array → (i last j : ℕ) → ℕ
freed e i last j = if leb i j && leb j last then 0 else e j

free_loop_lem :
    (k i last : ℕ) (t : HeapTable) (j : ℕ)
    → i ≤ last
    → last < i + k
    → ChainTo t.entries i last
    → (mark_free_loop k (pos i) t).entries j ≡ freed t.entries i last j
unfolding mark_free_loop set_entry get_entry
free_loop_lem zero i last t j le lt chain = absurd (omega arith)
free_loop_lem (suc k) i last t j le lt chain = elim (Bool-cases (i == last)) [
  | inl same ↦ ground arith
  | inr other ↦
      let u : HeapTable = record t { entries = update t.entries i 0 } in
      let below_last : i < last = ground arith in
      rw (chain.0 i (omega arith) below_last) (
        ground (
          arith,
          free_loop_lem k (i + 1) last u j (omega arith) (omega arith)
              (ChainTo-update t.entries i last 0 below_last chain),
        ))
]

-- From a block of the table on, nothing in front of the table changes, nor does its size.
pub free_loop_frame :
    (k i : ℕ) (t : HeapTable)
    → ((mark_free_loop k (pos i) t).below ≡ t.below)
      × ((mark_free_loop k (pos i) t).total ≡ t.total)
unfolding mark_free_loop set_entry
free_loop_frame zero i t = (refl, refl)
free_loop_frame (suc k) i t =
    let u : HeapTable = record t { entries = update t.entries i 0 } in
    elim (Bool-cases (bit_and (get_entry t (pos i)) has_next == 0)) [
      | inl stop ↦ rw stop (refl, refl)
      | inr next ↦ rw next (free_loop_frame k (i + 1) u)
    ]

-- Freeing from block `i` clears the entries up to the first without HAS_NEXT, and no others.
pub mark_free_lem :
    (h : Heap) (i last j : ℕ)
    → i ≤ last
    → last < h.table.total
    → ChainTo h.table.entries i last
    → (heap_mark_blocks_free h (pos i)).table.entries j ≡ freed h.table.entries i last j
unfolding heap_mark_blocks_free
mark_free_lem h i last j le lt chain =
    free_loop_lem (h.table.total - i) i last h.table j le (omega arith) chain

-- The entries of an allocation are such a chain.
pub alloc_chain :
    (e f : Array) (b n : ℕ) → 0 < n → ((j : ℕ) → f j ≡ allocated e b n j) → ChainTo f b (b + n - 1)
alloc_chain e f b n pos_n is = (λ j lo hi. ground (arith, is j), ground (arith, is (b + n - 1)))
