-- ===== src/Heap/FreeNull.antt =====
-- heap_free of src/memory/heap/heap.c on an address in front of the heap, such as NULL.
use udemy_kernel.Prelude.{
  ◌∙◌, ℕ, zero, suc, ◌+◌, ◌-◌, ◌/◌, ◌^◌, ◌≤◌, ◌<◌, ◌≡◌, refl, inl, inr, ℤ, pos, negsuc, update,
  arith, ap, bit_and, ◌==◌, Bool-cases, signed32, sub32, quot,
}
use udemy_kernel.Heap.{
  Heap, HeapTable, heap_free, heap_mark_blocks_free, heap_address_to_block, set_entry, get_entry,
  mark_free_loop, has_next, block_size,
}
use udemy_kernel.Heap.Mark.{free_loop_frame}

-- The index has passed the byte `below p`.
abbrev After : ℤ → ℕ → Type 0
After (pos i) p = Unit
After (negsuc i) p = i < p

passed_below :
    (k : ℕ) (i : ℤ) (t : HeapTable) (p : ℕ) → After i p → (mark_free_loop k i t).below p ≡ t.below p
unfolding mark_free_loop set_entry get_entry
passed_below k (pos i) t p past = ap (λ (f : ℕ → ℕ). f p) (free_loop_frame k i t).0
passed_below zero (negsuc i) t p past = refl
passed_below (suc k) (negsuc zero) t p past =
    let u : HeapTable = record t { below = update t.below 0 0 } in
    elim (Bool-cases (bit_and (t.below 0) has_next == 0)) [
      | inl stop ↦ rw stop (ground arith)
      | inr next ↦ rw next (passed_below k (pos 0) u p tt ∙ ground arith)
    ]
passed_below (suc k) (negsuc (suc i)) t p past =
    let u : HeapTable = record t { below = update t.below (suc i) 0 } in
    elim (Bool-cases (bit_and (t.below (suc i)) has_next == 0)) [
      | inl stop ↦ rw stop (ground arith)
      | inr next ↦ rw next (passed_below k (negsuc i) u p (omega arith) ∙ ground arith)
    ]

free_below_first : (k i : ℕ) (t : HeapTable) → (mark_free_loop (suc k) (negsuc i) t).below i ≡ 0
unfolding mark_free_loop set_entry get_entry
free_below_first k zero t =
    let u : HeapTable = record t { below = update t.below 0 0 } in
    elim (Bool-cases (bit_and (t.below 0) has_next == 0)) [
      | inl stop ↦ rw stop refl
      | inr next ↦ rw next (passed_below k (pos 0) u 0 tt ∙ refl)
    ]
free_below_first k (suc i) t =
    let u : HeapTable = record t { below = update t.below (suc i) 0 } in
    elim (Bool-cases (bit_and (t.below (suc i)) has_next == 0)) [
      | inl stop ↦ rw stop (ground arith)
      | inr next ↦ rw next (passed_below k (negsuc i) u (suc i) (omega arith) ∙ ground arith)
    ]

-- The defect: freeing NULL, where the heap starts at a block from 4096 up to 2^31, is not refused.
-- It clears the byte that lies `saddr / 4096` bytes in front of the table.
pub free_null :
    (h : Heap)
    → 4096 ≤ h.saddr
    → h.saddr ≤ 2 ^ 31
    → (heap_free h 0).table.below (h.saddr / 4096 - 1) ≡ 0
unfolding heap_free heap_mark_blocks_free heap_address_to_block
free_null h lo hi =
    let q : ℕ = h.saddr / 4096 - 1 in
    let block : quot (signed32 (sub32 0 h.saddr)) block_size ≡ negsuc q = ground arith in
    let more : h.table.total + q + 1 ≡ suc (h.table.total + q) = omega arith in
    rw block (rw more (free_below_first (h.table.total + q) q h.table))
