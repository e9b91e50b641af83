-- ===== src/Heap/History.antt =====
-- heap_create of src/memory/heap/heap.c, and every history of allocations and frees after it.
use udemy_kernel.Prelude.{
  ◌^◌, ℕ, ◌+◌, ◌*◌, ◌%◌, ◌/◌, ◌≤◌, ◌<◌, ◌≡◌, refl, false, ok, err, einvarg, arith, sub32, ◌==◌,
  ◌&&◌, if◌then◌else◌,
}
use udemy_kernel.Memory.Laws.{memset_lem}
use udemy_kernel.Heap.{Heap, HeapTable, heap_create, heap_malloc, heap_free, heap_mark_blocks_free}
use udemy_kernel.Heap.Mark.{free_loop_frame}
use udemy_kernel.Heap.FirstFit.{FreeRun}
use udemy_kernel.Heap.RoundTrip.{InMemory, blocks, malloc_Allocated, block-address}
use udemy_kernel.Heap.Linked.{
  IsLinked, goes_on, continues, is_start, malloc-IsLinked, free-IsLinked,
}

-- `heap_create` succeeds exactly when both addresses are aligned to 4096 and the table has one
-- entry for each block between them; any other call is refused with EINVARG.
pub heap_create_status :
    (h : Heap) (ptr end : ℕ) (t : HeapTable)
    → (heap_create h ptr end t).0 ≡ (
        if ptr % 4096 == 0 && end % 4096 == 0 && t.total == sub32 end ptr / 4096
        then ok tt
        else err einvarg)
unfolding heap_create
heap_create_status h ptr end t = ground arith

zero-IsLinked : (e : ℕ → ℕ) (total : ℕ) → ((j : ℕ) → j < total → e j ≡ 0) → IsLinked e total
unfolding is_start continues goes_on
zero-IsLinked e total z = record {
  code = λ i lt. ground (arith, z i);
  link = λ i lt. ground (arith, z i, z (i + 1));
  head = λ lt. ground (arith, z 0);
  last = λ i at. ground (arith, z i);
}

-- What a fresh heap is like.
pub record IsFresh (h : Heap) (ptr : ℕ) (t : HeapTable) : Type 0 where
  pub start : h.saddr ≡ ptr
  pub size : h.table.total ≡ t.total
  pub empty : (j : ℕ) → j < t.total → h.table.entries j ≡ 0

pub heap_create-IsFresh :
    (h : Heap) (ptr end : ℕ) (t : HeapTable)
    → (heap_create h ptr end t).0 ≡ ok tt
    → IsFresh (heap_create h ptr end t).1 ptr t
unfolding heap_create
heap_create-IsFresh h ptr end t done = record {
  start = ground arith;
  size = ground arith;
  empty = λ j lt. ground (arith, memset_lem t.entries 0 t.total j);
}

-- A call of a client: an allocation where some free run is long enough, or the free of the address
-- of a block that starts an allocation.
pub data Step (h : Heap) : Heap → Type 0 where
  mallocs :
      (size s : ℕ)
      → 0 < blocks size
      → s + blocks size ≤ h.table.total
      → FreeRun h.table.entries s (blocks size)
      → Step h (heap_malloc h size).1
  frees :
      (b : ℕ)
      → b < h.table.total
      → continues (h.table.entries b) ≡ false
      → Step h (heap_free h (h.saddr + b * 4096))

pub data Reach (h : Heap) : Heap → Type 0 where
  here : Reach h h
  next : {g k : Heap} → Reach h g → Step g k → Reach h k

-- The heap lies in memory and its table is consistent.
pub record IsSound (h : Heap) : Type 0 where
  pub memory : InMemory h
  pub linked : IsLinked h.table.entries h.table.total

free_frame :
    (h : Heap) (b : ℕ)
    → InMemory h
    → b < h.table.total
    → ((heap_free h (h.saddr + b * 4096)).table.total ≡ h.table.total)
      × ((heap_free h (h.saddr + b * 4096)).saddr ≡ h.saddr)
unfolding heap_free heap_mark_blocks_free
free_frame h b mem lt = rw (block-address h b mem lt) ((free_loop_frame _ b h.table).1, refl)

Step-IsSound : {h g : Heap} → Step h g → IsSound h → IsSound g
Step-IsSound {h} (mallocs size s p fits run) sound =
    let a = malloc_Allocated h size s sound.memory p fits run in
    record {
      memory = record {
        addressable = omega (arith, a.same_saddr, a.same_total, sound.memory.addressable);
        countable = omega (arith, a.same_total, sound.memory.countable);
      };
      linked = rw a.same_total (malloc-IsLinked h size s sound.memory p fits run sound.linked);
    }
Step-IsSound {h} (frees b lt start) sound =
    let (same_total, same_saddr) = free_frame h b sound.memory lt in
    record {
      memory = record {
        addressable = omega (arith, same_saddr, same_total, sound.memory.addressable);
        countable = omega (arith, same_total, sound.memory.countable);
      };
      linked = rw same_total (free-IsLinked h b sound.memory lt start sound.linked);
    }

Reach-IsSound : {h g : Heap} → IsSound h → Reach h g → IsSound g
Reach-IsSound sound here = sound
Reach-IsSound sound (next r step) = Step-IsSound step (Reach-IsSound sound r)

-- After a successful `heap_create` of at most 2^19 blocks that lie in the 32-bit address space,
-- every history of allocations that fit and of frees of whole allocations keeps the table
-- consistent: each entry is free or that of an allocation whose blocks follow one another to an
-- end inside the table.
pub create_history-IsLinked :
    (h : Heap) (ptr end : ℕ) (t : HeapTable) {g : Heap}
    → (heap_create h ptr end t).0 ≡ ok tt
    → ptr + t.total * 4096 ≤ 2 ^ 32
    → t.total ≤ 2 ^ 19
    → Reach (heap_create h ptr end t).1 g
    → IsLinked g.table.entries g.table.total
create_history-IsLinked h ptr end t done fits few reach =
    let fresh = heap_create-IsFresh h ptr end t done in
    let start : IsSound (heap_create h ptr end t).1 = record {
      memory = record {
        addressable = omega (arith, fresh.start, fresh.size);
        countable = omega (arith, fresh.size);
      };
      linked = rw fresh.size (zero-IsLinked _ _ fresh.empty);
    } in
    (Reach-IsSound start reach).linked
