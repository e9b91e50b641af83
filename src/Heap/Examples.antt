-- ===== src/Heap/Examples.antt =====
-- Small heaps, and calls of src/memory/heap/heap.c on them.
use udemy_kernel.Prelude.{ℕ, ◌+◌, ◌≤◌, ◌<◌, ◌≡◌, ◌*◌, refl, update, ok, arith, ◌==◌, if◌then◌else◌}
use udemy_kernel.Memory.Laws.{memset_lem}
use udemy_kernel.Heap.{
  heap_get_entry_type, heap_align_value_to_upper, Heap, HeapTable, heap_create, heap_malloc,
  heap_free, heap_get_start_block,
}
use udemy_kernel.Heap.FirstFit.{start_block_first_fit, start_block_overrun, FreeRun}
use udemy_kernel.Heap.RoundTrip.{malloc_lem, free-malloc, blocks, Allocated, InMemory}
use udemy_kernel.Heap.Linked.{IsLinked}
use udemy_kernel.Heap.History.{create_history-IsLinked, heap_create_status, Reach, Step}

-- Four blocks from 0x1000000 on, of which the first is taken.
abbrev small_heap : Heap
small_heap = record {
  table = record { entries = update (λ _. 0) 0 0x41; below = λ _. 0; total = 4 };
  saddr = 0x1000000;
}

abbrev small_memory : InMemory small_heap
small_memory = record { addressable = omega arith; countable = omega arith }

small_entry : (j : ℕ) → small_heap.table.entries j ≡ (if j == 0 then 0x41 else 0)
small_entry j = ground arith

small_run : FreeRun small_heap.table.entries 1 2
unfolding heap_get_entry_type
small_run j lo hi = ground (arith, small_entry j)

malloc_lem_example : Allocated small_heap 5000 1 × (5000 ≤ blocks 5000 * 4096)
unfolding heap_align_value_to_upper
malloc_lem_example =
    malloc_lem small_heap 5000 1 small_memory (omega arith) (omega arith) (omega arith) small_run

free-malloc_example :
    (heap_free (heap_malloc small_heap 5000).1 (heap_malloc small_heap 5000).0).table.entries 1 ≡ 0
unfolding heap_align_value_to_upper heap_get_entry_type
free-malloc_example =
    free-malloc small_heap 5000 1 small_memory (omega arith) (omega arith) (omega arith) small_run
      (λ j lt free. ground (arith, free, small_entry j)) 1

start_block_first_fit_example :
    (b : ℕ) × (heap_get_start_block small_heap 2 ≡ ok b)
    × (b ≤ 1)
    × (b + 2 ≤ 4)
    × FreeRun small_heap.table.entries b 2
start_block_first_fit_example =
    start_block_first_fit small_heap 2 1 (omega arith) (omega arith) small_run

-- Four blocks of which only the last is free.
abbrev crowded_heap : Heap
crowded_heap = record {
  table = record { entries = update (λ _. 0x41) 3 0; below = λ _. 0; total = 4 };
  saddr = 0x1000000;
}

start_block_overrun_example : (b : ℕ) × (heap_get_start_block crowded_heap 2 ≡ ok b) × (4 < b + 2)
unfolding heap_get_entry_type
start_block_overrun_example =
    start_block_overrun crowded_heap 2 3 (omega arith) refl refl
      (λ s fits run. ground (arith, run s (omega arith) (omega arith)))

-- A table of four entries, whatever they held before, and the heap created on it.
abbrev raw_table : HeapTable
raw_table = record { entries = λ _. 7; below = λ _. 0; total = 4 }

abbrev fresh_heap : Heap
fresh_heap = (heap_create small_heap 0x1000000 0x1004000 raw_table).1

fresh_history : Reach fresh_heap (heap_malloc fresh_heap 5000).1
unfolding heap_create heap_align_value_to_upper heap_get_entry_type
fresh_history = Reach.next Reach.here (
    Step.mallocs 5000 0 (omega arith) (omega arith)
      (λ j lo hi. ground (arith, memset_lem raw_table.entries 0 4 j)))

create_history-IsLinked_example :
    IsLinked
      (heap_malloc fresh_heap 5000).1.table.entries
      (heap_malloc fresh_heap 5000).1.table.total
create_history-IsLinked_example =
    create_history-IsLinked small_heap 0x1000000 0x1004000 raw_table
      (heap_create_status small_heap 0x1000000 0x1004000 raw_table) (omega arith) (omega arith)
      fresh_history
