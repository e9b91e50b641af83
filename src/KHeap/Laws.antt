-- ===== src/KHeap/Laws.antt =====
-- What the kernel's allocator of src/memory/heap/kheap.c gives to its callers.
use udemy_kernel.Prelude.{
  ◌==◌, ℕ, ◌+◌, ◌-◌, ◌^◌, ◌≤◌, ◌<◌, ◌≡◌, refl, false, ok, arith, leb, ltb, ◌&&◌, if◌then◌else◌,
  Array,
}
use udemy_kernel.Memory.Laws.{memset_lem}
use udemy_kernel.Heap.{Heap, heap_malloc, heap_create}
use udemy_kernel.Heap.FirstFit.{IsFree, FreeRun}
use udemy_kernel.Heap.RoundTrip.{malloc_full, InMemory, Allocated, blocks, malloc_lem}
use udemy_kernel.Heap.History.{heap_create_status, heap_create-IsFresh}
use udemy_kernel.KHeap.{
  Kernel, kheap_init, kmalloc, kzalloc, zero_bytes, kernel_table, heap_address, heap_size_bytes,
}

init_status :
    (h : Heap) (t u : Array)
    → (heap_create h heap_address (heap_address + heap_size_bytes) (kernel_table t u)).0 ≡ ok tt
init_status h t u =
    heap_create_status h heap_address (heap_address + heap_size_bytes) (kernel_table t u)

-- `kheap_init` never prints its message: it makes a heap of 25600 free blocks from 0x01000000 on,
-- whatever the table held before.
pub kheap_init_lem :
    (k : Kernel)
    → ((kheap_init k).1 ≡ false)
      × ((kheap_init k).0.heap.saddr ≡ 0x01000000)
      × ((kheap_init k).0.heap.table.total ≡ 25600)
      × ((j : ℕ) → j < 25600 → (kheap_init k).0.heap.table.entries j ≡ 0)
unfolding kheap_init
kheap_init_lem k =
    let e = k.heap.table.entries in
    let d = k.heap.table.below in
    let status = init_status k.heap e d in
    let fresh =
      heap_create-IsFresh k.heap heap_address (heap_address + heap_size_bytes) (kernel_table e d)
        status in
    (rw (status, kheap_init) refl, fresh.start, fresh.size, fresh.empty)

zero_bytes_lem :
    (mem : Array) (ptr size a : ℕ)
    → zero_bytes mem ptr size a ≡ (if leb ptr a && ltb a (ptr + size) then 0 else mem a)
unfolding zero_bytes
zero_bytes_lem mem ptr size a = ground (arith, memset_lem (λ i. mem (ptr + i)) 0 size (a - ptr))

-- What a zeroed allocation of `size` bytes at `ptr` does to the memory.
abbrev pub Zeroed : Kernel → (ptr size : ℕ) → Kernel → Type 0
Zeroed k ptr size k' = (a : ℕ) → k'.mem a ≡ (if leb ptr a && ltb a (ptr + size) then 0 else k.mem a)

-- In a heap of at most 2^19 blocks below 2^32 that does not start at 0, for 1 to 2^32 - 4096
-- bytes, where a run of free blocks is long enough: `kzalloc` returns the allocation of
-- `heap_malloc`, a pointer that is not NULL, and the memory reads 0 at its `size` bytes and is
-- unchanged elsewhere.
pub kzalloc_lem :
    (k : Kernel) (size s : ℕ)
    → InMemory k.heap
    → 0 < k.heap.saddr
    → 0 < size
    → size ≤ 2 ^ 32 - 4096
    → s + blocks size ≤ k.heap.table.total
    → FreeRun k.heap.table.entries s (blocks size)
    → Allocated k.heap size s
      × ((kzalloc k size).0 ≡ (heap_malloc k.heap size).0)
      × ((kzalloc k size).1.heap ≡ (heap_malloc k.heap size).1)
      × (0 < (kzalloc k size).0)
      × Zeroed k (kzalloc k size).0 size (kzalloc k size).1
unfolding kzalloc kmalloc
kzalloc_lem k size s mem up p q fits run =
    let (a, _) = malloc_lem k.heap size s mem p q fits run in
    let ptr : ℕ = (heap_malloc k.heap size).0 in
    let not_null : (ptr == 0) ≡ false = ground (arith, a.address) in
    rw not_null (a, refl, refl, ground (arith, a.address), λ b. zero_bytes_lem k.mem ptr size b)

-- Where no entry is free, `kzalloc` returns NULL and changes nothing.
pub kzalloc_full :
    (k : Kernel) (size : ℕ)
    → ((j : ℕ) → j < k.heap.table.total → ¬ IsFree k.heap.table.entries j)
    → kzalloc k size ≡ (0, k)
unfolding kzalloc kmalloc
kzalloc_full k size full = rw (malloc_full k.heap size full) refl
