-- ===== src/KHeap.antt =====
-- src/memory/heap/kheap.c: the kernel's heap of 100 MB, and the memory that it gives out. The
-- table of entries and the memory of the blocks are kept apart: the table lies at 0x7E00, in
-- front of the heap.
pub mod Laws
pub mod Blocks
pub mod Pages
use udemy_kernel.Prelude.{
  ℕ, ◌+◌, ◌-◌, ◌*◌, ◌/◌, Bool, true, false, Array, Result, ok, err, leb, ◌==◌, if◌then◌else◌,
}
use udemy_kernel.Memory.{memset}
use udemy_kernel.Heap.{Heap, HeapTable, heap_create, heap_malloc, heap_free, block_size}

abbrev pub heap_size_bytes : ℕ
heap_size_bytes = 1024 * 1024 * 100

abbrev pub heap_address : ℕ
heap_address = 0x01000000

abbrev pub total_heap_entries : ℕ
total_heap_entries = heap_size_bytes / block_size

-- `kernel_heap`, and the byte at each address.
pub record Kernel : Type 0 where
  pub heap : Heap
  pub mem : Array

-- The table that `kheap_init` hands over: 25600 entries, with what the memory holds there.
abbrev pub kernel_table : Array → Array → HeapTable
kernel_table entries below = record { entries = entries; below = below; total = total_heap_entries }

-- The kernel after the call, and whether the message of the failed branch is printed.
unfoldable pub kheap_init : Kernel → Kernel × Bool
kheap_init k =
    let table = kernel_table k.heap.table.entries k.heap.table.below in
    let (res, heap) = heap_create k.heap heap_address (heap_address + heap_size_bytes) table in
    (record k { heap = heap }, elim res [ ok _ ↦ false | err _ ↦ true ])

unfoldable pub kmalloc : Kernel → ℕ → ℕ × Kernel
kmalloc k size = let (ptr, heap) = heap_malloc k.heap size in (ptr, record k { heap = heap })

-- `memset(ptr, 0, size)` on the memory.
zero_bytes : Array → (ptr size : ℕ) → Array
zero_bytes mem ptr size a =
    if leb ptr a then memset (λ i. mem (ptr + i)) 0 size (a - ptr) else mem a

unfoldable pub kzalloc : Kernel → ℕ → ℕ × Kernel
unfolding zero_bytes
kzalloc k size =
    let (ptr, k') = kmalloc k size in
    if ptr == 0 then (0, k') else (ptr, record k' { mem = zero_bytes k'.mem ptr size })

unfoldable pub kfree : Kernel → ℕ → Kernel
kfree k ptr = record k { heap = heap_free k.heap ptr }
