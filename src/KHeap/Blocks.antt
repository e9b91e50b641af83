-- ===== src/KHeap/Blocks.antt =====
-- The kernel's heap of src/memory/heap/kheap.c as the allocator of the other parts: it gives blocks
-- as long as its table has a run of free ones.
use udemy_kernel.Prelude.{ℕ, ◌+◌, ◌-◌, ◌^◌, ◌≤◌, ◌<◌, refl, List, [], ◌∷◌, arith}
use udemy_kernel.Heap.{heap_get_entry_type}
use udemy_kernel.Heap.FirstFit.{FreeRun}
use udemy_kernel.Heap.RoundTrip.{InMemory, blocks}
use udemy_kernel.PathParser.{Allocator}
use udemy_kernel.PathParser.Blocks.{Grants}
use udemy_kernel.KHeap.{Kernel, kzalloc, kfree, kheap_init}
use udemy_kernel.KHeap.Laws.{kzalloc_lem, kheap_init_lem}

abbrev pub kernel_blocks : Allocator
kernel_blocks = record {
  State = Kernel;
  kzalloc = λ size k. kzalloc k size;
  kfree = λ ptr k. kfree k ptr;
}

-- The heap lies in memory, and `r` blocks of it from `s` on are free.
pub record HasRoom (k : Kernel) (s r : ℕ) : Type 0 where
  pub in_memory : InMemory k.heap
  pub start : 0 < k.heap.saddr
  pub fits : s + r ≤ k.heap.table.total
  pub run : FreeRun k.heap.table.entries s r

-- Requests that `r` blocks are enough for.
abbrev pub Fit : (sizes : List ℕ) → (r : ℕ) → Type 0
Fit [] r = Unit {0}
Fit (n ∷ sizes) r = (0 < n) × (n ≤ 2 ^ 32 - 4096) × (blocks n ≤ r) × Fit sizes (r - blocks n)

-- A request takes its blocks from those that are free, and leaves the rest.
pub kzalloc-HasRoom :
    (k : Kernel) (n s r : ℕ)
    → HasRoom k s r
    → 0 < n
    → n ≤ 2 ^ 32 - 4096
    → blocks n ≤ r
    → (0 < (kzalloc k n).0) × HasRoom (kzalloc k n).1 (s + blocks n) (r - blocks n)
kzalloc-HasRoom k n s r has some_bytes small enough =
    let (a, same, heap, real, zeroed) =
      kzalloc_lem k n s has.in_memory has.start some_bytes small (omega (arith, enough, has.fits))
        (λ j lo hi. has.run j lo (omega (arith, enough, hi))) in
    (
      real,
      record {
        in_memory = record {
          addressable = rw (heap, a.same_total, a.same_saddr) has.in_memory.addressable;
          countable = rw (heap, a.same_total) has.in_memory.countable;
        };
        start = rw (heap, a.same_saddr) has.start;
        fits = rw (heap, a.same_total) (omega (arith, enough, has.fits));
        run = λ j lo hi. rw (heap, a.marked j) (ground (arith, a.first, has.run j));
      },
    )

-- Requests that the free blocks are enough for each give a block.
pub kernel_blocks-Grants :
    (sizes : List ℕ) (k : Kernel) (s r : ℕ)
    → HasRoom k s r
    → Fit sizes r
    → Grants kernel_blocks sizes k
kernel_blocks-Grants [] k s r has fit = tt
kernel_blocks-Grants (n ∷ sizes) k s r has (some_bytes, small, enough, rest) =
    let (real, left) = kzalloc-HasRoom k n s r has some_bytes small enough in
    (
      omega (arith, real),
      kernel_blocks-Grants sizes (kzalloc k n).1 (s + blocks n) (r - blocks n) left rest,
    )

-- The heap as `kheap_init` makes it has 25600 free blocks.
pub kheap_init-HasRoom : (k : Kernel) → HasRoom (kheap_init k).0 0 25600
unfolding heap_get_entry_type
kheap_init-HasRoom k =
    let (_, saddr, total, empty) = kheap_init_lem k in
    record {
      in_memory = record {
        addressable = rw (saddr, total) (omega arith);
        countable = rw total (omega arith);
      };
      start = rw saddr (omega arith);
      fits = rw total (omega arith);
      run = λ j lo hi. rw (empty j hi) refl;
    }
