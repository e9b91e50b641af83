-- ===== src/KHeap/Pages.antt =====
-- The kernel's heap of src/memory/heap/kheap.c gives the pages that a page directory is built of.
use mathlib.Core.Path.{subst}
use udemy_kernel.Prelude.{ℕ, suc, ◌+◌, ◌*◌, ◌%◌, ◌≤◌, ◌<◌, ◌≡◌, arith}
use udemy_kernel.Heap.{heap_get_entry_type, heap_align_value_to_upper}
use udemy_kernel.Heap.FirstFit.{IsFree}
use udemy_kernel.Heap.RoundTrip.{blocks}
use udemy_kernel.Paging.Build.Round.{GivesPages, NewPage}
use udemy_kernel.KHeap.{Kernel, kzalloc}
use udemy_kernel.KHeap.Laws.{kzalloc_lem}
use udemy_kernel.KHeap.Blocks.{kernel_blocks, HasRoom, kzalloc-HasRoom}

-- The page `p` is a block of the heap that is taken.
pub record IsTaken (k : Kernel) (p : ℕ) : Type 0 where
  pub block : ℕ
  pub within : block < k.heap.table.total
  pub address : p ≡ k.heap.saddr + block * 4096
  pub taken : ¬ IsFree k.heap.table.entries block

-- The heap starts at a page, and `n` blocks of it in a row are free.
pub record PagesLeft (k : Kernel) (n : ℕ) : Type 0 where
  pub from : ℕ
  pub aligned : k.heap.saddr % 4096 ≡ 0
  pub room : HasRoom k from n

one_block : (n : ℕ) → 0 < n → n ≤ 4096 → blocks n ≡ 1
unfolding heap_align_value_to_upper
one_block n some_bytes small = ground arith

-- A block of at most a page is a new page.
pub kernel-NewPage :
    (n r : ℕ) (k : Kernel)
    → 0 < n
    → n ≤ 4096
    → PagesLeft k (suc r)
    → NewPage (IsTaken k) (IsTaken (kzalloc k n).1) (kzalloc k n).0
unfolding heap_get_entry_type
kernel-NewPage n r k some_bytes small left =
    let has = left.room in
    let one = one_block n some_bytes small in
    let (a, same, heap, real, zeroed) =
      kzalloc_lem k n left.from has.in_memory has.start some_bytes (omega (arith, small))
        (rw one (omega (arith, has.fits))) (rw one (λ j lo hi. has.run j lo (omega (arith, hi)))) in
    let free : IsFree k.heap.table.entries a.block =
      a.was_free a.block (omega arith) (rw one (omega arith)) in
    let within : a.block < k.heap.table.total = omega (arith, a.within, one) in
    record {
      aligned = rw (same, a.address) (omega (arith, left.aligned));
      real = omega (arith, real);
      small = rw (same, a.address) (omega (arith, has.in_memory.addressable, within));
      fresh = λ t.
          let block : t.block ≡ a.block = omega (arith, t.address, same, a.address) in
          t.taken (rw block free);
      owned = record {
        block = a.block;
        within = rw (heap, a.same_total) within;
        address = rw (heap, a.same_saddr, same) a.address;
        taken = rw (heap, a.marked a.block) (ground (arith, one));
      };
      keeps = λ q t. record {
        block = t.block;
        within = rw (heap, a.same_total) t.within;
        address = rw (heap, a.same_saddr) t.address;
        taken = rw (heap, a.marked t.block) (ground (arith, one, t.taken));
      };
    }

pub next_left :
    (n r : ℕ) (k : Kernel) → 0 < n → n ≤ 4096 → PagesLeft k (suc r) → PagesLeft (kzalloc k n).1 r
next_left n r k some_bytes small left =
    let has = left.room in
    let one = one_block n some_bytes small in
    let (a, same, heap, real, zeroed) =
      kzalloc_lem k n left.from has.in_memory has.start some_bytes (omega (arith, small))
        (rw one (omega (arith, has.fits))) (rw one (λ j lo hi. has.run j lo (omega (arith, hi)))) in
    let (_, room) =
      kzalloc-HasRoom k n left.from (suc r) has some_bytes (omega (arith, small))
        (omega (arith, one)) in
    record {
      from = left.from + blocks n;
      aligned = rw (heap, a.same_saddr) left.aligned;
      room =
          subst (λ x. HasRoom (kzalloc k n).1 (left.from + blocks n) x) (omega (arith, one)) room;
    }

abbrev pub kernel-GivesPages : GivesPages kernel_blocks
kernel-GivesPages = record {
  Owns = IsTaken;
  Room = PagesLeft;
  gives = λ n r k. kernel-NewPage n r k;
  next = λ n r k. next_left n r k;
}
