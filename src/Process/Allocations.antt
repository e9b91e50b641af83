-- ===== src/Process/Allocations.antt =====
-- What a process allocates and frees by src/task/process.c: its table, its pages and the blocks in
-- use.
use udemy_kernel.Prelude.{
  ℕ, zero, suc, ◌+◌, ◌-◌, ◌*◌, ◌/◌, ◌%◌, ◌^◌, ◌<◌, ◌≤◌, ◌≡◌, ◌≢◌, ◌&&◌, refl, Array, none, leb, ltb,
  ◌==◌, if◌then◌else◌, arith, false,
}
use udemy_kernel.PathParser.{Allocator}
use udemy_kernel.Paging.{paging_align_address, paging_get}
use udemy_kernel.Paging.Entries.{IsDirectory, IsPage}
use udemy_kernel.Process.{
  Process, ProcessAllocation, set_allocation, find_allocation, process_malloc, process_free,
  process_get_allocation_by_addr, max_program_allocations,
}

find_none_lem :
    (table : ℕ → ProcessAllocation) (ptr k i : ℕ)
    → ((m : ℕ) → i ≤ m → m < i + k → (table m).ptr ≢ ptr)
    → find_allocation table ptr k i ≡ none
unfolding find_allocation
find_none_lem table ptr zero i others = refl
find_none_lem table ptr (suc k) i others =
    let skipped : ((table i).ptr == ptr) ≡ false =
      ground (arith, others i (omega arith) (omega arith)) in
    rw (find_allocation, skipped)
      (find_none_lem table ptr k (i + 1)
        (λ m lo hi. others m (omega (arith, lo)) (omega (arith, hi))))

-- A pointer that is not one of the process's allocations is not freed, and nothing changes.
pub free_foreign :
    (A : Allocator) (p : Process) (ptr : ℕ) (mem : Array) (s : A.State)
    → ((m : ℕ) → m < 1024 → (p.allocations m).ptr ≢ ptr)
    → process_free A p ptr mem s ≡ (p, mem, s)
unfolding process_free process_get_allocation_by_addr
free_foreign A p ptr mem s others =
    let absent =
      find_none_lem p.allocations ptr max_program_allocations 0
        (λ m lo hi. others m (omega (arith, hi))) in
    rw (process_free, process_get_allocation_by_addr, absent) refl

-- The pages of a block.
abbrev pub pages_of : (ptr size : ℕ) → ℕ
pages_of ptr size = (paging_align_address ((ptr + size) % 2 ^ 32) - ptr) / 4096

-- A block that the allocator gives: a page-aligned address, not NULL, with its end in memory.
pub record IsBlock (ptr size : ℕ) : Type 0 where
  pub real : ptr ≢ 0
  pub aligned : ptr % 4096 ≡ 0
  pub below : ptr + size < 2 ^ 32 - 4096

-- The process after an allocation at the entry `i`.
abbrev pub with_block : Process → (i ptr size : ℕ) → Process
with_block p i ptr size = set_allocation p i (record { ptr = ptr; size = size })

-- The entry `i` of the table is the first free one.
pub record IsFirstFree (p : Process) (i : ℕ) : Type 0 where
  pub within : i < 1024
  pub free : (p.allocations i).ptr ≡ 0
  pub first : (m : ℕ) → m < i → (p.allocations m).ptr ≢ 0

pub record WasAllocated (A : Allocator) (p : Process) (i size : ℕ) (mem : Array) (s : A.State)
    : Type 0 where
  pub after : Array
  pub done : process_malloc A p size mem s ≡ (
    (A.kzalloc size s).0,
    with_block p i (A.kzalloc size s).0 size,
    after,
    (A.kzalloc size s).1,
  )
  pub pages :
      (v : ℕ)
      → IsPage v
      → paging_get after p.directory v ≡ (
          if leb (A.kzalloc size s).0 v
            && ltb v ((A.kzalloc size s).0 + 4096 * pages_of (A.kzalloc size s).0 size)
          then v + 0b111
          else paging_get mem p.directory v)
  pub keeps : IsDirectory after p.directory

-- A block that is freed after it was allocated.
pub record WasFreed (A : Allocator) (p : Process) (i size : ℕ) (mem : Array) (s : A.State)
    : Type 0 where
  pub freed : Process
  pub after : Array
  pub done :
      process_free A
        (process_malloc A p size mem s).1
        (process_malloc A p size mem s).0
        (process_malloc A p size mem s).2
        (process_malloc A p size mem s).3
      ≡ (freed, after, A.kfree (A.kzalloc size s).0 (A.kzalloc size s).1)
  pub table : (j : ℕ) → freed.allocations j ≡ p.allocations j
  pub pages :
      (v : ℕ)
      → IsPage v
      → paging_get after p.directory v ≡ (
          if leb (A.kzalloc size s).0 v
            && ltb v ((A.kzalloc size s).0 + 4096 * pages_of (A.kzalloc size s).0 size)
          then v
          else paging_get mem p.directory v)
