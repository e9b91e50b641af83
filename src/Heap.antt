-- ===== src/Heap.antt =====
-- src/memory/heap/heap.c and heap.h: the block allocator over a table of entries, one for each
-- block of 4096 bytes.
mod Examples
pub mod FirstFit
pub mod FreeNull
pub mod History
pub mod Linked
pub mod Mark
pub mod RoundTrip
use udemy_kernel.Memory.{memset}
use udemy_kernel.Prelude.{
  ℕ, zero, suc, ◌+◌, ◌-◌, ◌*◌, ◌/◌, ◌%◌, ◌^◌, bit_and, bit_or, Bool, ◌||◌, not, Option, none, some,
  Array, update, ℤ, pos, negsuc, suc_ℤ, signed32, sub32, quot, Result, ok, err, enomem, einvarg,
  ltb, ◌==◌, if◌then◌else◌,
}

abbrev pub block_size : ℕ
block_size = 4096

abbrev pub entry_taken : ℕ
entry_taken = 0x1

abbrev pub entry_free : ℕ
entry_free = 0x0

abbrev pub has_next : ℕ
has_next = 0b10000000

abbrev pub is_first : ℕ
is_first = 0b01000000

-- `below k` is the byte that `entries[-(k + 1)]` names, in front of the table.
pub record HeapTable : Type 0 where
  pub entries : Array
  pub below : Array
  pub total : ℕ

pub record Heap : Type 0 where
  pub table : HeapTable
  pub saddr : ℕ

-- The test of `heap_validate_table`, on 32-bit addresses.
pub heap_validate_table : ℕ → ℕ → HeapTable → Result (Unit {0})
heap_validate_table ptr end table =
    if table.total == sub32 end ptr / block_size then ok tt else err einvarg

pub heap_validate_alignment : ℕ → Bool
heap_validate_alignment ptr = ptr % block_size == 0

-- The status, and `*heap` as the call leaves it.
unfoldable pub heap_create : Heap → ℕ → ℕ → HeapTable → Result (Unit {0}) × Heap
unfolding heap_validate_table heap_validate_alignment
heap_create heap ptr end table =
    if not (heap_validate_alignment ptr) || not (heap_validate_alignment end)
    then (err einvarg, heap)
    else elim (heap_validate_table ptr end table) [
      | err e ↦ (err e, record { table = table; saddr = ptr })
      | ok _ ↦ (ok tt, record { table = record table { entries = cleared }; saddr = ptr })
    ]
  where
    cleared : Array
    cleared = memset table.entries entry_free table.total

unfoldable pub heap_align_value_to_upper : ℕ → ℕ
heap_align_value_to_upper val =
    if val % block_size == 0 then val else (val - val % block_size + block_size) % 2 ^ 32

unfoldable pub heap_get_entry_type : ℕ → ℕ
heap_get_entry_type entry = bit_and entry 0b00001111

abbrev or_else : Option ℕ → ℕ → ℕ
or_else none i = i
or_else (some b) i = b

-- The loop of `heap_get_start_block` with `k` rounds left; `bs` is `none` for -1.
pub start_block_loop : Array → ℕ → (k i bc : ℕ) → Option ℕ → Option ℕ
start_block_loop e n zero i bc bs = bs
start_block_loop e n (suc k) i bc bs =
    let restart = start_block_loop e n k (i + 1) 0 none in
    let more = start_block_loop e n k (i + 1) (bc + 1) (some (or_else bs i)) in
    if not (heap_get_entry_type (e i) == entry_free)
    then restart
    else if bc + 1 == n
    then some (or_else bs i)
    else more

abbrev found_block : Option ℕ → Result ℕ
found_block none = err enomem
found_block (some b) = ok b

pub heap_get_start_block : Heap → ℕ → Result ℕ
heap_get_start_block h n = found_block (start_block_loop h.table.entries n h.table.total 0 0 none)

pub heap_block_to_address : Heap → ℕ → ℕ
heap_block_to_address h block = (h.saddr + block * block_size) % 2 ^ 32

-- The loop of `heap_mark_blocks_taken` with `k` rounds left.
pub mark_taken_loop : ℕ → (k i entry : ℕ) → Array → Array
mark_taken_loop end_block zero i entry e = e
mark_taken_loop end_block (suc k) i entry e =
    mark_taken_loop end_block k (i + 1)
      (if i + 1 == end_block then entry_taken else bit_or entry_taken has_next) (update e i entry)

pub heap_mark_blocks_taken : Heap → ℕ → ℕ → Heap
unfolding mark_taken_loop
heap_mark_blocks_taken h start total_blocks = record h { table = record table { entries = marked } }
  where
    open h use {table}

    first : ℕ
    first = bit_or entry_taken is_first

    marked : Array
    marked =
        mark_taken_loop (start + total_blocks - 1) total_blocks start
          (if ltb 1 total_blocks then bit_or first has_next else first) table.entries

-- The address, 0 for NULL, and the heap after the call.
pub heap_malloc_block : Heap → ℕ → ℕ × Heap
heap_malloc_block h total_blocks = elim (heap_get_start_block h total_blocks) [
  | err _ ↦ (0, h)
  | ok start ↦ (heap_block_to_address h start, heap_mark_blocks_taken h start total_blocks)
]

pub get_entry : HeapTable → ℤ → ℕ
get_entry t (pos i) = t.entries i
get_entry t (negsuc i) = t.below i

pub set_entry : HeapTable → ℤ → ℕ → HeapTable
set_entry t (pos i) v = record t { entries = update t.entries i v }
set_entry t (negsuc i) v = record t { below = update t.below i v }

-- The loop of `heap_mark_blocks_free` with `k` rounds left.
pub mark_free_loop : ℕ → ℤ → HeapTable → HeapTable
mark_free_loop zero i t = t
mark_free_loop (suc k) i t =
    let freed = set_entry t i entry_free in
    let rest = mark_free_loop k (suc_ℤ i) freed in
    if bit_and (get_entry t i) has_next == 0 then freed else rest

-- How often `i < (int)table->total` holds as `i` counts up.
abbrev rounds : ℤ → ℕ → ℕ
rounds (pos i) total = total - i
rounds (negsuc i) total = total + i + 1

pub heap_mark_blocks_free : Heap → ℤ → Heap
heap_mark_blocks_free h start = record h {
  table = mark_free_loop (rounds start h.table.total) start h.table;
}

pub heap_address_to_block : Heap → ℕ → ℤ
heap_address_to_block h address = quot (signed32 (sub32 address h.saddr)) block_size

unfoldable pub heap_malloc : Heap → ℕ → ℕ × Heap
heap_malloc h size = heap_malloc_block h (heap_align_value_to_upper size / block_size)

unfoldable pub heap_free : Heap → ℕ → Heap
heap_free h ptr = heap_mark_blocks_free h (heap_address_to_block h ptr)
