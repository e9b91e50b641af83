-- ===== src/Paging/Build.antt =====
-- paging_new_4gb and paging_free_4gb of src/memory/paging/paging.c: a directory of 1024 tables,
-- each in a page that the kernel's allocator gives. `mem` is the 32-bit word at each address.
pub mod Identity
pub mod Round
pub mod Requests
use udemy_kernel.Prelude.{
  ℕ, zero, suc, ◌+◌, ◌*◌, ◌%◌, ◌^◌, bit_or, Bool, ◌&&◌, Array, update, leb, ltb, ◌==◌,
  if◌then◌else◌,
}
use udemy_kernel.PathParser.{Allocator}
use udemy_kernel.Paging.{entry_address, page_size, table_span}

abbrev pub writeable : ℕ
writeable = 0b00000010

-- What `kzalloc` does to the memory.
abbrev pub cleared : Array → (ptr size : ℕ) → Array
cleared mem ptr size a = if leb ptr a && ltb a (ptr + size) then 0 else mem a

-- The inner loop with `k` rounds left: the entries of one table.
pub fill_table : (k b offset flags entry : ℕ) → Array → Array
fill_table zero b offset flags entry mem = mem
fill_table (suc k) b offset flags entry mem =
    fill_table k (b + 1) offset flags entry
      (update mem (entry + 4 * b) (bit_or ((offset + b * page_size) % 2 ^ 32) flags))

-- The tests of `paging_new_4gb_validate` on entries 0, 1 and 1023 of table `d`.
table_valid : Array → (directory d : ℕ) → Bool
table_valid mem directory d =
    let table = entry_address (mem (directory + 4 * d)) in
    (entry_address (mem table) == d * table_span)
    && ((entry_address (mem (table + 4)) == d * table_span + 4096)
        && (entry_address (mem (table + 4 * 1023)) == d * table_span + 4096 * 1023))

-- True where no message is printed.
unfoldable pub paging_new_4gb_validate : Array → (directory : ℕ) → Bool
unfolding table_valid
paging_new_4gb_validate mem directory =
    table_valid mem directory 0 && (table_valid mem directory 1 && table_valid mem directory 1023)

module _ (A : Allocator) where
  open A use {State, kzalloc, kfree}

  -- `kzalloc` for NULL leaves the memory alone.
  abbrev pub kzalloc_words : (size : ℕ) → State → Array → ℕ × State × Array
  kzalloc_words size s mem =
      let (ptr, s') = kzalloc size s in (ptr, s', if ptr == 0 then mem else cleared mem ptr size)

  -- The outer loop with `k` rounds left. `offset` is an `int` that wraps.
  pub new_tables : (k i offset directory flags : ℕ) → State → Array → State × Array
  new_tables zero i offset directory flags s mem = (s, mem)
  new_tables (suc k) i offset directory flags s mem =
      let (entry, s', zeroed) = kzalloc_words 4096 s mem in
      let filled = fill_table 1024 0 offset flags entry zeroed in
      let linked = update filled (directory + 4 * i) (bit_or (bit_or entry flags) writeable) in
      new_tables k (i + 1) ((offset + table_span) % 2 ^ 32) directory flags s' linked

  -- The address of the chunk, whose word is that of its directory.
  unfoldable pub paging_new_4gb : (flags : ℕ) → State → Array → ℕ × State × Array
  paging_new_4gb flags s mem =
      let (directory, s1, mem1) = kzalloc_words 4096 s mem in
      let (s2, mem2) = new_tables 1024 0 0 directory flags s1 mem1 in
      let (chunk, s3, mem3) = kzalloc_words 4 s2 mem2 in (chunk, s3, update mem3 chunk directory)

  -- The loop with `k` rounds left.
  pub free_tables : (k i directory : ℕ) → Array → State → State
  free_tables zero i directory mem s = s
  free_tables (suc k) i directory mem s =
      free_tables k (i + 1) directory mem (kfree (entry_address (mem (directory + 4 * i))) s)

  -- `kfree` leaves the words of the memory alone.
  unfoldable pub paging_free_4gb : (chunk : ℕ) → Array → State → State
  paging_free_4gb chunk mem s =
      let directory = mem chunk in
      kfree chunk (kfree directory (free_tables 1024 0 directory mem s))
