-- ===== src/Task/CopyString.antt =====
-- copy_string_from_task of src/task/task.c: the string that a task sees, and the pages left as they
-- were.
use udemy_kernel.Prelude.{
  ℕ, ◌+◌, ◌-◌, ◌%◌, ◌^◌, ◌<◌, ◌≤◌, ◌≡◌, ◌≢◌, ◌⊎◌, ◌&&◌, Array, leb, ltb, false,
}
use udemy_kernel.Paging.{paging_get_physical_address}
use udemy_kernel.Paging.Entries.{IsPage}
use udemy_kernel.Paging.Apart.{IsOffTables}

-- The byte `j` of the string at `virt`, as the task sees it.
abbrev pub seen : (mem bytes : Array) → (directory virt j : ℕ) → ℕ
seen mem bytes directory virt j =
    bytes (paging_get_physical_address mem directory ((virt + j) % 2 ^ 32))

-- The page directory of a task whose word lies at `chunk`, its tables and that word are none of
-- the `n` bytes from `start` on.
abbrev pub IsOff : (mem : Array) → (chunk start n : ℕ) → Type 0
IsOff mem chunk start n =
    IsOffTables mem (mem chunk) start n × ((start + n ≤ chunk) ⊎ (chunk + 4 ≤ start))

-- The block at `tmp` lies in a page that none of the `max` bytes from `virt` on is in, apart from
-- the memory behind them and from the buffer at `phys`; the block, the buffer and that memory are
-- apart from the page tables, which are words of the same memory.
pub record IsApart (mem : Array) (chunk virt phys tmp max : ℕ) : Type 0 where
  pub page : IsPage tmp
  pub real : tmp ≢ 0
  pub below : virt + max ≤ 2 ^ 32
  pub pages : (j : ℕ) → j < max → virt + j - (virt + j) % 4096 ≢ tmp
  pub frames :
      (j : ℕ)
      → j < max
      → (leb tmp (paging_get_physical_address mem (mem chunk) ((virt + j) % 2 ^ 32))
          && ltb (paging_get_physical_address mem (mem chunk) ((virt + j) % 2 ^ 32)) (tmp + max))
        ≡ false
  pub buffer : (phys + max ≤ tmp) ⊎ (tmp + max ≤ phys)
  pub block_off : IsOff mem chunk tmp max
  pub buffer_off : IsOff mem chunk phys max
  pub source_off :
      (j : ℕ)
      → j < max
      → IsOff mem chunk (paging_get_physical_address mem (mem chunk) ((virt + j) % 2 ^ 32)) 1
