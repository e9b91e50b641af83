-- ===== src/Paging.antt =====
-- src/memory/paging/paging.c: page directories and tables in memory. `mem` is the 32-bit word at
-- each address; a `struct paging_4gb_chunk *` is given by its directory.
mod Examples
pub mod Build
pub mod Entries
pub mod Apart
pub mod Range
use udemy_kernel.Prelude.{
  ℕ, zero, suc, ◌+◌, ◌-◌, ◌*◌, ◌/◌, ◌%◌, ◌^◌, bit_and, bit_or, Bool, ◌||◌, not, Array, update,
  Result, ok, err, einvarg, ltb, ◌==◌, if◌then◌else◌,
}

abbrev pub page_size : ℕ
page_size = 4096

-- A directory entry covers 1024 pages.
abbrev pub table_span : ℕ
table_span = 1024 * page_size

-- The address part of an entry.
unfoldable pub entry_address : ℕ → ℕ
entry_address entry = bit_and entry 0xFFFFF000

unfoldable pub paging_is_aligned : ℕ → Bool
paging_is_aligned addr = addr % page_size == 0

-- The directory index and the table index.
unfoldable pub paging_get_indexes : ℕ → Result (ℕ × ℕ)
unfolding paging_is_aligned
paging_get_indexes virtual_address =
    if not (paging_is_aligned virtual_address)
    then err einvarg
    else ok (virtual_address / table_span, virtual_address % table_span / page_size)

unfoldable pub paging_align_address : ℕ → ℕ
paging_align_address ptr =
    if ptr % page_size == 0 then ptr else (ptr + page_size - ptr % page_size) % 2 ^ 32

unfoldable pub paging_align_to_lower_page : ℕ → ℕ
paging_align_to_lower_page addr = addr - addr % page_size

-- The address of the table entry that the indexes name.
abbrev pub slot : Array → (directory d t : ℕ) → ℕ
slot mem directory d t = entry_address (mem (directory + 4 * d)) + 4 * t

unfoldable pub paging_set : Array → (directory virt val : ℕ) → Result (Unit {0}) × Array
unfolding paging_is_aligned paging_get_indexes entry_address
paging_set mem directory virt val =
    if not (paging_is_aligned virt) then (err einvarg, mem) else elim (paging_get_indexes virt) [
      | err e ↦ (err e, mem)
      | ok (d, t) ↦ (ok tt, update mem (slot mem directory d t) val)
    ]

-- Where `paging_get_indexes` fails, both indexes stay 0.
unfoldable pub paging_get : Array → (directory virt : ℕ) → ℕ
unfolding paging_get_indexes entry_address
paging_get mem directory virt = elim (paging_get_indexes virt) [
  | err _ ↦ mem (slot mem directory 0 0)
  | ok (d, t) ↦ mem (slot mem directory d t)
]

unfoldable pub paging_map : Array → (directory virt phys flags : ℕ) → Result (Unit {0}) × Array
unfolding paging_set
paging_map mem directory virt phys flags =
    if not (virt % page_size == 0) || not (phys % page_size == 0)
    then (err einvarg, mem)
    else paging_set mem directory virt (bit_or phys flags)

-- The loop of `paging_map_range` with `k` rounds left, and `res` as the last round left it.
range_loop :
    (k : ℕ)
    → Array
    → (directory virt phys flags : ℕ) → Result (Unit {0})
    → Result (Unit {0}) × Array
range_loop zero mem directory virt phys flags res = (res, mem)
range_loop (suc k) mem directory virt phys flags res =
    let (res', mem') = paging_map mem directory virt phys flags in
    let rest =
      range_loop k mem' directory ((virt + page_size) % 2 ^ 32) ((phys + page_size) % 2 ^ 32) flags
        res' in
    elim res' [ err e ↦ (err e, mem') | ok _ ↦ rest ]

unfoldable pub paging_map_range :
    Array → (directory virt phys count flags : ℕ) → Result (Unit {0}) × Array
unfolding range_loop
paging_map_range mem directory virt phys count flags =
    range_loop count mem directory virt phys flags (ok tt)

unfoldable pub paging_map_to :
    Array → (directory virt phys phys_end flags : ℕ) → Result (Unit {0}) × Array
unfolding paging_map_range
paging_map_to mem directory virt phys phys_end flags =
    if not (virt % page_size == 0)
    then (err einvarg, mem)
    else if not (phys % page_size == 0)
    then (err einvarg, mem)
    else if not (phys_end % page_size == 0)
    then (err einvarg, mem)
    else if ltb phys_end phys
    then (err einvarg, mem)
    else paging_map_range mem directory virt phys ((phys_end - phys) / page_size) flags

unfoldable pub paging_get_physical_address : Array → (directory virt : ℕ) → ℕ
unfolding paging_get paging_align_to_lower_page entry_address
paging_get_physical_address mem directory virt =
    let lower = paging_align_to_lower_page virt in
    (entry_address (paging_get mem directory lower) + (virt - lower)) % 2 ^ 32
