-- ===== src/Process.antt =====
-- src/task/process.c and process.h: the table of processes, and the memory that a process
-- allocates. The page directory of the process lies in the words of memory `mem`, as in Paging,
-- and the allocator is a parameter.
pub mod Arguments
pub mod Load
pub mod Table
pub mod Allocations
pub mod Start
pub mod Started
pub mod Binary
pub mod End
mod Examples
use udemy_kernel.Prelude.{
  ℕ, zero, suc, ◌+◌, ◌*◌, ◌-◌, ◌%◌, ◌^◌, Bool, true, false, Option, none, some, Array, update,
  Result, ok, err, eistkn, enomem, leb, ◌==◌, if◌then◌else◌,
}
use udemy_kernel.PathParser.{Allocator}
use udemy_kernel.Paging.{paging_map_to, paging_align_address}
use udemy_kernel.Paging.Build.{cleared}

abbrev pub max_processes : ℕ
max_processes = 12

abbrev pub max_program_allocations : ℕ
max_program_allocations = 1024

pub record ProcessAllocation : Type 0 where
  pub ptr : ℕ
  pub size : ℕ

pub record ProcessArguments : Type 0 where
  pub argc : ℕ
  pub argv : ℕ

-- `directory` is the page directory of the task, `program` the pointer of the union; the ring of
-- the keyboard is modelled apart.
pub record Process : Type 0 where
  pub id : ℕ
  pub filename : Array
  pub task : ℕ
  pub directory : ℕ
  pub allocations : ℕ → ProcessAllocation
  pub filetype : ℕ
  pub program : ℕ
  pub stack : ℕ
  pub size : ℕ
  pub arguments : ProcessArguments

abbrev pub set_allocation : Process → ℕ → ProcessAllocation → Process
set_allocation p i a = record p { allocations = λ j. if j == i then a else p.allocations j }

abbrev pub no_allocation : ProcessAllocation
no_allocation = record { ptr = 0; size = 0 }

-- The first allocation from `i` on, within `k`, with the pointer.
pub find_allocation : (ℕ → ProcessAllocation) → (ptr k i : ℕ) → Option ℕ
find_allocation table ptr zero i = none
find_allocation table ptr (suc k) i =
    let rest = find_allocation table ptr k (i + 1) in if (table i).ptr == ptr then some i else rest

unfoldable pub process_find_free_allocation_index : Process → Result ℕ
process_find_free_allocation_index p =
    elim (find_allocation p.allocations 0 max_program_allocations 0) [
      | none ↦ err enomem
      | some i ↦ ok i
    ]

unfoldable pub process_is_process_pointer : Process → (ptr : ℕ) → Bool
process_is_process_pointer p ptr =
    elim (find_allocation p.allocations ptr max_program_allocations 0) [
      | none ↦ false
      | some _ ↦ true
    ]

-- The index of the allocation; `none` is NULL.
unfoldable pub process_get_allocation_by_addr : Process → (addr : ℕ) → Option ℕ
process_get_allocation_by_addr p addr = find_allocation p.allocations addr max_program_allocations 0

-- Every allocation with the pointer.
unfoldable pub process_allocation_unjoin : Process → (ptr : ℕ) → Process
process_allocation_unjoin p ptr = record p {
  allocations = λ i.
      if leb max_program_allocations i
      then p.allocations i
      else if (p.allocations i).ptr == ptr
      then no_allocation
      else p.allocations i;
}

-- The static variables: the addresses of the processes, 0 for NULL.
pub record Processes : Type 0 where
  pub current_process : ℕ
  pub processes : Array

unfoldable pub process_current : Processes → ℕ
process_current ps = ps.current_process

-- For an identifier that is not negative; a negative one gives NULL.
unfoldable pub process_get : Processes → (process_id : ℕ) → ℕ
process_get ps process_id = if leb max_processes process_id then 0 else ps.processes process_id

unfoldable pub process_switch : Processes → (process : ℕ) → Processes
process_switch ps process = record ps { current_process = process }

-- The first index from `i` on, within `k`, where the table is NULL, or where it is not.
unfoldable pub find_slot : (used : Bool) → Array → (k i : ℕ) → Option ℕ
find_slot used table zero i = none
find_slot used table (suc k) i =
    let rest = find_slot used table k (i + 1) in
    if table i == 0 then (if used then rest else some i) else if used then some i else rest

-- `none` is the panic.
unfoldable pub process_switch_to_any : Processes → Option Processes
unfolding process_switch
process_switch_to_any ps = elim (find_slot true ps.processes max_processes 0) [
  | none ↦ none
  | some i ↦ some (process_switch ps (ps.processes i))
]

-- `id` is that of the process at the address `process`.
unfoldable pub process_unlink : Processes → (process id : ℕ) → Option Processes
process_unlink ps process id =
    let ps1 : Processes = record ps { processes = update ps.processes id 0 } in
    let switched = process_switch_to_any ps1 in
    if ps.current_process == process then switched else some ps1

unfoldable pub process_get_free_slot : Processes → Result ℕ
process_get_free_slot ps = elim (find_slot false ps.processes max_processes 0) [
  | none ↦ err eistkn
  | some i ↦ ok i
]

module _ (A : Allocator) where
  open A use {State, kzalloc, kfree}

  -- The pointer, 0 for NULL.
  unfoldable pub process_malloc :
      Process → (size : ℕ) → (mem : Array) → State → ℕ × Process × Array × State
  process_malloc p size mem s =
      let (ptr, s1) = kzalloc size s in
      let zeroed = cleared mem ptr size in
      let (res, mem1) =
        paging_map_to zeroed p.directory ptr ptr (paging_align_address ((ptr + size) % 2 ^ 32))
          0b111 in
      let got : ℕ × Process × Array × State = elim (process_find_free_allocation_index p) [
        | err _ ↦ (0, p, zeroed, kfree ptr s1)
        | ok index ↦ elim res [
          | err _ ↦ (0, p, mem1, kfree ptr s1)
          | ok _ ↦ (ptr, set_allocation p index (record { ptr = ptr; size = size }), mem1, s1)
        ]
      ] in
      if ptr == 0 then (0, p, mem, s1) else got

  unfoldable pub process_free :
      Process → (ptr : ℕ) → (mem : Array) → State → Process × Array × State
  process_free p ptr mem s = elim (process_get_allocation_by_addr p ptr) [
    | none ↦ (p, mem, s)
    | some i ↦
        let allocation = p.allocations i in
        let (res, mem1) =
          paging_map_to mem p.directory allocation.ptr allocation.ptr
            (paging_align_address ((allocation.ptr + allocation.size) % 2 ^ 32)) 0x00 in
        elim res [
          | err _ ↦ (p, mem1, s)
          | ok _ ↦ (process_allocation_unjoin p ptr, mem1, kfree ptr s)
        ]
  ]

  -- The loop of `process_terminate_allocations` with `k` rounds left.
  pub terminate_loop : (k i : ℕ) → Process → (mem : Array) → State → Process × Array × State
  terminate_loop zero i p mem s = (p, mem, s)
  terminate_loop (suc k) i p mem s =
      let (p1, mem1, s1) = process_free p (p.allocations i).ptr mem s in
      terminate_loop k (i + 1) p1 mem1 s1

  unfoldable pub process_terminate_allocations :
      Process → (mem : Array) → State → Process × Array × State
  process_terminate_allocations p mem s = terminate_loop max_program_allocations 0 p mem s
