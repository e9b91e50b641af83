-- ===== src/PathParser/Blocks.antt =====
-- Requests of blocks from the allocator of src/memory/heap/kheap.c, one after the other, and blocks
-- that are given back: what a caller needs of the allocator in the states that it reaches.
use udemy_kernel.Prelude.{ℕ, ◌≢◌, List, [], ◌∷◌}
use udemy_kernel.PathParser.{Allocator}

-- Requests of these sizes, from `s` on, each give a block.
abbrev pub Grants : (A : Allocator) → (sizes : List ℕ) → A.State → Type 0
Grants A [] s = Unit {0}
Grants A (n ∷ sizes) s = ((A.kzalloc n s).0 ≢ 0) × Grants A sizes (A.kzalloc n s).1

-- The addresses that the requests give, in order, and the state behind them.
abbrev pub blocks : (A : Allocator) → (sizes : List ℕ) → A.State → List ℕ
blocks A [] s = []
blocks A (n ∷ sizes) s = (A.kzalloc n s).0 ∷ blocks A sizes (A.kzalloc n s).1

abbrev pub after : (A : Allocator) → (sizes : List ℕ) → A.State → A.State
after A [] s = s
after A (n ∷ sizes) s = after A sizes (A.kzalloc n s).1

-- One kfree for each of the addresses, in order.
abbrev pub free_all : (A : Allocator) → (addresses : List ℕ) → A.State → A.State
free_all A [] s = s
free_all A (a ∷ addresses) s = free_all A addresses (A.kfree a s)
