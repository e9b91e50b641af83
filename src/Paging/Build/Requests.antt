-- ===== src/Paging/Build/Requests.antt =====
-- What paging_new_4gb of src/memory/paging/paging.c requests from the allocator.
use udemy_kernel.Prelude.{ℕ, zero, suc, ◌+◌, ◌≢◌, List, [], ◌∷◌, Array}
use udemy_kernel.PathParser.{Allocator}
use udemy_kernel.PathParser.Blocks.{Grants}
use udemy_kernel.Paging.Build.{new_tables, paging_new_4gb}

-- `k` pages, and the chunk behind them.
pub page_requests : (k : ℕ) → List ℕ
page_requests zero = 4 ∷ []
page_requests (suc k) = 4096 ∷ page_requests k

-- The directory and its 1024 tables, and the chunk.
abbrev pub directory_requests : List ℕ
directory_requests = page_requests 1025

chunk_real :
    (A : Allocator) (k i offset directory flags : ℕ) (s : A.State) (mem : Array)
    → Grants A (page_requests k) s
    → (A.kzalloc 4 (new_tables A k i offset directory flags s mem).0).0 ≢ 0
unfolding new_tables page_requests
chunk_real A zero i offset directory flags s mem given = given.0
chunk_real A (suc k) i offset directory flags s mem given =
    chunk_real A k (i + 1) _ directory flags (A.kzalloc 4096 s).1 _ given.1

-- Where each of those requests gives a block, the chunk is not NULL.
pub paging_new_4gb-real :
    (A : Allocator) (flags : ℕ) (s : A.State) (mem : Array)
    → Grants A directory_requests s
    → (paging_new_4gb A flags s mem).0 ≢ 0
unfolding paging_new_4gb page_requests
paging_new_4gb-real A flags s mem given =
    chunk_real A 1024 0 0 (A.kzalloc 4096 s).0 flags (A.kzalloc 4096 s).1 _ given.1
