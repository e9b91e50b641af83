-- ===== src/Paging/Apart.antt =====
-- Memory apart from the page tables of src/memory/paging/paging.c: a directory and its tables are
-- words of the same memory as everything else, and a write elsewhere leaves them.
use udemy_kernel.Prelude.{ℕ, ◌+◌, ◌*◌, ◌/◌, ◌<◌, ◌≤◌, ◌≡◌, ◌⊎◌, Array, arith}
use udemy_kernel.Paging.{paging_get, paging_get_indexes}
use udemy_kernel.Paging.Entries.{table_at, IsDirectory, IsPage}
use udemy_kernel.Paging.Build.{cleared}

-- The `n` bytes from `start` on are in neither the directory nor one of its tables.
pub record IsOffTables (mem : Array) (directory start n : ℕ) : Type 0 where
  pub off_directory : (start + n ≤ directory) ⊎ (directory + 4096 ≤ start)
  pub off_tables :
      (d : ℕ)
      → d < 1024
      → (start + n ≤ table_at mem directory d) ⊎ (table_at mem directory d + 4096 ≤ start)

module _ (mem : Array) (directory ptr size : ℕ) (off : IsOffTables mem directory ptr size) where
  entry_kept :
      (d : ℕ) → d < 1024 → cleared mem ptr size (directory + 4 * d) ≡ mem (directory + 4 * d)
  entry_kept d lt = ground (arith, off.off_directory, lt)

  -- Clearing a block that is off the tables leaves a directory one.
  pub cleared-IsDirectory : IsDirectory mem directory → IsDirectory (cleared mem ptr size) directory
  cleared-IsDirectory is = record {
    page = is.page;
    words = λ d lt. rw (entry_kept d lt) (is.words d lt);
    apart = λ d lt. rw (entry_kept d lt) (is.apart d lt);
    distinct = λ d e p q. rw (entry_kept d p, entry_kept e q) (is.distinct d e p q);
  }

  -- It leaves the entry of each page.
  pub get-cleared :
      (v : ℕ)
      → IsPage v
      → paging_get (cleared mem ptr size) directory v ≡ paging_get mem directory v
  unfolding paging_get paging_get_indexes
  get-cleared v on =
      let d : ℕ = v / 4194304 in
      let kept = entry_kept d (omega (arith, on.small)) in
      ground (arith, on.aligned, on.small, kept, off.off_tables d (omega (arith, on.small)))
