-- ===== src/Paging/Entries.antt =====
-- What paging_set of src/memory/paging/paging.c does to the entries that paging_get reads.
use udemy_kernel.Prelude.Bits.{bit_and_page}
use udemy_kernel.Prelude.{
  ℕ, ◌+◌, ◌*◌, ◌/◌, ◌%◌, ◌^◌, ◌<◌, ◌≡◌, ◌≢◌, Array, update, ok, refl, arith, ◌==◌, if◌then◌else◌,
}
use udemy_kernel.Paging.{entry_address, slot, paging_set, paging_get}

-- The address that the `d`-th entry of the directory holds.
abbrev pub table_at : Array → (directory d : ℕ) → ℕ
table_at mem directory d = entry_address (mem (directory + 4 * d))

-- A directory of 1024 entries that fill a page, each for a table of its own in another page.
pub record IsDirectory (mem : Array) (directory : ℕ) : Type 0 where
  pub page : directory % 4096 ≡ 0
  pub words : (d : ℕ) → d < 1024 → mem (directory + 4 * d) < 2 ^ 32
  pub apart : (d : ℕ) → d < 1024 → table_at mem directory d ≢ directory
  pub distinct :
      (d e : ℕ) → d < 1024 → e < 1024 → table_at mem directory d ≡ table_at mem directory e → d ≡ e

-- A page-aligned 32-bit address.
pub record IsPage (virt : ℕ) : Type 0 where
  pub aligned : virt % 4096 ≡ 0
  pub small : virt < 2 ^ 32

table_page :
    (mem : Array) (directory d : ℕ)
    → mem (directory + 4 * d) < 2 ^ 32
    → table_at mem directory d % 4096 ≡ 0
unfolding entry_address
table_page mem directory d small = ground (arith, bit_and_page (mem (directory + 4 * d)) small)

module _ (mem : Array) (directory : ℕ) (is : IsDirectory mem directory) where
  -- Writing a table's entry leaves the directory as it was.
  set-entry :
      (d t val e : ℕ)
      → d < 1024
      → t < 1024
      → e < 1024
      → update mem (slot mem directory d t) val (directory + 4 * e) ≡ mem (directory + 4 * e)
  set-entry d t val e p q r =
      ground (arith, table_page mem directory d (is.words d p), is.page, is.apart d p)

  set_slot :
      (d t val e u : ℕ)
      → d < 1024
      → t < 1024
      → e < 1024
      → u < 1024
      → update mem
          (slot mem directory d t)
          val
          (slot (update mem (slot mem directory d t) val) directory e u)
        ≡ (if d == e
            then (if t == u then val else mem (slot mem directory e u))
            else mem (slot mem directory e u))
  set_slot d t val e u p q r s = rw (set-entry d t val e p q r) (
      ground (
        arith,
        table_page mem directory d (is.words d p),
        table_page mem directory e (is.words e r),
        is.distinct d e p r,
      ))

  set-IsDirectory :
      (d t val : ℕ)
      → d < 1024
      → t < 1024
      → IsDirectory (update mem (slot mem directory d t) val) directory
  set-IsDirectory d t val p q =
      let same = set-entry d t val in
      record {
        page = is.page;
        words = λ e r. rw (same e p q r) (is.words e r);
        apart = λ e r. rw (same e p q r) (is.apart e r);
        distinct = λ e f r s. rw (same e p q r, same f p q s) (is.distinct e f r s);
      }

  set_result :
      (virt val : ℕ)
      → IsPage virt
      → paging_set mem directory virt val
        ≡ (ok tt, update mem (slot mem directory (virt / 4194304) (virt % 4194304 / 4096)) val)
  unfolding paging_set
  set_result virt val at = ground (arith, at.aligned)

  get-set :
      (virt val v : ℕ)
      → IsPage virt
      → IsPage v
      → paging_get
          (update mem (slot mem directory (virt / 4194304) (virt % 4194304 / 4096)) val)
          directory
          v
        ≡ (if v == virt then val else paging_get mem directory v)
  unfolding paging_get
  get-set virt val v at on = ground (
    arith,
    at.aligned,
    at.small,
    on.aligned,
    on.small,
    set_slot (virt / 4194304) (virt % 4194304 / 4096) val (v / 4194304) (v % 4194304 / 4096)
        (omega (arith, at.small)) (omega arith) (omega (arith, on.small)) (omega arith),
  )

  -- Setting the entry of a page succeeds. From then on that page reads the new value and every
  -- other page the value that it had, and the directory is one still.
  pub set_lem :
      (virt val : ℕ)
      → IsPage virt
      → ((paging_set mem directory virt val).0 ≡ ok tt)
        × ((v : ℕ)
            → IsPage v
            → paging_get (paging_set mem directory virt val).1 directory v
              ≡ (if v == virt then val else paging_get mem directory v))
        × IsDirectory (paging_set mem directory virt val).1 directory
  set_lem virt val at = rw (set_result virt val at) (
    refl,
    λ v on. get-set virt val v at on,
    set-IsDirectory (virt / 4194304) (virt % 4194304 / 4096) val (omega (arith, at.small))
        (omega arith),
  )
