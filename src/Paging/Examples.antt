-- ===== src/Paging/Examples.antt =====
-- A directory at 4096 whose 1024 tables follow it in memory, and calls of
-- src/memory/paging/paging.c on it.
use udemy_kernel.Prelude.Bits.{bit_and_page}
use udemy_kernel.Prelude.{
  ℕ, ◌+◌, ◌-◌, ◌*◌, ◌/◌, ◌<◌, ◌≡◌, ◌&&◌, refl, Array, ok, arith, ltb, leb, if◌then◌else◌,
}
use udemy_kernel.Paging.{entry_address, paging_map_to, paging_get_physical_address}
use udemy_kernel.Paging.Build.{paging_new_4gb}
use udemy_kernel.KHeap.Blocks.{kernel_blocks, kheap_init-HasRoom}
use udemy_kernel.KHeap.Laws.{kheap_init_lem}
use udemy_kernel.KHeap.Pages.{PagesLeft, kernel-GivesPages}
use udemy_kernel.PathParser.Examples.{before_start, started}
use udemy_kernel.Paging.Build.Identity.{IsIdentity, new_4gb-IsIdentity}
use udemy_kernel.Paging.Entries.{IsDirectory}
use udemy_kernel.Paging.Range.{map_to_translates}

-- The words of the directory hold the addresses of the tables, and every other word is 0.
abbrev tables : Array
tables a = if leb 4096 a && ltb a 8192 then (a - 4096) / 4 * 4096 + 8192 else 0

entry_at : (d : ℕ) → d < 1024 → entry_address (tables (4096 + 4 * d)) ≡ d * 4096 + 8192
unfolding entry_address
entry_at d small =
    let word : tables (4096 + 4 * d) ≡ d * 4096 + 8192 = ground arith in
    rw word (omega (arith, bit_and_page (d * 4096 + 8192) (omega arith)))

tables-IsDirectory : IsDirectory tables 4096
tables-IsDirectory = record {
  page = refl;
  words = λ d small. ground arith;
  apart = λ d small. ground (arith, entry_at d small);
  distinct = λ d e p q. ground (arith, entry_at d p, entry_at e q);
}

map_to_translates_example :
    ((paging_map_to tables 4096 0x400000 0x1000000 0x1004000 7).0 ≡ ok tt)
    × (paging_get_physical_address
          (paging_map_to tables 4096 0x400000 0x1000000 0x1004000 7).1
          4096
          0x401234
        ≡ 0x1001234)
map_to_translates_example =
    map_to_translates tables 4096 0x400000 0x1000000 0x1004000 7 0x401234 tables-IsDirectory refl
      refl refl (omega arith) (omega arith) (omega arith) (omega arith) (omega arith)

-- The kernel's heap as it is when it starts.
started-PagesLeft : PagesLeft started 1026
started-PagesLeft =
    let (_, saddr, _, _) = kheap_init_lem before_start in
    let all = kheap_init-HasRoom before_start in
    record {
      from = 0;
      aligned = rw saddr refl;
      room = record {
        in_memory = all.in_memory;
        start = all.start;
        fits = omega (arith, all.fits);
        run = λ j lo hi. all.run j lo (omega (arith, hi));
      };
    }

new_4gb-IsIdentity_example :
    IsIdentity
      (paging_new_4gb kernel_blocks 7 started (λ _. 5)).2
      (paging_new_4gb kernel_blocks 7 started (λ _. 5)).0
      7
new_4gb-IsIdentity_example =
    new_4gb-IsIdentity kernel_blocks kernel-GivesPages 7 started (λ _. 5) started-PagesLeft
      (omega arith)
