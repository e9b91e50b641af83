-- ===== src/Paging/Range.antt =====
-- paging_map, paging_map_range and paging_map_to of src/memory/paging/paging.c on whole ranges, and
-- the translation of paging_get_physical_address.
use udemy_kernel.Prelude.Bits.{bit_and_page, bit_or_page}
use udemy_kernel.Prelude.{
  ℕ, zero, suc, ◌+◌, ◌-◌, ◌*◌, ◌/◌, ◌%◌, ◌^◌, ◌<◌, ◌≤◌, ◌≡◌, ◌≢◌, ◌⊎◌, bit_or, Array, refl, Result,
  ok, err, einvarg, arith, ltb, leb, Bool-cases, inl, inr, ◌&&◌, if◌then◌else◌,
}
use udemy_kernel.Paging.{
  entry_address, paging_set, paging_get, paging_map, range_loop, paging_map_range, paging_map_to,
  paging_align_to_lower_page, paging_get_physical_address, paging_align_address,
}
use udemy_kernel.Paging.Entries.{IsDirectory, IsPage, set_lem}

-- In `after`, the `k` pages from `virt` on are those from `phys` on, with the flags, and every
-- other page is what it is in `mem`.
abbrev pub Maps : (mem after : Array) → (directory virt phys k flags : ℕ) → Type 0
Maps mem after directory virt phys k flags =
    (v : ℕ)
    → IsPage v
    → paging_get after directory v ≡ (
        if leb virt v && ltb v (virt + 4096 * k)
        then phys + (v - virt) + flags
        else paging_get mem directory v)

-- What a call that maps `k` pages gives.
pub record Mapped (mem : Array) (directory virt phys k flags : ℕ) (r : Result (Unit {0}) × Array)
    : Type 0 where
  pub status : r.0 ≡ ok tt
  pub maps : Maps mem r.1 directory virt phys k flags
  pub keeps : IsDirectory r.1 directory

pub map_lem :
    (mem : Array) (directory virt phys flags : ℕ)
    → IsDirectory mem directory
    → IsPage virt
    → phys % 4096 ≡ 0
    → flags < 4096
    → Mapped mem directory virt phys 1 flags (paging_map mem directory virt phys flags)
unfolding paging_map
map_lem mem directory virt phys flags is at aligned few =
    let whole : phys / 4096 * 4096 ≡ phys = omega (arith, aligned) in
    let entry : bit_or phys flags ≡ phys + flags =
      rw (← whole) (bit_or_page (phys / 4096) flags few) in
    let (status, after, keeps) = set_lem mem directory is virt (bit_or phys flags) at in
    let direct : paging_map mem directory virt phys flags
        ≡ paging_set mem directory virt (bit_or phys flags) =
      ground (arith, at.aligned, aligned) in
    rw direct (record {
      status = status;
      maps = λ v on. ground (arith, after v on, entry, at.aligned, on.aligned);
      keeps = keeps;
    })

-- One page, and `k` more from the next on.
Maps-append :
    (mem mid after : Array) (directory virt phys k flags : ℕ)
    → virt % 4096 ≡ 0
    → virt + 4096 * suc k ≤ 2 ^ 32
    → phys + 4096 * suc k ≤ 2 ^ 32
    → Maps mem mid directory virt phys 1 flags
    → Maps mid after directory ((virt + 4096) % 2 ^ 32) ((phys + 4096) % 2 ^ 32) k flags
    → Maps mem after directory virt phys (suc k) flags
Maps-append mem mid after directory virt phys k flags aligned room free first second v on =
    ground (arith, first v on, second v on, on.aligned)

range_step :
    (k : ℕ) (mem : Array) (directory virt phys flags : ℕ)
    → (paging_map mem directory virt phys flags).0 ≡ ok tt
    → range_loop (suc k) mem directory virt phys flags (ok tt)
      ≡ range_loop k
          (paging_map mem directory virt phys flags).1
          directory
          ((virt + 4096) % 2 ^ 32)
          ((phys + 4096) % 2 ^ 32)
          flags
          (ok tt)
unfolding range_loop
range_step k mem directory virt phys flags done = rw (range_loop, done, done) refl

range_loop_lem :
    (k : ℕ) (mem : Array) (directory virt phys flags : ℕ)
    → IsDirectory mem directory
    → virt % 4096 ≡ 0
    → phys % 4096 ≡ 0
    → virt + 4096 * k ≤ 2 ^ 32
    → phys + 4096 * k ≤ 2 ^ 32
    → flags < 4096
    → Mapped mem directory virt phys k flags (range_loop k mem directory virt phys flags (ok tt))
unfolding range_loop
range_loop_lem zero mem directory virt phys flags is at aligned room free few = record {
  status = refl;
  maps = λ v on. ground arith;
  keeps = is;
}
range_loop_lem (suc k) mem directory virt phys flags is at aligned room free few =
    let one =
      map_lem mem directory virt phys flags is (record { aligned = at; small = omega arith })
        aligned few in
    let mid : Array = (paging_map mem directory virt phys flags).1 in
    let rest =
      range_loop_lem k mid directory ((virt + 4096) % 2 ^ 32) ((phys + 4096) % 2 ^ 32) flags
        one.keeps (omega (arith, at)) (omega (arith, aligned)) (omega (arith, room))
        (omega (arith, free)) few in
    rw (range_step k mem directory virt phys flags one.status) (record {
      status = rest.status;
      maps =
          Maps-append mem mid
            (range_loop k mid directory ((virt + 4096) % 2 ^ 32) ((phys + 4096) % 2 ^ 32) flags
              (ok tt)).1
            directory virt phys k flags at room free one.maps rest.maps;
      keeps = rest.keeps;
    })

-- In a directory that fills a page and has 1024 tables in other pages of their own: where the
-- pages and their frames lie below 2^32, at aligned addresses, mapping `count` pages with flags
-- below 4096 succeeds. Afterwards the `count` pages from `virt` on are those from `phys` on, with
-- the flags, every other page is as it was, and the directory is one still.
pub map_range_lem :
    (mem : Array) (directory virt phys count flags : ℕ)
    → IsDirectory mem directory
    → virt % 4096 ≡ 0
    → phys % 4096 ≡ 0
    → virt + 4096 * count ≤ 2 ^ 32
    → phys + 4096 * count ≤ 2 ^ 32
    → flags < 4096
    → Mapped mem directory virt phys count flags
        (paging_map_range mem directory virt phys count flags)
unfolding paging_map_range
map_range_lem mem directory virt phys count flags =
    range_loop_lem count mem directory virt phys flags

-- A range that is not aligned to pages, or that ends before it starts, is refused with EINVARG, and
-- the memory is unchanged.
pub map_to_refused :
    (mem : Array) (directory virt phys phys_end flags : ℕ)
    → (virt % 4096 ≢ 0) ⊎ ((phys % 4096 ≢ 0) ⊎ ((phys_end % 4096 ≢ 0) ⊎ (phys_end < phys)))
    → paging_map_to mem directory virt phys phys_end flags ≡ (err einvarg, mem)
unfolding paging_map_to
map_to_refused mem directory virt phys phys_end flags bad = ground arith

-- Aligning an address up, below 2^32 - 4096, gives the first page that does not start before it.
pub align_address_lem :
    (ptr : ℕ)
    → ptr < 2 ^ 32 - 4096
    → (paging_align_address ptr % 4096 ≡ 0)
      × (ptr ≤ paging_align_address ptr)
      × (paging_align_address ptr < ptr + 4096)
unfolding paging_align_address
align_address_lem ptr small = ground arith

-- In a directory that fills a page and has 1024 tables in other pages of their own,
-- `paging_map_to` of an aligned range of frames, with flags below 4096, to aligned pages that fit
-- below 2^32 succeeds: then an address in the pages translates to the physical address as far
-- behind `phys`, and an address in any other page to what it did before.
pub map_to_translates :
    (mem : Array) (directory virt phys phys_end flags a : ℕ)
    → IsDirectory mem directory
    → virt % 4096 ≡ 0
    → phys % 4096 ≡ 0
    → phys_end % 4096 ≡ 0
    → phys ≤ phys_end
    → phys_end < 2 ^ 32
    → virt + (phys_end - phys) ≤ 2 ^ 32
    → flags < 4096
    → a < 2 ^ 32
    → ((paging_map_to mem directory virt phys phys_end flags).0 ≡ ok tt)
      × (paging_get_physical_address
            (paging_map_to mem directory virt phys phys_end flags).1
            directory
            a
          ≡ (if leb virt a && ltb a (virt + (phys_end - phys))
              then phys + (a - virt)
              else paging_get_physical_address mem directory a))
unfolding paging_map_to paging_get_physical_address paging_align_to_lower_page entry_address
map_to_translates mem directory virt phys phys_end flags a is at aligned end order small room few
      within =
    let count : ℕ = (phys_end - phys) / 4096 in
    let m =
      map_range_lem mem directory virt phys count flags is at aligned (omega (arith, end, aligned))
        (omega (arith, end, aligned)) few in
    let lower : ℕ = a - a % 4096 in
    let on : IsPage lower = record { aligned = omega arith; small = omega (arith, within) } in
    let inside : (leb virt a && ltb a (virt + (phys_end - phys)))
        ≡ (leb virt lower && ltb lower (virt + 4096 * count)) =
      ground (arith, at, aligned, end) in
    elim (Bool-cases (leb virt lower && ltb lower (virt + 4096 * count))) [
      | inl yes_ ↦
          let frame =
            bit_and_page (phys + (lower - virt) + flags) (ground (arith, yes_, aligned, end)) in
          ground (arith, m.status, m.maps lower on, inside, yes_, frame, at, aligned, end)
      | inr no_ ↦ ground (arith, m.status, m.maps lower on, inside, no_, at, aligned, end)
    ]
