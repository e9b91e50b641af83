-- ===== src/Fat16/Directory/Count.antt =====
-- What fat16_get_total_items_for_directory of src/fs/fat/fat16.c counts.
use mathlib.Core.Path.{ap, subst}
use udemy_kernel.Prelude.{
  ℕ, zero, suc, ◌+◌, ◌*◌, ◌%◌, ◌^◌, ◌<◌, ◌≤◌, ◌≡◌, Option, Result, ◌∙◌, ap, ◌≢◌, refl, Array, ok,
  some, ◌==◌, if◌then◌else◌, arith, false,
}
use udemy_kernel.Disk.{Controller, DiskStream, the_disk}
use udemy_kernel.Disk.Stream.{stream_at, diskstreamer_read_lem}
use udemy_kernel.Fat16.{FatPrivate}
use udemy_kernel.Fat16.Directory.{count_items, fat16_get_total_items_for_directory}
use udemy_kernel.Fat16.Cluster.Chain.{seek_at}

-- The items that are in use among the `n` at the position `p` of the disk.
abbrev pub in_use : Controller → (p n : ℕ) → ℕ
in_use c p zero = 0
in_use c p (suc n) = (if c.image p == 0xE5 then 0 else 1) + in_use c (p + 32) n

here : (p : ℕ) → p + 32 * 0 ≡ p
here p = omega arith

-- The count `i`, with the stream at `x`.
abbrev result : (i x : ℕ) → Option (Result ℕ × DiskStream)
result i x = some (ok i, stream_at x)

zero_add : (n : ℕ) → 0 + n ≡ n
zero_add n = omega arith

counted : (i i' x x' : ℕ) → i ≡ i' → x ≡ x' → result i x ≡ result i' x'
counted i i' x x' same place = rw (same, place) refl

-- One round reads an item.
round :
    (c : Controller) (junk : Array) (fuel p : ℕ) (item : Array) (i : ℕ)
    → p + 1024 ≤ 2 ^ 31
    → (r : Array) × (count_items c junk (suc fuel) (stream_at p) item i ≡ (
        if c.image p == 0
        then some (ok i, stream_at (p + 32))
        else count_items c junk fuel
            (stream_at (p + 32))
            r
            (if c.image p == 0xE5 then i else i + 1)))
unfolding count_items
round c junk fuel p item i small =
    let (r, read, bytes) =
      diskstreamer_read_lem c junk 2 p 0 32 item (omega (arith, small)) (omega arith) in
    let first : r 0 ≡ c.image p = ground (arith, bytes 0) in (r, rw (count_items, read, first) refl)

count_items_lem :
    (c : Controller) (junk : Array) (fuel p n : ℕ) (item : Array) (i : ℕ)
    → n < fuel
    → p + 32 * n + 1024 ≤ 2 ^ 31
    → ((j : ℕ) → j < n → c.image (p + 32 * j) ≢ 0)
    → c.image (p + 32 * n) ≡ 0
    → count_items c junk fuel (stream_at p) item i
      ≡ some (ok (i + in_use c p n), stream_at (p + 32 * n + 32))
count_items_lem c junk zero p n item i enough small used end = absurd (omega (arith, enough))
count_items_lem c junk (suc fuel) p zero item i enough small used end =
    let (r, went) = round c junk fuel p item i (omega (arith, small)) in
    let stop : c.image p ≡ 0 = ground (arith, end, ap c.image (here p)) in
    went ∙ rw stop (counted i (i + 0) (p + 32) (p + 32 * 0 + 32) (omega arith) (omega arith))
count_items_lem c junk (suc fuel) p (suc n) item i enough small used end =
    let (r, went) = round c junk fuel p item i (omega (arith, small)) in
    let goes : (c.image p == 0) ≡ false = ground (arith, used 0, ap c.image (here p)) in
    let rest =
      count_items_lem c junk fuel (p + 32) n r (if c.image p == 0xE5 then i else i + 1)
        (omega (arith, enough)) (omega (arith, small))
        (λ j lt. subst (λ x. c.image x ≢ 0) (omega arith) (used (suc j) (omega (arith, lt))))
        (subst (λ x. c.image x ≡ 0) (omega arith) end) in
    went
    ∙ rw goes (
        rest
        ∙ counted ((if c.image p == 0xE5 then i else i + 1) + in_use c (p + 32) n)
            (i + in_use c p (suc n)) (p + 32 + 32 * n + 32) (p + 32 * suc n + 32) (ground arith)
            (omega arith))

-- A directory of `n` items that starts at a sector of the disk, with a first byte that is not 0,
-- and behind them one whose first byte is 0: given more fuel than `n`, the count is that of the
-- items that are not deleted.
pub get_total_items_lem :
    (c : Controller) (junk : Array) (fuel : ℕ) (p : FatPrivate) (sector n : ℕ)
    → p.directory_stream.disk ≡ the_disk
    → n < fuel
    → sector * 512 + 32 * n + 1024 ≤ 2 ^ 31
    → ((j : ℕ) → j < n → c.image (sector * 512 + 32 * j) ≢ 0)
    → c.image (sector * 512 + 32 * n) ≡ 0
    → (q : DiskStream) × (fat16_get_total_items_for_directory c junk fuel p sector
        ≡ some (ok (in_use c (sector * 512) n), record p { directory_stream = q }))
      × (q.disk ≡ the_disk)
unfolding fat16_get_total_items_for_directory
get_total_items_lem c junk fuel p sector n is enough small used end =
    let nowrap : sector * 512 % 2 ^ 32 ≡ sector * 512 = omega (arith, small) in
    (
      stream_at (sector * 512 + 32 * n + 32),
      rw
          (
            fat16_get_total_items_for_directory,
            nowrap,
            seek_at p.directory_stream (sector * 512) is,
            count_items_lem c junk fuel (sector * 512) n junk 0 enough small used end,
            zero_add (in_use c (sector * 512) n),
          )
          refl,
      refl,
    )
