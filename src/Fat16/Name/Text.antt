-- ===== src/Fat16/Name/Text.antt =====
-- The text of the name that fat16_get_full_relative_filename of src/fs/fat/fat16.c writes.
use mathlib.Core.Path.{ap, subst}
use udemy_kernel.Prelude.{
  Bool-cases, inl, inr, Bool-cases, ℕ, zero, suc, ◌+◌, ◌-◌, ◌<◌, ◌≤◌, ◌≡◌, ◌&&◌, Bool, true, false,
  Array, update, ltb, leb, ◌==◌, if◌then◌else◌, arith,
}
use udemy_kernel.Memory.{memset}
use udemy_kernel.Memory.Laws.{memset_lem}
use udemy_kernel.Fat16.{FatDirectoryItem}
use udemy_kernel.Fat16.Name.{
  is_padding, proper_loop, fat16_to_proper_string, fat16_get_full_relative_filename,
}

-- From `i` on, the field has exactly `n` bytes in front of its padding or of the end of its `k`
-- bytes.
pub record HasLength (b : Array) (i k n : ℕ) : Type 0 where
  pub plain : (j : ℕ) → j < n → is_padding (b (i + j)) ≡ false
  pub fits : n ≤ k
  pub ended : n < k → is_padding (b (i + n)) ≡ true

rest-HasLength : (b : Array) (i k n : ℕ) → HasLength b i (suc k) (suc n) → HasLength b (i + 1) k n
rest-HasLength b i k n h =
    let one : (j : ℕ) → i + 1 + j ≡ i + suc j = λ j. omega arith in
    record {
      plain = λ j lt. rw (one j) (h.plain (suc j) (omega (arith, lt)));
      fits = omega (arith, h.fits);
      ended = λ lt. rw (one n) (h.ended (omega (arith, lt)));
    }

at_start : (b : Array) (i : ℕ) (v : Bool) → is_padding (b (i + 0)) ≡ v → is_padding (b i) ≡ v
at_start b i v is = subst (λ j. is_padding (b j) ≡ v) (omega arith) is

-- The byte written first, and those behind it.
later :
    (b : Array) (i o n : ℕ) (out r : Array) (j : ℕ)
    → r j ≡ (
        if leb (o + 1) j && ltb j (o + 1 + n)
        then b (i + 1 + (j - (o + 1)))
        else update out o (b i) j)
    → r j ≡ (if leb o j && ltb j (o + suc n) then b (i + (j - o)) else out j)
later b i o n out r j is = elim (Bool-cases (leb (o + 1) j)) [
  | inl past ↦
      let place : i + 1 + (j - (o + 1)) ≡ i + (j - o) = ground (arith, past) in
      ground (arith, is, past, ap b place)
  | inr before ↦ elim (Bool-cases (j == o)) [
    | inl at ↦
        let place : i + (j - o) ≡ i = ground (arith, at) in
        ground (arith, is, before, at, ap b place)
    | inr other ↦ ground (arith, is, before, other)
  ]
]

proper_loop_lem :
    (b : Array) (k i o n : ℕ) (out : Array)
    → HasLength b i k n
    → ((proper_loop b k i o out).0 ≡ o + n)
      × ((j : ℕ)
          → (proper_loop b k i o out).1 j
            ≡ (if leb o j && ltb j (o + n) then b (i + (j - o)) else out j))
unfolding proper_loop
proper_loop_lem b zero i o n out h =
    let none_left : n ≡ 0 = omega (arith, h.fits) in
    (omega (arith, none_left), λ j. ground (arith, none_left))
proper_loop_lem b (suc k) i o zero out h =
    let here : is_padding (b i) ≡ true = at_start b i true (h.ended (omega arith)) in
    (ground (arith, here), λ j. ground (arith, here))
proper_loop_lem b (suc k) i o (suc n) out h =
    let here : is_padding (b i) ≡ false = at_start b i false (h.plain 0 (omega arith)) in
    let (ends, bytes) =
      proper_loop_lem b k (i + 1) (o + 1) n (update out o (b i)) (rest-HasLength b i k n h) in
    (
      ground (arith, here, ends),
      λ j. ground (
        arith,
        here,
        later b i o n out (proper_loop b k (i + 1) (o + 1) (update out o (b i))).1 j (bytes j),
      ),
    )

pub to_proper_string_lem :
    (o size n : ℕ) (out input : Array)
    → HasLength input 0 size n
    → ((fat16_to_proper_string o out input size).0 ≡ o + n)
      × ((j : ℕ)
          → (fat16_to_proper_string o out input size).1 j
            ≡ (if leb o j && ltb j (o + n) then input (j - o) else if j == o + n then 0 else out j))
unfolding fat16_to_proper_string
to_proper_string_lem o size n out input h =
    let (ends, bytes) = proper_loop_lem input size 0 o n out h in
    (ends, λ j. ground (arith, ends, bytes j))

-- The byte `j` of a name with `f` there, where it has no extension, and where it has the byte `e`.
without_ext :
    (n m j f r : ℕ)
    → (m == 0) ≡ true
    → r ≡ (if ltb j n then f else 0)
    → r ≡ (if ltb j n then f else if m == 0 then 0 else if j == n then b'.' else 0)
without_ext n m j f r none_there is = ground (arith, none_there, is)

with_ext :
    (n m j f e r : ℕ) (first : Array)
    → (m == 0) ≡ false
    → first j ≡ (if ltb j n then f else 0)
    → r ≡ (
        if leb (n + 1) j && ltb j (n + 1 + m)
        then e
        else if j == n + 1 + m
        then 0
        else update first n b'.' j)
    → r ≡ (
        if ltb j n
        then f
        else if m == 0
        then 0
        else if j == n
        then b'.'
        else if leb (n + 1) j && ltb j (n + 1 + m)
        then e
        else 0)
with_ext n m j f e r first some_there named is = ground (arith, some_there, named, is)

-- The name of an item, whose name field has `n` bytes in front of its padding and whose extension
-- has `m`: in a buffer of more than 12 bytes, the string is the name, and, where there is an
-- extension, a dot and the extension; the rest of the buffer is 0.
pub full_relative_filename_lem :
    (item : FatDirectoryItem) (out : Array) (max_len n m j : ℕ)
    → HasLength item.filename 0 8 n
    → HasLength item.ext 0 3 m
    → 12 < max_len
    → j < max_len
    → fat16_get_full_relative_filename item out max_len j ≡ (
        if ltb j n
        then item.filename j
        else if m == 0
        then 0
        else if j == n
        then b'.'
        else if leb (n + 1) j && ltb j (n + 1 + m)
        then item.ext (j - (n + 1))
        else 0)
unfolding fat16_get_full_relative_filename
full_relative_filename_lem item out max_len n m j name ext room within =
    let blank : Array = memset out 0x00 max_len in
    let clear : blank j ≡ 0 = ground (arith, memset_lem out 0 max_len j, within) in
    let (o, named) = to_proper_string_lem 0 8 n blank item.filename name in
    let first : Array = (fat16_to_proper_string 0 blank item.filename 8).1 in
    let (_, full) = to_proper_string_lem (n + 1) 3 m (update first n b'.') item.ext ext in
    let base : first j ≡ (if ltb j n then item.filename j else 0) =
      ground (arith, named j, clear) in
    elim (Bool-cases (m == 0)) [
      | inl none_there ↦
          let padded : is_padding (item.ext 0) ≡ true =
            at_start item.ext 0 true (ground (arith, ext.ended, none_there)) in
          rw (fat16_get_full_relative_filename, padded) (ground (arith, none_there, base))
      | inr some_there ↦
          let plain : is_padding (item.ext 0) ≡ false = ext.plain 0 (ground (arith, some_there)) in
          let at : (fat16_to_proper_string 0 blank item.filename 8).0 ≡ n = omega (arith, o) in
          rw (fat16_get_full_relative_filename, plain, at)
            (with_ext n m j (item.filename j) (item.ext (j - (n + 1))) _ first some_there base
              (full j))
    ]
