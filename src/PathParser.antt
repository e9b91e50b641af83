-- ===== src/PathParser.antt =====
-- src/fs/pparser.c: a path such as "0:/dir/file" as a drive number and a list of parts. A C string
-- is the list of its bytes in front of the terminator, and a pointer into it is the rest of that
-- list. The kernel's allocator is an interface, so that a failed allocation shows in the result.
pub mod Examples
pub mod Split
pub mod Blocks
pub mod Parse
pub mod Free
use udemy_kernel.Prelude.{
  is_zero, false, true, ℕ, zero, suc, ◌+◌, ◌≤◌, Bool, ◌&&◌, ◌||◌, not, Option, none, some, List, [],
  ◌∷◌, Array, ℤ, pos, negsuc, Result, ok, err, ebadpath, length, get_or, ltb, leb, ◌==◌,
  if◌then◌else◌,
}
use udemy_kernel.Memory.{memcmp}
use udemy_kernel.Str.{isdigit, tonumericdigit}

abbrev pub max_path : ℕ
max_path = 108

-- `kzalloc` returns an address, 0 for NULL.
pub record Allocator : Type 1 where
  pub State : Type 0
  pub kzalloc : ℕ → State → ℕ × State
  pub kfree : ℕ → State → State

-- `node` is the address of the `struct path_part`, `str` that of its string, `bytes` the string.
pub record PathPart : Type 0 where
  pub node : ℕ
  pub str : ℕ
  pub bytes : List ℕ

pub record PathRoot : Type 0 where
  pub address : ℕ
  pub drive_no : ℤ
  pub parts : List PathPart

-- s[i], with the terminator behind the bytes.
abbrev pub char_at : List ℕ → Array
char_at s i = get_or s i 0

abbrev separator : List ℕ
separator = b':' ∷ b'/' ∷ []

-- `strnlen(filename, PEACHOS_MAX_PATH)` is the length or 108, so the test on it is one on the
-- length.
unfoldable pub path_valid_format : List ℕ → Bool
path_valid_format filename =
    let len = if ltb max_path (length filename) then max_path else length filename in
    leb 3 len
    && (isdigit (char_at filename 0)
        && is_zero (memcmp (λ i. char_at filename (1 + i)) (char_at separator) 2))

-- `*path += 3`.
abbrev skip_3 : List ℕ → List ℕ
skip_3 (a ∷ b ∷ c ∷ rest) = rest
skip_3 short = []

unfoldable pub get_drive_by_path : List ℕ → Result (ℤ × List ℕ)
unfolding path_valid_format
get_drive_by_path path =
    if not (path_valid_format path)
    then err ebadpath
    else ok (tonumericdigit (char_at path 0), skip_3 path)

-- The loop of `pathparser_get_path_part`, and the step over the slash: the bytes of the part and
-- the path behind it.
unfoldable pub scan_part : List ℕ → List ℕ × List ℕ
scan_part [] = ([], [])
scan_part (c ∷ path) =
    let (bytes, rest) = scan_part path in if c == b'/' then ([], path) else (c ∷ bytes, rest)

module _ (A : Allocator) where
  open A use {State, kzalloc, kfree}

  -- The address and the bytes of the part, address 0 for NULL; the path behind it.
  unfoldable pub get_path_part : List ℕ → State → (ℕ × List ℕ) × List ℕ × State
  unfolding scan_part
  get_path_part path s =
      let (str, s1) = kzalloc max_path s in
      let (bytes, rest) = scan_part path in
      if length bytes == 0 then ((0, []), rest, kfree str s1) else ((str, bytes), rest, s1)

  -- `none` for NULL. The writes through a failed allocation of the part are not modelled.
  unfoldable pub parse_path_part : List ℕ → State → Option PathPart × List ℕ × State
  parse_path_part path s =
      let ((str, bytes), rest, s1) = get_path_part path s in
      if str == 0
      then (none, rest, s1)
      else let (node, s2) = kzalloc 8 s1 in
        if node == 0
        then (none, rest, s2)
        else (some (record { node = node; str = str; bytes = bytes }), rest, s2)

  -- The parts, from the first on; `none` when the fuel runs out.
  unfoldable pub parse_parts : (fuel : ℕ) → List ℕ → State → Option (List PathPart × State)
  parse_parts zero path s = none
  parse_parts (suc fuel) path s =
      let (part, rest, s1) = parse_path_part path s in
      elim part [
        | none ↦ some ([], s1)
        | some p ↦ elim (parse_parts fuel rest s1) [
          | none ↦ none
          | some (ps, s2) ↦ some (p ∷ ps, s2)
        ]
      ]

  -- `none` when the fuel runs out; inside, `none` for NULL.
  unfoldable pub pathparser_parse : (fuel : ℕ) → List ℕ → State → Option (Option PathRoot × State)
  pathparser_parse fuel path s =
      if ltb max_path (length path) then some (none, s) else elim (get_drive_by_path path) [
        | err e ↦ some (none, s)
        | ok (drive, rest) ↦
            let (address, s1) = kzalloc 8 s in
            if address == 0 then some (none, s1) else elim (parse_parts fuel rest s1) [
              | none ↦ none
              | some (parts, s2) ↦
                  some (some (record { address = address; drive_no = drive; parts = parts }), s2)
            ]
      ]

  unfoldable pub free_parts : List PathPart → State → State
  free_parts [] s = s
  free_parts (p ∷ ps) s = free_parts ps (kfree p.node (kfree p.str s))

  unfoldable pub pathparser_free : PathRoot → State → State
  unfolding free_parts
  pathparser_free root s = kfree root.address (free_parts root.parts s)
