-- ===== src/PathParser/Parse.antt =====
-- pathparser_parse of src/fs/pparser.c against the components of a path.
use udemy_kernel.Prelude.{
  ℕ, zero, suc, ◌-◌, ◌≤◌, ◌<◌, ◌≡◌, ◌≢◌, ◌↔◌, refl, ap, ◌∙◌, true, false, Bool-cases, inl, inr, ◌⊎◌,
  some, none, List, [], ◌∷◌, map, arith, length, pos, ◌==◌, ltb,
}
use udemy_kernel.Memory.{memcmp}
use udemy_kernel.Str.{isdigit, tonumericdigit}
use udemy_kernel.PathParser.{
  Allocator, PathPart, PathRoot, max_path, path_valid_format, get_drive_by_path, scan_part,
  get_path_part, parse_path_part, parse_parts, pathparser_parse,
}
use mathlib.Core.Path.{subst, sym}
use udemy_kernel.PathParser.Blocks.{Grants}
use udemy_kernel.PathParser.Split.{
  components, components-scan_part, scan_part_short, join, AreParts, components-join,
}

-- The sizes of the blocks for these parts: a string and a node for each.
abbrev pub part_sizes : List (List ℕ) → List ℕ
part_sizes [] = []
part_sizes (c ∷ parts) = max_path ∷ 8 ∷ part_sizes parts

-- The sizes of the blocks for the path behind its drive: the root, and its parts.
abbrev pub parse_sizes : (rest : List ℕ) → List ℕ
parse_sizes rest = 8 ∷ part_sizes (components rest)

abbrev pub part_bytes : PathPart → List ℕ
part_bytes p = p.bytes

module _ (A : Allocator) where
  open A use {State, kzalloc, kfree}

  -- The state after the two allocations of a part.
  abbrev pub after_part : State → State
  after_part s = (kzalloc 8 (kzalloc max_path s).1).1

  -- The part that those allocations hold.
  abbrev pub new_part : List ℕ → State → PathPart
  new_part path s = record {
    node = (kzalloc 8 (kzalloc max_path s).1).0;
    str = (kzalloc max_path s).0;
    bytes = (scan_part path).0;
  }

  pub part_none :
      (path : List ℕ) (s : State)
      → (length (scan_part path).0 == 0) ≡ true
      → parse_path_part A path s
        ≡ (none, (scan_part path).1, kfree (kzalloc max_path s).0 (kzalloc max_path s).1)
  unfolding parse_path_part get_path_part
  part_none path s empty = rw (empty, parse_path_part, get_path_part) refl

  module _ where
    pub part_some :
        (path : List ℕ) (s : State)
        → Grants A (max_path ∷ 8 ∷ []) s
        → (length (scan_part path).0 == 0) ≡ false
        → parse_path_part A path s ≡ (some (new_part path s), (scan_part path).1, after_part s)
    unfolding parse_path_part get_path_part
    part_some path s (room_str, (room_node, _)) found =
        let got : ((kzalloc max_path s).0 == 0) ≡ false = ground (arith, room_str) in
        let got_node : ((kzalloc 8 (kzalloc max_path s).1).0 == 0) ≡ false =
          ground (arith, room_node) in
        rw (found, got, got_node, parse_path_part, get_path_part) refl

    -- The blocks of the first part, and of the parts behind it.
    pub part_room :
        (path : List ℕ) (s : State)
        → (length (scan_part path).0 == 0) ≡ false
        → Grants A (part_sizes (components path)) s
        → Grants A (max_path ∷ 8 ∷ part_sizes (components (scan_part path).1)) s
    part_room path s found room =
        let shape : components path ≡ (scan_part path).0 ∷ components (scan_part path).1 =
          rw (components-scan_part path, found) refl in
        subst (λ (parts : List (List ℕ)). Grants A (part_sizes parts) s) shape room

    parse_parts-components :
        (fuel : ℕ) (path : List ℕ) (s : State)
        → Grants A (part_sizes (components path)) s
        → length path < fuel
        → (ps : List PathPart) × (s' : State) × (parse_parts A fuel path s ≡ some (ps, s'))
          × (map part_bytes ps ≡ components path)
    unfolding parse_parts
    parse_parts-components zero path s room enough = absurd (omega arith)
    parse_parts-components (suc fuel) path s room enough =
        elim (Bool-cases (length (scan_part path).0 == 0)) [
          | inl empty ↦ (
            [],
            kfree (kzalloc max_path s).0 (kzalloc max_path s).1,
            ground (arith, part_none path s empty),
            rw (components-scan_part path, empty) refl,
          )
          | inr found ↦
              let more = part_room path s found room in
              let (ps, s2, rest, same) =
                parse_parts-components fuel (scan_part path).1 (after_part s) (more.1.1)
                  (omega (arith, scan_part_short path found)) in
              (
                new_part path s ∷ ps,
                s2,
                ground (arith, part_some path s (more.0, (more.1.0, tt)) found, rest),
                rw (components-scan_part path, found)
                    (ap (λ (t : List (List ℕ)). (scan_part path).0 ∷ t) same),
              )
        ]

-- The format that the parser accepts: a digit, a colon, a slash, and any rest.
abbrev pub on_drive : ℕ → List ℕ → List ℕ
on_drive d rest = d ∷ b':' ∷ b'/' ∷ rest

pub digit_format :
    (d : ℕ) (rest : List ℕ) → 48 ≤ d → d ≤ 57 → path_valid_format (on_drive d rest) ≡ true
unfolding path_valid_format isdigit memcmp
digit_format d rest lo hi = ground arith

-- A path is accepted exactly if it is a digit, a colon, a slash and some rest.
pub path_valid_format_iff :
    (path : List ℕ)
    → (path_valid_format path ≡ true)
      ↔ ((d : ℕ) × (rest : List ℕ) × (path ≡ on_drive d rest) × (48 ≤ d) × (d ≤ 57))
unfolding path_valid_format isdigit memcmp
path_valid_format_iff path =
    (accepted path, λ (d, rest, e, lo, hi). rw e (digit_format d rest lo hi))
  where
    accepted :
        (p : List ℕ)
        → path_valid_format p ≡ true
        → (d : ℕ) × (rest : List ℕ) × (p ≡ on_drive d rest) × (48 ≤ d) × (d ≤ 57)
    accepted [] h = cc
    accepted (a ∷ []) h = cc
    accepted (a ∷ b ∷ []) h = cc
    accepted (a ∷ b ∷ c ∷ rest) h = (a, rest, ground arith, ground arith, ground arith)

module _ (A : Allocator) where
  -- Where the allocations for the root and for each part succeed, a path of at most 108 bytes that
  -- begins with a digit, a colon and a slash is parsed, given more fuel than it has bytes behind
  -- them: the root has the value of the digit for its drive, and the parts of the rest that stand
  -- between slashes, up to the first empty one.
  pub pathparser_parse-components :
      (fuel d : ℕ) (rest : List ℕ) (s : A.State)
      → Grants A (parse_sizes rest) s
      → 48 ≤ d
      → d ≤ 57
      → length (on_drive d rest) ≤ max_path
      → length rest < fuel
      → (root : PathRoot) × (s' : A.State) × (pathparser_parse A fuel (on_drive d rest) s
          ≡ some (some root, s'))
        × (root.drive_no ≡ pos (d - 48))
        × (map part_bytes root.parts ≡ components rest)
  unfolding pathparser_parse get_drive_by_path tonumericdigit
  pathparser_parse-components fuel d rest s room lo hi short enough =
      let address = (A.kzalloc 8 s).0 in
      let got : (address == 0) ≡ false = ground (arith, room.0) in
      let fits : ltb max_path (length (on_drive d rest)) ≡ false = ground arith in
      let (ps, s2, found, same) =
        parse_parts-components A fuel rest (A.kzalloc 8 s).1 room.1 enough in
      (
        record { address = address; drive_no = pos (d - 48); parts = ps },
        s2,
        ground (arith, fits, digit_format d rest lo hi, got, found),
        refl,
        same,
      )

  -- A path that is longer than 108 bytes, or does not begin with a digit, a colon and a slash,
  -- gives NULL, and nothing is allocated.
  pub pathparser_parse_refused :
      (fuel : ℕ) (path : List ℕ) (s : A.State)
      → (max_path < length path)
        ⊎ ((d : ℕ) (rest : List ℕ) → 48 ≤ d → d ≤ 57 → path ≢ on_drive d rest)
      → pathparser_parse A fuel path s ≡ some (none, s)
  unfolding pathparser_parse get_drive_by_path
  pathparser_parse_refused fuel path s (inl long) = ground arith
  pathparser_parse_refused fuel path s (inr other) = elim (Bool-cases (path_valid_format path)) [
    | inl good ↦
        let (d, rest, e, lo, hi) = (path_valid_format_iff path).0 good in
        absurd (other d rest lo hi e)
    | inr bad ↦ ground (arith, bad)
  ]

  -- Where the allocations for the root and for each part succeed, the text of a drive from 0 to 9
  -- and of parts, none of them empty or with a slash, is parsed back to that drive and those
  -- parts, if it has at most 108 bytes and the fuel is more than the length of the joined parts.
  pub parse-join :
      (fuel d : ℕ) (ps : List (List ℕ)) (s : A.State)
      → Grants A (8 ∷ part_sizes ps) s
      → 48 ≤ d
      → d ≤ 57
      → AreParts ps
      → length (on_drive d (join ps)) ≤ max_path
      → length (join ps) < fuel
      → (root : PathRoot) × (s' : A.State) × (pathparser_parse A fuel (on_drive d (join ps)) s
          ≡ some (some root, s'))
        × (root.drive_no ≡ pos (d - 48))
        × (map part_bytes root.parts ≡ ps)
  parse-join fuel d ps s room lo hi clean short enough =
      let (root, s', found, drive, same) =
        pathparser_parse-components fuel d (join ps) s
          (subst (λ (parts : List (List ℕ)). Grants A (8 ∷ part_sizes parts) s)
            (sym (components-join ps clean)) room)
          lo hi short enough in
      (root, s', found, drive, same ∙ components-join ps clean)
