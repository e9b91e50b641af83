-- ===== src/PathParser/Free.antt =====
-- pathparser_free of src/fs/pparser.c: what a parse allocates is given back, each block once.
use mathlib.Core.Path.{subst}
use udemy_kernel.Str.{tonumericdigit}
use mathlib.Core.List.Perm
use mathlib.Core.List.{perm_middle, Perm}
use udemy_kernel.Prelude.{
  ◌≤◌, ltb, ℕ, zero, suc, ◌<◌, ◌≡◌, false, Bool-cases, inl, inr, some, refl, sym, ap, ◌∙◌, List, [],
  ◌∷◌, ◌++◌, arith, length, ◌==◌,
}
use udemy_kernel.PathParser.{
  Allocator, PathPart, PathRoot, scan_part, parse_parts, pathparser_parse, free_parts,
  pathparser_free, get_drive_by_path, max_path,
}
use udemy_kernel.PathParser.Blocks.{Grants, blocks, after, free_all}
use udemy_kernel.PathParser.Split.{scan_part_short, components, components-scan_part}
use udemy_kernel.PathParser.Parse.{
  digit_format, on_drive, part_none, part_some, new_part, after_part, part_sizes, parse_sizes,
  part_room,
}

-- The blocks of the parts, in the order in which they are allocated and freed.
abbrev pub part_blocks : List PathPart → List ℕ
part_blocks [] = []
part_blocks (p ∷ ps) = p.str ∷ p.node ∷ part_blocks ps

-- The string that is allocated for the empty part behind the last, and given back.
abbrev pub last_part : (A : Allocator) → A.State → A.State
last_part A s = A.kfree (A.kzalloc max_path s).0 (A.kzalloc max_path s).1

append_nil : (l : List ℕ) → l ++ [] ≡ l
append_nil [] = refl
append_nil (a ∷ l) = ap (λ (m : List ℕ). a ∷ m) (append_nil l)

module _ (A : Allocator) where
  free_parts_lem :
      (ps : List PathPart) (s : A.State) → free_parts A ps s ≡ free_all A (part_blocks ps) s
  unfolding free_parts
  free_parts_lem [] s = refl
  free_parts_lem (p ∷ ps) s = free_parts_lem ps (A.kfree p.node (A.kfree p.str s))

  free_all_last :
      (l : List ℕ) (a : ℕ) (s : A.State) → free_all A (l ++ a ∷ []) s ≡ A.kfree a (free_all A l s)
  free_all_last [] a s = refl
  free_all_last (b ∷ l) a s = free_all_last l a (A.kfree b s)

  parts_lem :
      (fuel : ℕ) (path : List ℕ) (s : A.State)
      → Grants A (part_sizes (components path)) s
      → length path < fuel
      → (ps : List PathPart) × (parse_parts A fuel path s
          ≡ some (ps, last_part A (after A (part_sizes (components path)) s)))
        × (part_blocks ps ≡ blocks A (part_sizes (components path)) s)
  unfolding parse_parts
  parts_lem zero path s room enough = absurd (omega arith)
  parts_lem (suc fuel) path s room enough = elim (Bool-cases (length (scan_part path).0 == 0)) [
    | inl empty ↦
        let shape : components path ≡ [] = rw (components-scan_part path, empty) refl in
        ([], rw shape (ground (arith, part_none A path s empty)), rw shape refl)
    | inr found ↦
        let shape : components path ≡ (scan_part path).0 ∷ components (scan_part path).1 =
          rw (components-scan_part path, found) refl in
        let more = part_room A path s found room in
        let (ps, rest, same) =
          parts_lem fuel (scan_part path).1 (after_part A s) (more.1.1)
            (omega (arith, scan_part_short path found)) in
        let p = new_part A path s in
        (
          p ∷ ps,
          rw shape (ground (arith, part_some A path s (more.0, (more.1.0, tt)) found, rest)),
          rw shape (ap (λ (l : List ℕ). p.str ∷ p.node ∷ l) same),
        )
  ]

  -- Where the allocations for the root and for each part succeed, and given more fuel than the path
  -- has bytes behind its drive: the parse of a path of the accepted form, of at most 108 bytes,
  -- requests those blocks and one more, which it gives back itself; and freeing what it returned
  -- frees each block that is left exactly once, and nothing else.
  pub free-parse :
      (fuel d : ℕ) (rest : List ℕ) (s : A.State)
      → Grants A (parse_sizes rest) s
      → 48 ≤ d
      → d ≤ 57
      → length (on_drive d rest) ≤ max_path
      → length rest < fuel
      → (root : PathRoot) × (freed : List ℕ) × (pathparser_parse A fuel (on_drive d rest) s
          ≡ some (some root, last_part A (after A (parse_sizes rest) s)))
        × ((s' : A.State) → pathparser_free A root s' ≡ free_all A freed s')
        × Perm freed (blocks A (parse_sizes rest) s)
  unfolding pathparser_parse get_drive_by_path pathparser_free
  free-parse fuel d rest s room lo hi short enough =
      let address = (A.kzalloc 8 s).0 in
      let got : (address == 0) ≡ false = ground (arith, room.0) in
      let fits : ltb max_path (length (on_drive d rest)) ≡ false = ground arith in
      let (ps, found, same) = parts_lem fuel rest (A.kzalloc 8 s).1 room.1 enough in
      let freed = part_blocks ps ++ address ∷ [] in
      (
        record { address = address; drive_no = tonumericdigit d; parts = ps },
        freed,
        ground (arith, fits, digit_format d rest lo hi, got, found),
        λ s'.
            ap (A.kfree address) (free_parts_lem ps s')
            ∙ sym (free_all_last (part_blocks ps) address s'),
        subst (λ l. Perm freed (address ∷ l)) same
            (Perm.trans (perm_middle (part_blocks ps) [])
              (rw (append_nil (part_blocks ps)) (Perm.refl _))),
      )
