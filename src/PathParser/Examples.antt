-- ===== src/PathParser/Examples.antt =====
-- The kernel's heap as it is when it starts, and the path "0:/ab/c" of src/fs/pparser.c parsed with
-- blocks of it.
use mathlib.Core.Path.{subst}
use mathlib.Core.List.{Perm}
use udemy_kernel.Prelude.{ℕ, ◌≡◌, sym, some, List, [], ◌∷◌, map, pos, arith}
use udemy_kernel.Heap.{heap_align_value_to_upper}
use udemy_kernel.KHeap.{Kernel, kheap_init}
use udemy_kernel.KHeap.Blocks.{kernel_blocks, Fit, kheap_init-HasRoom, kernel_blocks-Grants}
use udemy_kernel.PathParser.{PathRoot, pathparser_parse, pathparser_free}
use udemy_kernel.PathParser.Blocks.{Grants, blocks, after, free_all}
use udemy_kernel.PathParser.Split.{AreParts, components, join, components-join}
use udemy_kernel.PathParser.Parse.{
  on_drive, part_bytes, parse_sizes, part_sizes, pathparser_parse-components, parse-join,
}
use udemy_kernel.PathParser.Free.{last_part, free-parse}

abbrev pub before_start : Kernel
before_start = record {
  heap = record { table = record { entries = λ _. 0; below = λ _. 0; total = 0 }; saddr = 0 };
  mem = λ _. 0;
}

abbrev pub started : Kernel
started = (kheap_init before_start).0

-- The heap grants what 25600 blocks are enough for.
pub started-Grants : (sizes : List ℕ) → Fit sizes 25600 → Grants kernel_blocks sizes started
started-Grants sizes fit =
    kernel_blocks-Grants sizes started 0 25600 (kheap_init-HasRoom before_start) fit

-- "ab/c"
abbrev rest_text : List ℕ
rest_text = b'a' ∷ b'b' ∷ b'/' ∷ b'c' ∷ []

abbrev two_parts : List (List ℕ)
two_parts = (b'a' ∷ b'b' ∷ []) ∷ (b'c' ∷ []) ∷ []

two_parts-AreParts : AreParts two_parts
two_parts-AreParts = (
  (λ same. ground (arith, same)),
  (omega arith, (omega arith, tt)),
  ((λ same. ground (arith, same)), (omega arith, tt), tt),
)

two_parts-Grants : Grants kernel_blocks (8 ∷ part_sizes two_parts) started
unfolding heap_align_value_to_upper
two_parts-Grants = started-Grants (8 ∷ part_sizes two_parts) (
  omega arith,
  omega arith,
  omega arith,
  (
    omega arith,
    omega arith,
    omega arith,
    (
      omega arith,
      omega arith,
      omega arith,
      (omega arith, omega arith, omega arith, (omega arith, omega arith, omega arith, tt)),
    ),
  ),
)

rest-Grants : Grants kernel_blocks (parse_sizes rest_text) started
unfolding join
rest-Grants =
    subst (λ parts. Grants kernel_blocks (8 ∷ part_sizes parts) started)
      (sym (components-join two_parts two_parts-AreParts)) two_parts-Grants

pathparser_parse-components_example :
    (root : PathRoot) × (k : Kernel) × (pathparser_parse kernel_blocks 5
        (on_drive 48 rest_text)
        started
      ≡ some (some root, k))
    × (root.drive_no ≡ pos 0)
    × (map part_bytes root.parts ≡ components rest_text)
pathparser_parse-components_example =
    pathparser_parse-components kernel_blocks 5 48 rest_text started rest-Grants (omega arith)
      (omega arith) (omega arith) (omega arith)

parse-join_example :
    (root : PathRoot) × (k : Kernel) × (pathparser_parse kernel_blocks 5
        (on_drive 49 (join two_parts))
        started
      ≡ some (some root, k))
    × (root.drive_no ≡ pos 1)
    × (map part_bytes root.parts ≡ two_parts)
unfolding join
parse-join_example =
    parse-join kernel_blocks 5 49 two_parts started two_parts-Grants (omega arith) (omega arith)
      two_parts-AreParts (omega arith) (omega arith)

free-parse_example :
    (root : PathRoot) × (freed : List ℕ) × (pathparser_parse kernel_blocks 5
        (on_drive 48 rest_text)
        started
      ≡ some (
        some root,
        last_part kernel_blocks (after kernel_blocks (parse_sizes rest_text) started),
      ))
    × ((k : Kernel) → pathparser_free kernel_blocks root k ≡ free_all kernel_blocks freed k)
    × Perm freed (blocks kernel_blocks (parse_sizes rest_text) started)
free-parse_example =
    free-parse kernel_blocks 5 48 rest_text started rest-Grants (omega arith) (omega arith)
      (omega arith) (omega arith)
