-- ===== src/Fat32/Name.antt =====
-- transform_filename_to_fat of src/fs/fat/fat32.c: a name as the 11 bytes of a directory item. The
-- two positions are uint8_t. `none` is fuel that runs out.
pub mod Text
use udemy_kernel.Prelude.{
  ℕ, zero, suc, ◌+◌, ◌%◌, ◌^◌, Bool, true, false, Option, none, some, Array, update, ltb, ◌==◌,
  if◌then◌else◌,
}
use udemy_kernel.Str.{toupper}

-- The loop that fills `dest` with spaces, with `k` rounds left.
abbrev pub blanks : (dest : Array) → Array
blanks dest i = if ltb i 11 then 0x20 else dest i

-- The `while` loop.
unfoldable pub name_loop :
    (src : Array)
    → (fuel : ℕ) → (dest : Array) → (dest_pos src_pos : ℕ) → (is_dot_seen : Bool) → Option Array
name_loop src zero dest dest_pos src_pos seen = none
name_loop src (suc fuel) dest dest_pos src_pos seen =
    let next = (src_pos + 1) % 2 ^ 8 in
    let dot = name_loop src fuel dest (if seen then dest_pos else 8) next true in
    let letter =
      name_loop src fuel (update dest dest_pos (toupper (src src_pos))) ((dest_pos + 1) % 2 ^ 8)
        next seen in
    if ltb dest_pos 11
    then (if src src_pos == 0 then some dest else if src src_pos == b'.' then dot else letter)
    else some dest

unfoldable pub transform_filename_to_fat : (fuel : ℕ) → (dest src : Array) → Option Array
unfolding name_loop
transform_filename_to_fat fuel dest src = name_loop src fuel (blanks dest) 0 0 false
