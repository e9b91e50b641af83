-- ===== src/Fat32/Name/Text.antt =====
-- The bytes that transform_filename_to_fat of src/fs/fat/fat32.c makes of a name.
use mathlib.Core.Path.{subst}
use udemy_kernel.Prelude.{
  ℕ, zero, suc, ◌+◌, ◌-◌, ◌%◌, ◌^◌, ◌<◌, ◌≤◌, ◌≡◌, ◌≢◌, ◌⊎◌, inl, inr, ◌∙◌, ap, refl, Bool, true,
  false, some, Array, update, leb, ltb, ◌&&◌, ◌==◌, if◌then◌else◌, arith,
}
use udemy_kernel.Str.{toupper}
use udemy_kernel.Fat32.Name.{name_loop, blanks, transform_filename_to_fat}

-- `m` bytes of a name from `sp` on, neither a dot nor the terminator.
abbrev pub IsPlain : (src : Array) → (sp m : ℕ) → Type 0
IsPlain src sp m = (i : ℕ) → i < m → (src (sp + i) ≢ 0) × (src (sp + i) ≢ b'.')

-- `m` letters from `sp` on, written in capitals from `dp` on.
letters : (src : Array) → (m dp sp : ℕ) → Array → Array
letters src zero dp sp dest = dest
letters src (suc m) dp sp dest = letters src m (dp + 1) (sp + 1) (update dest dp (toupper (src sp)))

letters_lem :
    (src : Array) (m dp sp : ℕ) (dest : Array) (j : ℕ)
    → letters src m dp sp dest j
      ≡ (if leb dp j && ltb j (dp + m) then toupper (src (sp + (j - dp))) else dest j)
unfolding letters
letters_lem src zero dp sp dest j = ground arith
letters_lem src (suc m) dp sp dest j =
    ground (arith, letters_lem src m (dp + 1) (sp + 1) (update dest dp (toupper (src sp))) j)

step_place : (sp : ℕ) → sp + 0 ≡ sp
step_place sp = omega arith

run_step :
    (src : Array) (fuel : ℕ) (dest : Array) (dp sp : ℕ) (seen : Bool)
    → dp < 11
    → sp < 255
    → src sp ≢ 0
    → src sp ≢ b'.'
    → name_loop src (suc fuel) dest dp sp seen
      ≡ name_loop src fuel (update dest dp (toupper (src sp))) (dp + 1) (sp + 1) seen
unfolding name_loop
run_step src fuel dest dp sp seen room short not_end not_dot =
    let test : ltb dp 11 ≡ true = ground arith in
    let goes : (src sp == 0) ≡ false = ground arith in
    let plain : (src sp == b'.') ≡ false = ground arith in
    let dest_next : (dp + 1) % 2 ^ 8 ≡ dp + 1 = omega (arith, room) in
    let src_next : (sp + 1) % 2 ^ 8 ≡ sp + 1 = omega (arith, short) in
    rw (test, goes, plain, dest_next, src_next) refl

run :
    (src : Array) (m fuel : ℕ) (dest : Array) (dp sp : ℕ) (seen : Bool)
    → dp + m ≤ 11
    → sp + m ≤ 255
    → IsPlain src sp m
    → name_loop src (m + fuel) dest dp sp seen
      ≡ name_loop src fuel (letters src m dp sp dest) (dp + m) (sp + m) seen
unfolding letters
run src zero fuel dest dp sp seen room short plain =
    let none_more : 0 + fuel ≡ fuel = omega arith in
    rw (none_more, step_place dp, step_place sp) refl
run src (suc m) fuel dest dp sp seen room short plain =
    let shape : suc m + fuel ≡ suc (m + fuel) = omega arith in
    let here : src sp ≢ 0 × src sp ≢ b'.' =
      subst (λ x. (src x ≢ 0) × (src x ≢ b'.')) (step_place sp) (plain 0 (omega arith)) in
    let further : (x : ℕ) → x + 1 + m ≡ x + suc m = λ x. omega arith in
    let rest =
      run src m fuel (update dest dp (toupper (src sp))) (dp + 1) (sp + 1) seen
        (omega (arith, room)) (omega (arith, short))
        (λ i lt.
          subst (λ x. (src x ≢ 0) × (src x ≢ b'.')) (omega arith)
            (plain (suc i) (omega (arith, lt)))) in
    rw shape (
      run_step src (m + fuel) dest dp sp seen (omega (arith, room)) (omega (arith, short)) here.0
        here.1
      ∙ rest
      ∙ rw (further dp, further sp) refl)

end_step :
    (src : Array) (fuel : ℕ) (dest : Array) (dp sp : ℕ) (seen : Bool)
    → src sp ≡ 0
    → name_loop src (suc fuel) dest dp sp seen ≡ some dest
unfolding name_loop
end_step src fuel dest dp sp seen ends = ground arith

dot_step :
    (src : Array) (fuel : ℕ) (dest : Array) (dp sp : ℕ)
    → dp < 11
    → sp < 255
    → src sp ≡ b'.'
    → name_loop src (suc fuel) dest dp sp false ≡ name_loop src fuel dest 8 (sp + 1) true
unfolding name_loop
dot_step src fuel dest dp sp room short dot =
    let test : ltb dp 11 ≡ true = ground arith in
    let src_next : (sp + 1) % 2 ^ 8 ≡ sp + 1 = omega (arith, short) in rw (test, dot, src_next) refl

-- The end of a name behind its first `b` letters: the terminator, or a dot, an extension of `e`
-- letters and the terminator.
abbrev pub EndsName : (src : Array) (b e : ℕ) → Type 0
EndsName src b e =
    ((src b ≡ 0) × (e ≡ 0)) ⊎ ((src b ≡ b'.') × IsPlain src (b + 1) e × (src (b + 1 + e) ≡ 0))

-- The byte `j` of a name in a directory: the letters in capitals, filled up with spaces to 8, and
-- those of the extension, filled up to 3.
abbrev pub padded_name : (src : Array) (b e j : ℕ) → ℕ
padded_name src b e j =
    if ltb j b
    then toupper (src j)
    else if leb 8 j && ltb j (8 + e)
    then toupper (src (b + 1 + (j - 8)))
    else 0x20

behind_dot : (b i : ℕ) → 0 + b + 1 + i ≡ b + 1 + i
behind_dot b i = omega arith

place : (src : Array) (j : ℕ) → src (0 + (j - 0)) ≡ src j
place src j = ap src (omega arith)

-- A name of at most 8 letters, with an extension of at most 3 or with none, becomes the 11 bytes by
-- which a directory names it, given fuel for its letters, the dot and the terminator.
pub transform_filename_lem :
    (fuel : ℕ) (dest src : Array) (b e : ℕ)
    → b ≤ 8
    → e ≤ 3
    → IsPlain src 0 b
    → EndsName src b e
    → b + e + 2 ≤ fuel
    → (r : Array) × (transform_filename_to_fat fuel dest src ≡ some r)
      × ((j : ℕ) → j < 11 → r j ≡ padded_name src b e j)
unfolding transform_filename_to_fat
transform_filename_lem fuel dest src b e short ext plain (inl (ends, no_ext)) enough =
    let f : ℕ = fuel - b - 1 in
    let shape : fuel ≡ b + suc f = omega (arith, enough) in
    (
      letters src b 0 0 (blanks dest),
      ap (λ n. name_loop src n (blanks dest) 0 0 false) shape
          ∙ run src b (suc f) (blanks dest) 0 0 false (omega (arith, short)) (omega (arith, short))
              plain
          ∙ end_step src f (letters src b 0 0 (blanks dest)) (0 + b) (0 + b) false
              (subst (λ x. src x ≡ 0) (omega arith) ends),
      λ j lt. ground (arith, letters_lem src b 0 0 (blanks dest) j, no_ext, lt, place src j),
    )
transform_filename_lem fuel dest src b e short ext plain (inr (dot, ext_plain, ends)) enough =
    let f : ℕ = fuel - b - e - 2 in
    let shape : fuel ≡ b + suc (e + suc f) = omega (arith, enough) in
    let base = letters src b 0 0 (blanks dest) in
    (
      letters src e 8 (0 + b + 1) base,
      ap (λ n. name_loop src n (blanks dest) 0 0 false) shape
          ∙ run src b (suc (e + suc f)) (blanks dest) 0 0 false (omega (arith, short))
              (omega (arith, short)) plain
          ∙ dot_step src (e + suc f) base (0 + b) (0 + b) (omega (arith, short))
              (omega (arith, short)) (subst (λ x. src x ≡ b'.') (omega arith) dot)
          ∙ run src e (suc f) base 8 (0 + b + 1) true (omega (arith, ext))
              (omega (arith, ext, short)) (subst (λ x. IsPlain src x e) (omega arith) ext_plain)
          ∙ end_step src f (letters src e 8 (0 + b + 1) base) (8 + e) (0 + b + 1 + e) true
              (subst (λ x. src x ≡ 0) (omega arith) ends),
      λ j lt. ground (
        arith,
        letters_lem src b 0 0 (blanks dest) j,
        letters_lem src e 8 (0 + b + 1) base j,
        place src j,
        ap src (behind_dot b (j - 8)),
      ),
    )
