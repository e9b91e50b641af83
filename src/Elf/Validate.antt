-- ===== src/Elf/Validate.antt =====
-- The checks of src/loader/formats/elfloader.c on the header of a file.
use udemy_kernel.Prelude.{
  ap, ◌&&◌, zero, suc, ℤ, negsuc, is_zero, ℕ, ◌<◌, ◌≡◌, ◌≢◌, ◌⊎◌, ◌↔◌, refl, inl, inr, Bool-cases,
  ok, err, einformat, pos, Array, arith, true,
}
use udemy_kernel.Memory.{memcmp}
use udemy_kernel.Memory.Laws.{memcmp_zero}
use udemy_kernel.PathParser.{char_at}
use udemy_kernel.Elf.{
  ElfHeader, elf_signature, elf_valid_signature, elf_valid_class, elf_valid_encoding,
  elf_has_program_header, elf_validate_loaded,
}

-- A header that the loader accepts.
pub record IsAccepted (header : ElfHeader) : Type 0 where
  pub signature : (j : ℕ) → j < 4 → header.e_ident j ≡ char_at elf_signature j
  pub class : (header.e_ident 4 ≡ 0) ⊎ (header.e_ident 4 ≡ 1)
  pub encoding : (header.e_ident 5 ≡ 0) ⊎ (header.e_ident 5 ≡ 1)
  pub headers : header.e_phoff ≢ 0

is_zero_lem : (z : ℤ) → is_zero z ≡ true → z ≡ pos 0
is_zero_lem (pos zero) is = refl
is_zero_lem (pos (suc n)) is = ground (arith, is)
is_zero_lem (negsuc n) is = ground (arith, is)

signature_lem :
    (buffer : Array)
    → (elf_valid_signature buffer ≡ true) ↔ ((j : ℕ) → j < 4 → buffer j ≡ char_at elf_signature j)
unfolding elf_valid_signature
signature_lem buffer = (
  λ valid j lt.
      (memcmp_zero buffer (char_at elf_signature) 4).0
        (is_zero_lem (memcmp buffer (char_at elf_signature) 4) valid) j (omega arith)
        (omega (arith, lt)),
  λ same.
      ap is_zero
        ((memcmp_zero buffer (char_at elf_signature) 4).1 (λ j lo hi. same j (omega (arith, hi)))),
)

class_lem :
    (header : ElfHeader)
    → (elf_valid_class header ≡ true) ↔ ((header.e_ident 4 ≡ 0) ⊎ (header.e_ident 4 ≡ 1))
unfolding elf_valid_class
class_lem header = (λ valid. ground (arith, valid), λ is. ground (arith, is))

encoding_lem :
    (header : ElfHeader)
    → (elf_valid_encoding header ≡ true) ↔ ((header.e_ident 5 ≡ 0) ⊎ (header.e_ident 5 ≡ 1))
unfolding elf_valid_encoding
encoding_lem header = (λ valid. ground (arith, valid), λ is. ground (arith, is))

-- A header passes the checks exactly when it begins with the signature, its class and its encoding
-- are those of 32-bit little-endian files or not given, and it has program headers; every other is
-- refused with EINFORMAT.
pub validate_lem :
    (header : ElfHeader)
    → ((elf_validate_loaded header ≡ ok tt) ↔ IsAccepted header)
      × ((elf_validate_loaded header ≡ ok tt) ⊎ (elf_validate_loaded header ≡ err einformat))
unfolding elf_validate_loaded elf_has_program_header
validate_lem header = (
  (
    λ valid. record {
      signature = (signature_lem header.e_ident).0 (ground (arith, valid));
      class = (class_lem header).0 (ground (arith, valid));
      encoding = (encoding_lem header).0 (ground (arith, valid));
      headers = ground (arith, valid);
    },
    λ a. ground (
      arith,
      (signature_lem header.e_ident).1 a.signature,
      (class_lem header).1 a.class,
      (encoding_lem header).1 a.encoding,
      a.headers,
    ),
  ),
  elim (Bool-cases (
      elf_valid_signature header.e_ident
      && (elf_valid_class header
          && (elf_valid_encoding header && elf_has_program_header header)))) [
            | inl yes_ ↦ inl (rw (elf_validate_loaded, yes_) refl)
            | inr no_ ↦ inr (rw (elf_validate_loaded, no_) refl)
          ],
)
