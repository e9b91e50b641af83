-- ===== src/Gdt.antt =====
-- src/gdt/gdt.c and gdt.h: the eight bytes of a segment descriptor.
mod Examples
pub mod Decode
use udemy_kernel.Prelude.{
  ℕ, suc, ◌+◌, ◌*◌, ◌/◌, ◌%◌, ◌^◌, bit_or, Option, none, some, List, [], ◌∷◌, Array, update, ltb,
  ◌==◌, ◌&&◌, not, if◌then◌else◌,
}

pub record GdtStructured : Type 0 where
  pub base : ℕ
  pub limit : ℕ
  pub type : ℕ

-- The writes of `encodeGdtEntry` at `target`, for the limit and the flags that its test chooses.
-- A shift by 8 k and a mask of 8 bits are written as `/` and `%`.
write_entry : (target : ℕ) → GdtStructured → (limit flags : ℕ) → Array → Array
write_entry target source limit flags gdt =
    let g0 = update gdt (target + 6) flags in
    let g1 = update g0 (target + 0) (limit % 2 ^ 8) in
    let g2 = update g1 (target + 1) (limit / 2 ^ 8 % 2 ^ 8) in
    let g3 = update g2 (target + 6) (bit_or (g2 (target + 6)) (limit / 2 ^ 16 % 2 ^ 4)) in
    let g4 = update g3 (target + 2) (source.base % 2 ^ 8) in
    let g5 = update g4 (target + 3) (source.base / 2 ^ 8 % 2 ^ 8) in
    let g6 = update g5 (target + 4) (source.base / 2 ^ 16 % 2 ^ 8) in
    let g7 = update g6 (target + 7) (source.base / 2 ^ 24 % 2 ^ 8) in
    update g7 (target + 5) source.type

-- `none` is the panic, which does not return.
unfoldable pub encode_gdt_entry : (target : ℕ) → GdtStructured → Array → Option Array
unfolding write_entry
encode_gdt_entry target source gdt =
    if ltb 65536 source.limit && not (source.limit % 2 ^ 12 == 0xFFF)
    then none
    else if ltb 65536 source.limit
    then some (write_entry target source (source.limit / 2 ^ 12) 0xC0 gdt)
    else some (write_entry target source source.limit 0x40 gdt)

-- The loop from entry `i` on, over the entries that are left.
unfoldable pub gdt_structured_to_gdt : (i : ℕ) → List GdtStructured → Array → Option Array
gdt_structured_to_gdt i [] gdt = some gdt
gdt_structured_to_gdt i (entry ∷ rest) gdt = elim (encode_gdt_entry (8 * i) entry gdt) [
  | none ↦ none
  | some gdt' ↦ gdt_structured_to_gdt (i + 1) rest gdt'
]
