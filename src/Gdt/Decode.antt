-- ===== src/Gdt/Decode.antt =====
-- The processor's reading of a segment descriptor, against the bytes that src/gdt/gdt.c writes.
use udemy_kernel.Prelude.{
  ◌∙◌, ◌≤◌, ◌⊎◌, inl, inr, List, [], ◌∷◌, some, none, Bool-cases, ◌≢◌, refl, ℕ, ◌+◌, ◌*◌, ◌/◌, ◌%◌,
  ◌^◌, ◌≤◌, ◌<◌, ◌≡◌, ◌⊎◌, Array, leb, if◌then◌else◌, arith,
}
use udemy_kernel.Prelude.Bits.{bit_or-shl}
use udemy_kernel.Gdt.{ltb, encode_gdt_entry, gdt_structured_to_gdt, GdtStructured, write_entry}

-- The fields of the descriptor at `o`, as the processor takes them from its bytes.
abbrev pub decode_base : Array → ℕ → ℕ
decode_base g o = g (o + 2) + g (o + 3) * 2 ^ 8 + g (o + 4) * 2 ^ 16 + g (o + 7) * 2 ^ 24

abbrev pub raw_limit : Array → ℕ → ℕ
raw_limit g o = g (o + 0) + g (o + 1) * 2 ^ 8 + g (o + 6) % 16 * 2 ^ 16

-- With the granularity flag the limit counts pages of 4096 bytes.
abbrev pub decode_limit : Array → ℕ → ℕ
decode_limit g o = if leb 128 (g (o + 6)) then raw_limit g o * 4096 + 4095 else raw_limit g o

-- An entry that can be encoded: a limit above 65536 is one less than a multiple of 4096.
pub record IsEncodable (s : GdtStructured) : Type 0 where
  pub base : s.base < 2 ^ 32
  pub limit : s.limit < 2 ^ 32
  pub paged : (s.limit ≤ 65536) ⊎ (s.limit % 4096 ≡ 4095)

-- The descriptor at `o` says what the entry says, and has the size flag.
pub record Describes (g : Array) (o : ℕ) (s : GdtStructured) : Type 0 where
  pub base : decode_base g o ≡ s.base
  pub limit : decode_limit g o ≡ s.limit
  pub type : g (o + 5) ≡ s.type
  pub sized : g (o + 6) / 64 % 2 ≡ 1

module _ (o : ℕ) (s : GdtStructured) (g : Array) (fits : IsEncodable s) where
  written_small : s.limit ≤ 65536 → Describes (write_entry o s s.limit 0x40 g) o s
  unfolding write_entry
  written_small small =
      let flags = bit_or-shl 6 1 (s.limit / 2 ^ 16 % 2 ^ 4) (omega arith) in
      record {
        base = ground (arith, fits.base);
        limit = ground (arith, flags);
        type = ground arith;
        sized = ground (arith, flags);
      }

  written_large : s.limit % 4096 ≡ 4095 → Describes (write_entry o s (s.limit / 2 ^ 12) 0xC0 g) o s
  unfolding write_entry
  written_large paged =
      let flags = bit_or-shl 6 3 (s.limit / 2 ^ 12 / 2 ^ 16 % 2 ^ 4) (omega arith) in
      record {
        base = ground (arith, fits.base);
        limit = ground (arith, flags, fits.limit);
        type = ground arith;
        sized = ground (arith, flags);
      }

  written_outside :
      (limit flags j : ℕ) → (j < o) ⊎ (o + 8 ≤ j) → write_entry o s limit flags g j ≡ g j
  unfolding write_entry
  written_outside limit flags j out = ground arith

-- The result of encoding `s` at `o`: it describes the entry, and other bytes are as they were.
abbrev pub Encoded : (o : ℕ) → GdtStructured → (g g' : Array) → Type 0
Encoded o s g g' = Describes g' o s × ((j : ℕ) → (j < o) ⊎ (o + 8 ≤ j) → g' j ≡ g j)

-- An entry whose limit is at most 65536 or one less than a multiple of 4096 is encoded without a
-- panic: the processor reads the same base, limit and type from the eight bytes at `o`, and no
-- other byte changes.
pub encode_gdt_entry_lem :
    (o : ℕ) (s : GdtStructured) (g : Array)
    → IsEncodable s
    → (g' : Array) × (encode_gdt_entry o s g ≡ some g') × Encoded o s g g'
unfolding encode_gdt_entry
encode_gdt_entry_lem o s g fits = elim (Bool-cases (ltb 65536 s.limit)) [
  | inr small ↦ (
    write_entry o s s.limit 0x40 g,
    rw small refl,
    (written_small o s g fits (ground arith), written_outside o s g fits s.limit 0x40),
  )
  | inl large ↦
      let paged : s.limit % 4096 ≡ 4095 = ground (arith, fits.paged) in
      (
        write_entry o s (s.limit / 2 ^ 12) 0xC0 g,
        ground (arith, paged),
        (written_large o s g fits paged, written_outside o s g fits (s.limit / 2 ^ 12) 0xC0),
      )
]

-- Any other limit ends in the panic.
pub encode_gdt_entry_panic :
    (o : ℕ) (s : GdtStructured) (g : Array)
    → 65536 < s.limit
    → s.limit % 4096 ≢ 4095
    → encode_gdt_entry o s g ≡ none
unfolding encode_gdt_entry
encode_gdt_entry_panic o s g large odd = ground arith

-- The descriptors from entry `i` on describe the entries of the list.
abbrev pub DescribesAll : Array → (i : ℕ) → List GdtStructured → Type 0
DescribesAll g i [] = Unit
DescribesAll g i (s ∷ rest) = Describes g (8 * i) s × DescribesAll g (i + 1) rest

abbrev pub AllEncodable : List GdtStructured → Type 0
AllEncodable [] = Unit
AllEncodable (s ∷ rest) = IsEncodable s × AllEncodable rest

Describes-frame :
    (g f : Array) (o : ℕ) (s : GdtStructured)
    → ((j : ℕ) → j < o + 8 → f j ≡ g j)
    → Describes g o s
    → Describes f o s
Describes-frame g f o s same d =
    let b0 = same (o + 0) (omega arith) in
    let b1 = same (o + 1) (omega arith) in
    let b2 = same (o + 2) (omega arith) in
    let b3 = same (o + 3) (omega arith) in
    let b4 = same (o + 4) (omega arith) in
    let b5 = same (o + 5) (omega arith) in
    let b6 = same (o + 6) (omega arith) in
    let b7 = same (o + 7) (omega arith) in
    record {
      base = rw (b2, b3, b4, b7) d.base;
      limit = rw (b0, b1, b6) d.limit;
      type = rw b5 d.type;
      sized = rw b6 d.sized;
    }

-- A table of entries, each with a base and a limit of 32 bits and a limit that is at most 65536
-- or one less than a multiple of 4096, is encoded without a panic, and the processor reads every
-- entry back from its place; bytes in front of the first are as they were.
pub gdt_structured_to_gdt_lem :
    (i : ℕ) (l : List GdtStructured) (g : Array)
    → AllEncodable l
    → (g' : Array) × (gdt_structured_to_gdt i l g ≡ some g')
      × DescribesAll g' i l
      × ((j : ℕ) → j < 8 * i → g' j ≡ g j)
unfolding gdt_structured_to_gdt
gdt_structured_to_gdt_lem i [] g fits = (g, refl, tt, λ j lt. refl)
gdt_structured_to_gdt_lem i (s ∷ rest) g (fits, more) =
    let (g1, done, (d, out)) = encode_gdt_entry_lem (8 * i) s g fits in
    let (g2, all, ds, below) = gdt_structured_to_gdt_lem (i + 1) rest g1 more in
    (
      g2,
      rw (done, gdt_structured_to_gdt) all,
      (Describes-frame g1 g2 (8 * i) s (λ j lt. below j (omega arith)) d, ds),
      λ j lt. below j (omega arith) ∙ out j (inl lt),
    )
