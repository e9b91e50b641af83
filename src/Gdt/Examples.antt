-- ===== src/Gdt/Examples.antt =====
-- Descriptors of the table in src/kernel.c.
use udemy_kernel.Prelude.{ℕ, ◌<◌, ◌≡◌, some, [], ◌∷◌, Array, arith, inl, inr, refl}
use udemy_kernel.Gdt.{GdtStructured, gdt_structured_to_gdt}
use udemy_kernel.Gdt.Decode.{IsEncodable, DescribesAll, gdt_structured_to_gdt_lem}

abbrev kernel_code : GdtStructured
kernel_code = record { base = 0; limit = 0xFFFFFFFF; type = 0x9A }

abbrev null_segment : GdtStructured
null_segment = record { base = 0; limit = 0; type = 0 }

abbrev kernel_code_IsEncodable : IsEncodable kernel_code
kernel_code_IsEncodable = record { base = omega arith; limit = omega arith; paged = inr refl }

abbrev null_IsEncodable : IsEncodable null_segment
null_IsEncodable = record { base = omega arith; limit = omega arith; paged = inl (omega arith) }

gdt_structured_to_gdt_lem_example :
    (g : Array) × (gdt_structured_to_gdt 0 (null_segment ∷ kernel_code ∷ []) (λ _. 7) ≡ some g)
    × DescribesAll g 0 (null_segment ∷ kernel_code ∷ [])
    × ((j : ℕ) → j < 0 → g j ≡ 7)
gdt_structured_to_gdt_lem_example =
    gdt_structured_to_gdt_lem 0 (null_segment ∷ kernel_code ∷ []) (λ _. 7)
      (null_IsEncodable, (kernel_code_IsEncodable, tt))
