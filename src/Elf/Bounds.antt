-- ===== src/Elf/Bounds.antt =====
-- What one program header does to the addresses that elf_process_pheaders of
-- src/loader/formats/elfloader.c computes.
use udemy_kernel.Prelude.{
  Bool, ℕ, ◌+◌, ◌%◌, ◌^◌, ◌<◌, ◌≤◌, ◌≡◌, ◌≢◌, ◌⊎◌, ◌&&◌, ◌||◌, inl, inr, Bool-cases, leb, ◌==◌,
  if◌then◌else◌, arith,
}
use udemy_kernel.Elf.{
  Elf32Phdr, ElfFile, lower_base, raise_end, elf_process_phdr_pt_load, elf_process_pheader,
}

-- What a program header does to the addresses.
abbrev pub lowers : ElfFile → Elf32Phdr → Bool
lowers file ph =
    ph.p_type == 1 && (leb ph.p_vaddr file.virtual_base_address || file.virtual_base_address == 0)

abbrev pub end_of : Elf32Phdr → ℕ
end_of ph = (ph.p_vaddr + ph.p_filesz) % 2 ^ 32

abbrev pub raises : ElfFile → Elf32Phdr → Bool
raises file ph =
    ph.p_type == 1 && (leb file.virtual_end_address (end_of ph) || file.virtual_end_address == 0)

pub record After (file after : ElfFile) (ph : Elf32Phdr) : Type 0 where
  pub memory : after.elf_memory ≡ file.elf_memory
  pub base :
      after.virtual_base_address
      ≡ (if lowers file ph then ph.p_vaddr else file.virtual_base_address)
  pub phys_base : after.physical_base_address ≡ (
      if lowers file ph
      then (file.elf_memory + ph.p_offset) % 2 ^ 32
      else file.physical_base_address)
  pub end :
      after.virtual_end_address ≡ (if raises file ph then end_of ph else file.virtual_end_address)
  pub phys_end : after.physical_end_address ≡ (
      if raises file ph
      then (file.elf_memory + ph.p_offset + ph.p_filesz) % 2 ^ 32
      else file.physical_end_address)

pub pheader_lem : (file : ElfFile) (ph : Elf32Phdr) → After file (elf_process_pheader file ph) ph
unfolding elf_process_pheader elf_process_phdr_pt_load lower_base raise_end
pheader_lem file ph = record {
  memory = ground arith;
  base = ground arith;
  phys_base = ground arith;
  end = ground arith;
  phys_end = ground arith;
}

-- Among the first `n` program headers, the one at `at` is loaded, and has the least address.
pub record Least (phdrs : ℕ → Elf32Phdr) (memory n base phys : ℕ) : Type 0 where
  pub at : ℕ
  pub within : at < n
  pub load : (phdrs at).p_type ≡ 1
  pub base_is : base ≡ (phdrs at).p_vaddr
  pub phys_is : phys ≡ (memory + (phdrs at).p_offset) % 2 ^ 32
  pub least : (j : ℕ) → j < n → (phdrs j).p_type ≡ 1 → base ≤ (phdrs j).p_vaddr

-- The one at `at` is loaded, and has the greatest end.
pub record Greatest (phdrs : ℕ → Elf32Phdr) (memory n end phys : ℕ) : Type 0 where
  pub at : ℕ
  pub within : at < n
  pub load : (phdrs at).p_type ≡ 1
  pub end_is : end ≡ ((phdrs at).p_vaddr + (phdrs at).p_filesz) % 2 ^ 32
  pub phys_is : phys ≡ (memory + (phdrs at).p_offset + (phdrs at).p_filesz) % 2 ^ 32
  pub greatest :
      (j : ℕ)
      → j < n
      → (phdrs j).p_type ≡ 1
      → ((phdrs j).p_vaddr + (phdrs j).p_filesz) % 2 ^ 32 ≤ end

abbrev pub NoneLoaded : (ℕ → Elf32Phdr) → ℕ → Type 0
NoneLoaded phdrs n = (j : ℕ) → j < n → (phdrs j).p_type ≢ 1

pub extend-Least :
    (phdrs : ℕ → Elf32Phdr) (memory n : ℕ) (file : ElfFile)
    → file.elf_memory ≡ memory
    → ((j : ℕ) → j < n → (phdrs j).p_type ≡ 1 → (phdrs j).p_vaddr ≢ 0)
    → (NoneLoaded phdrs n × (file.virtual_base_address ≡ 0))
      ⊎ Least phdrs memory n file.virtual_base_address file.physical_base_address
    → (NoneLoaded phdrs (n + 1) × ((elf_process_pheader file (phdrs n)).virtual_base_address ≡ 0))
      ⊎ Least phdrs memory
          (n + 1)
          (elf_process_pheader file (phdrs n)).virtual_base_address
          (elf_process_pheader file (phdrs n)).physical_base_address
extend-Least phdrs memory n file mem real inv =
    let a = pheader_lem file (phdrs n) in
    elim (Bool-cases (lowers file (phdrs n))) [
      | inl new ↦ inr (record {
        at = n;
        within = omega arith;
        load = ground (arith, new);
        base_is = ground (arith, a.base, new);
        phys_is = ground (arith, a.phys_base, new, mem);
        least = λ j lt load. elim (Bool-cases (j == n)) [
          | inl same ↦
              let here : j ≡ n = ground (arith, same) in rw here (ground (arith, a.base, new))
          | inr other ↦ elim inv [
            | inl none ↦ absurd (none.0 j (ground (arith, lt, other)) load)
            | inr l ↦ ground (
              arith,
              a.base,
              new,
              l.base_is,
              real l.at l.within l.load,
              l.least j (ground (arith, lt, other)) load,
            )
          ]
        ];
      })
      | inr old ↦ elim inv [
        | inl none ↦ inl (
          (λ j lt load. elim (Bool-cases (j == n)) [
            | inl same ↦
                let here : j ≡ n = ground (arith, same) in
                let loaded : (phdrs n).p_type ≡ 1 = rw (← here) load in
                ground (arith, old, loaded, none.1)
            | inr other ↦ none.0 j (ground (arith, lt, other)) load
          ]),
          ground (arith, a.base, old, none.1),
        )
        | inr l ↦ inr (record {
          at = l.at;
          within = omega (arith, l.within);
          load = l.load;
          base_is = ground (arith, a.base, old, l.base_is);
          phys_is = ground (arith, a.phys_base, old, l.phys_is);
          least = λ j lt load. elim (Bool-cases (j == n)) [
            | inl same ↦
                let here : j ≡ n = ground (arith, same) in
                let loaded : (phdrs n).p_type ≡ 1 = rw (← here) load in
                rw here (ground (arith, a.base, old, loaded))
            | inr other ↦ ground (arith, a.base, old, l.least j (ground (arith, lt, other)) load)
          ];
        })
      ]
    ]

pub extend-Greatest :
    (phdrs : ℕ → Elf32Phdr) (memory n : ℕ) (file : ElfFile)
    → file.elf_memory ≡ memory
    → ((j : ℕ) → j < n → (phdrs j).p_type ≡ 1 → end_of (phdrs j) ≢ 0)
    → (NoneLoaded phdrs n × (file.virtual_end_address ≡ 0))
      ⊎ Greatest phdrs memory n file.virtual_end_address file.physical_end_address
    → (NoneLoaded phdrs (n + 1) × ((elf_process_pheader file (phdrs n)).virtual_end_address ≡ 0))
      ⊎ Greatest phdrs memory
          (n + 1)
          (elf_process_pheader file (phdrs n)).virtual_end_address
          (elf_process_pheader file (phdrs n)).physical_end_address
extend-Greatest phdrs memory n file mem real inv =
    let a = pheader_lem file (phdrs n) in
    elim (Bool-cases (raises file (phdrs n))) [
      | inl new ↦ inr (record {
        at = n;
        within = omega arith;
        load = ground (arith, new);
        end_is = ground (arith, a.end, new);
        phys_is = ground (arith, a.phys_end, new, mem);
        greatest = λ j lt load. elim (Bool-cases (j == n)) [
          | inl same ↦
              let here : j ≡ n = ground (arith, same) in rw here (ground (arith, a.end, new))
          | inr other ↦ elim inv [
            | inl none ↦ absurd (none.0 j (ground (arith, lt, other)) load)
            | inr l ↦ ground (
              arith,
              a.end,
              new,
              l.end_is,
              real l.at l.within l.load,
              l.greatest j (ground (arith, lt, other)) load,
            )
          ]
        ];
      })
      | inr old ↦ elim inv [
        | inl none ↦ inl (
          (λ j lt load. elim (Bool-cases (j == n)) [
            | inl same ↦
                let here : j ≡ n = ground (arith, same) in
                let loaded : (phdrs n).p_type ≡ 1 = rw (← here) load in
                ground (arith, old, loaded, none.1)
            | inr other ↦ none.0 j (ground (arith, lt, other)) load
          ]),
          ground (arith, a.end, old, none.1),
        )
        | inr l ↦ inr (record {
          at = l.at;
          within = omega (arith, l.within);
          load = l.load;
          end_is = ground (arith, a.end, old, l.end_is);
          phys_is = ground (arith, a.phys_end, old, l.phys_is);
          greatest = λ j lt load. elim (Bool-cases (j == n)) [
            | inl same ↦
                let here : j ≡ n = ground (arith, same) in
                let loaded : (phdrs n).p_type ≡ 1 = rw (← here) load in
                rw here (ground (arith, a.end, old, loaded))
            | inr other ↦ ground (arith, a.end, old, l.greatest j (ground (arith, lt, other)) load)
          ];
        })
      ]
    ]
