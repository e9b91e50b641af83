-- ===== src/Elf/Spans.antt =====
-- The addresses that elf_process_pheaders of src/loader/formats/elfloader.c computes.
use mathlib.Core.Path.{subst}
use udemy_kernel.Prelude.{Array, ℕ, zero, suc, ◌+◌, ◌<◌, ◌≡◌, ◌≢◌, ◌⊎◌, ◌∙◌, refl, inl, inr, arith}
use udemy_kernel.Elf.{
  elf_program_header, elf_header, elf_process_pheaders, Elf32Phdr, ElfFile, elf_process_pheader,
  pheaders_loop,
}
use udemy_kernel.Elf.Bounds.{
  end_of, pheader_lem, Least, Greatest, NoneLoaded, extend-Least, extend-Greatest,
}

spans_loop :
    (phdrs : ℕ → Elf32Phdr) (memory k n : ℕ) (file : ElfFile)
    → file.elf_memory ≡ memory
    → ((j : ℕ) → j < n + k → (phdrs j).p_type ≡ 1 → (phdrs j).p_vaddr ≢ 0)
    → ((j : ℕ) → j < n + k → (phdrs j).p_type ≡ 1 → end_of (phdrs j) ≢ 0)
    → (NoneLoaded phdrs n × (file.virtual_base_address ≡ 0))
      ⊎ Least phdrs memory n file.virtual_base_address file.physical_base_address
    → (NoneLoaded phdrs n × (file.virtual_end_address ≡ 0))
      ⊎ Greatest phdrs memory n file.virtual_end_address file.physical_end_address
    → (let after = pheaders_loop phdrs k n file in
        ((NoneLoaded phdrs (n + k) × (after.virtual_base_address ≡ 0))
          ⊎ Least phdrs memory (n + k) after.virtual_base_address after.physical_base_address)
        × ((NoneLoaded phdrs (n + k) × (after.virtual_end_address ≡ 0))
            ⊎ Greatest phdrs memory (n + k) after.virtual_end_address after.physical_end_address))
unfolding pheaders_loop
spans_loop phdrs memory zero n file mem real ends low high =
    let shape : n + 0 ≡ n = omega arith in rw shape (low, high)
spans_loop phdrs memory (suc k) n file mem real ends low high =
    let shape : n + suc k ≡ n + 1 + k = omega arith in
    rw shape (
      spans_loop phdrs memory k (n + 1) (elf_process_pheader file (phdrs n))
        ((pheader_lem file (phdrs n)).memory ∙ mem) (λ j lt. real j (omega (arith, lt)))
        (λ j lt. ends j (omega (arith, lt)))
        (extend-Least phdrs memory n file mem (λ j lt. real j (omega (arith, lt))) low)
        (extend-Greatest phdrs memory n file mem (λ j lt. ends j (omega (arith, lt))) high))

-- For a file whose addresses are NULL, and `e_phnum` program headers among which one is loaded, and
-- none of those loaded at address 0 or with its end there: afterwards the virtual base is the least
-- address of a loaded segment, the virtual end the greatest end of one, and the physical addresses
-- are those of the same segments in the file.
pub process_pheaders_lem :
    (mem : Array) (file : ElfFile) (one : ℕ)
    → file.virtual_base_address ≡ 0
    → file.virtual_end_address ≡ 0
    → ((j : ℕ)
        → j < (elf_header mem file).e_phnum
        → (elf_program_header mem file.elf_memory j).p_type ≡ 1
        → (elf_program_header mem file.elf_memory j).p_vaddr ≢ 0)
    → ((j : ℕ)
        → j < (elf_header mem file).e_phnum
        → (elf_program_header mem file.elf_memory j).p_type ≡ 1
        → end_of (elf_program_header mem file.elf_memory j) ≢ 0)
    → one < (elf_header mem file).e_phnum
    → (elf_program_header mem file.elf_memory one).p_type ≡ 1
    → Least
        (elf_program_header mem file.elf_memory)
        file.elf_memory
        (elf_header mem file).e_phnum
        (elf_process_pheaders mem file).virtual_base_address
        (elf_process_pheaders mem file).physical_base_address
      × Greatest
          (elf_program_header mem file.elf_memory)
          file.elf_memory
          (elf_header mem file).e_phnum
          (elf_process_pheaders mem file).virtual_end_address
          (elf_process_pheaders mem file).physical_end_address
unfolding elf_process_pheaders
process_pheaders_lem mem file one base end real ends within load =
    let phdrs = elf_program_header mem file.elf_memory in
    let n : ℕ = (elf_header mem file).e_phnum in
    let zero_add : 0 + n ≡ n = omega arith in
    let (low, high) =
      spans_loop phdrs file.elf_memory n 0 file refl (λ j lt. real j (omega (arith, lt)))
        (λ j lt. ends j (omega (arith, lt))) (inl ((λ j lt. absurd (omega (arith, lt))), base))
        (inl ((λ j lt. absurd (omega (arith, lt))), end)) in
    (
      elim low [
        | inl none ↦ absurd (none.0 one (omega (arith, within)) load)
        | inr l ↦
            subst
              (λ m.
                Least phdrs file.elf_memory m (elf_process_pheaders mem file).virtual_base_address
                  (elf_process_pheaders mem file).physical_base_address)
              zero_add l
      ],
      elim high [
        | inl none ↦ absurd (none.0 one (omega (arith, within)) load)
        | inr g ↦
            subst
              (λ m.
                Greatest phdrs file.elf_memory m (elf_process_pheaders mem file).virtual_end_address
                  (elf_process_pheaders mem file).physical_end_address)
              zero_add g
      ],
    )
