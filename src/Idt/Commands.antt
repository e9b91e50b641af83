-- ===== src/Idt/Commands.antt =====
-- The system commands of src/idt/idt.c and src/isr80h/isr80h.c, from their registration to a call.
use udemy_kernel.Prelude.{
  ℕ, zero, suc, ◌+◌, ◌<◌, ◌≤◌, ◌≡◌, ◌≢◌, ◌⊎◌, none, some, Array, update, ℤ, pos, negsuc, arith,
  refl, leb, ltb, ◌&&◌, if◌then◌else◌,
}
use udemy_kernel.Idt.{
  isr80h_register_command, isr80h_handle_command, isr80h_register_commands, register_from,
  max_isr80h_commands,
}

register_from_lem :
    (handlers : Array) (k i : ℕ) (commands : Array)
    → i + k ≤ 1024
    → ((j : ℕ) → i ≤ j → j < i + k → commands j ≡ 0)
    → (table : Array) × (register_from handlers k i commands ≡ some table)
      × ((j : ℕ) → table j ≡ (if leb i j && ltb j (i + k) then handlers j else commands j))
unfolding register_from isr80h_register_command
register_from_lem handlers zero i commands fits empty = (commands, refl, λ j. ground arith)
register_from_lem handlers (suc k) i commands fits empty =
    let (table, found, holds) =
      register_from_lem handlers k (i + 1) (update commands i (handlers i)) (omega arith)
        (λ j lo hi. ground (arith, empty j (omega arith) (omega arith))) in
    (
      table,
      ground (arith, empty i (omega arith) (omega arith), found),
      λ j. ground (arith, holds j),
    )

-- What a call of command `c` returns, where commands 0 to 9 have the handlers.
abbrev pub answer : (handlers : Array) → (call : ℕ → ℕ) → ℤ → ℕ
answer handlers call (pos i) = if ltb i 10 then call (handlers i) else 0
answer handlers call (negsuc i) = 0

-- On an empty table, with ten handlers that are not NULL, the registration of the ten commands
-- does not panic. Afterwards a call of command 0 to 9 calls the handler of that number, and any
-- other number, negative ones included, gives 0.
pub register_commands_lem :
    (handlers commands : Array)
    → ((j : ℕ) → commands j ≡ 0)
    → ((j : ℕ) → j < 10 → handlers j ≢ 0)
    → (table : Array) × (isr80h_register_commands handlers commands ≡ some table)
      × ((call : ℕ → ℕ) (c : ℤ) → isr80h_handle_command table call c ≡ answer handlers call c)
unfolding isr80h_register_commands isr80h_handle_command
register_commands_lem handlers commands empty real =
    let (table, found, holds) =
      register_from_lem handlers 10 0 commands (omega arith) (λ j lo hi. empty j) in
    (table, found, λ call c. answered table holds call c)
  where
    answered :
        (table : Array)
        → ((j : ℕ) → table j ≡ (if leb 0 j && ltb j 10 then handlers j else commands j))
        → (call : ℕ → ℕ) (c : ℤ) → isr80h_handle_command table call c ≡ answer handlers call c
    answered table holds call (negsuc i) = refl
    answered table holds call (pos i) = ground (arith, holds i, empty i, real i)

-- A number out of range or of a command that is registered already ends in the panic.
pub register_command_refused :
    (i command : ℕ) (commands : Array)
    → (max_isr80h_commands ≤ i) ⊎ (commands i ≢ 0)
    → isr80h_register_command (pos i) command commands ≡ none
unfolding isr80h_register_command
register_command_refused i command commands bad = ground arith
