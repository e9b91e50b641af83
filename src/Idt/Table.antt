-- ===== src/Idt/Table.antt =====
-- The tables that idt_init of src/idt/idt.c sets up, as the processor and interrupt_handler read
-- them.
use udemy_kernel.Prelude.{
  ℕ, zero, suc, ◌+◌, ◌*◌, ◌/◌, ◌%◌, ◌^◌, ◌<◌, ◌≤◌, ◌≡◌, ◌≢◌, List, [], ◌∷◌, Array, pos, arith, refl,
  leb, ltb, ◌==◌, ◌&&◌, if◌then◌else◌,
}
use udemy_kernel.Idt.{
  IdtDesc, Interrupts, Addresses, Action, idt_set, set_loop, register_loop, idt_init, gate,
  interrupt_handler, idt_register_interrupt_callback, total_interrupts,
}

-- The address that the processor enters for a descriptor.
abbrev pub entry_point : IdtDesc → ℕ
entry_point d = d.offset_high * 2 ^ 16 + d.offset_low

-- A present 32-bit interrupt gate of ring 3 into the kernel's code segment.
pub record IsGate (d : IdtDesc) (address : ℕ) : Type 0 where
  pub entered : entry_point d ≡ address
  pub segment : d.selector ≡ 8
  pub present : d.type_attr / 128 ≡ 1
  pub ring : d.type_attr / 32 % 4 ≡ 3
  pub kind : d.type_attr % 16 ≡ 14

gate-IsGate : (address : ℕ) → IsGate (gate address) address
gate-IsGate address = record {
  entered = omega arith;
  segment = refl;
  present = refl;
  ring = refl;
  kind = refl;
}

set_loop_lem :
    (pointers : Array) (k i : ℕ) (descriptors : ℕ → IdtDesc) (j : ℕ)
    → set_loop pointers k i descriptors j
      ≡ (if leb i j && ltb j (i + k) then gate (pointers j) else descriptors j)
unfolding set_loop idt_set
set_loop_lem pointers zero i descriptors j = ground arith
set_loop_lem pointers (suc k) i descriptors j =
    ground (arith, set_loop_lem pointers k (i + 1) (idt_set i (pointers i) descriptors) j)

register_loop_lem :
    (handler k i : ℕ) (callbacks : Array) (j : ℕ)
    → i + k ≤ 512
    → register_loop handler k i callbacks j
      ≡ (if leb i j && ltb j (i + k) then handler else callbacks j)
unfolding register_loop idt_register_interrupt_callback
register_loop_lem handler zero i callbacks j fits = ground arith
register_loop_lem handler (suc k) i callbacks j fits = ground (
  arith,
  register_loop_lem handler k (i + 1) (idt_register_interrupt_callback (pos i) handler callbacks).1
      j (omega arith),
)

-- The address that `idt_init` means interrupt `i` to enter.
abbrev pub target : Addresses → ℕ → ℕ
target a i =
    if i == 0x80
    then a.isr80h_wrapper
    else if i == 0
    then a.idt_zero
    else a.interrupt_pointer_table i

-- After `idt_init`, each of the 512 interrupts has a present ring-3 gate into the kernel's code
-- segment: to isr80h_wrapper for 0x80, to idt_zero for 0, and to its entry of the pointer table for
-- every other.
pub idt_init-IsGate :
    (a : Addresses) (s : Interrupts) (i : ℕ)
    → i < total_interrupts
    → IsGate ((idt_init a s).descriptors i) (target a i)
unfolding idt_init idt_set
idt_init-IsGate a s i small = rw (is_gate) (gate-IsGate (target a i))
  where
    is_gate : (idt_init a s).descriptors i ≡ gate (target a i)
    is_gate = ground (
      arith,
      set_loop_lem a.interrupt_pointer_table 512 0
          (λ _. record { offset_low = 0; selector = 0; zero = 0; type_attr = 0; offset_high = 0 })
          i,
    )

-- What handling an interrupt does where the callback at `f` is registered for it.
abbrev pub handled : ℕ → List Action
handled f =
    Action.kernel_page
    ∷ Action.save_state
    ∷ Action.invoke f
    ∷ Action.task_page
    ∷ Action.acknowledge
    ∷ []

-- After `idt_init`, where no callback was registered before and the two callbacks are not NULL,
-- an interrupt below 0x20 saves the state of the task and calls idt_handle_exception, 0x20 does
-- so with idt_clock, and any other calls nothing; each switches to the kernel's pages first, and
-- last back to the task's pages, and sends the acknowledgement.
pub interrupt_handler_lem :
    (a : Addresses) (s : Interrupts) (i : ℕ)
    → ((j : ℕ) → s.callbacks j ≡ 0)
    → a.idt_handle_exception ≢ 0
    → a.idt_clock ≢ 0
    → interrupt_handler (idt_init a s) i ≡ (
        if ltb i 0x20
        then handled a.idt_handle_exception
        else if i == 0x20
        then handled a.idt_clock
        else Action.kernel_page ∷ Action.task_page ∷ Action.acknowledge ∷ [])
unfolding interrupt_handler idt_init idt_register_interrupt_callback
interrupt_handler_lem a s i empty exception clock = ground (
  arith,
  register_loop_lem a.idt_handle_exception 0x20 0 s.callbacks i (omega arith),
  empty i,
  exception,
  clock,
)
