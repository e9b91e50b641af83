-- ===== src/Idt.antt =====
-- src/idt/idt.c, idt.h and src/isr80h/isr80h.c: the interrupt descriptors, the callbacks of
-- interrupts and the table of system commands. A function pointer is its address, 0 for NULL; a
-- table of them is a function from indexes.
mod Examples
pub mod Table
pub mod Commands
use udemy_kernel.Prelude.{
  ℕ, zero, suc, ◌+◌, ◌-◌, ◌*◌, ◌/◌, ◌%◌, ◌^◌, Bool, Option, none, some, List, [], ◌∷◌, Array,
  update, ℤ, pos, negsuc, Result, ok, err, einvarg, leb, ◌==◌, if◌then◌else◌,
}

abbrev pub total_interrupts : ℕ
total_interrupts = 512

abbrev pub max_isr80h_commands : ℕ
max_isr80h_commands = 1024

pub record IdtDesc : Type 0 where
  pub offset_low : ℕ
  pub selector : ℕ
  pub zero : ℕ
  pub type_attr : ℕ
  pub offset_high : ℕ

-- `idtr_descriptor`.
pub record IdtrDesc : Type 0 where
  pub limit : ℕ
  pub base : ℕ

-- The static variables of idt.c.
pub record Interrupts : Type 0 where
  pub descriptors : ℕ → IdtDesc
  pub idtr : IdtrDesc
  pub callbacks : Array

abbrev zero_desc : IdtDesc
zero_desc = record { offset_low = 0; selector = 0; zero = 0; type_attr = 0; offset_high = 0 }

-- For an address below 2^32.
abbrev gate : ℕ → IdtDesc
gate address = record {
  offset_low = address % 2 ^ 16;
  selector = 0x08;
  zero = 0;
  type_attr = 0b11101110;
  offset_high = address / 2 ^ 16;
}

unfoldable pub idt_set : (interrupt_no address : ℕ) → (ℕ → IdtDesc) → ℕ → IdtDesc
idt_set interrupt_no address descriptors j =
    if j == interrupt_no then gate address else descriptors j

unfoldable pub idt_register_interrupt_callback :
    ℤ → (callback : ℕ) → Array → Result (Unit {0}) × Array
idt_register_interrupt_callback (negsuc i) callback callbacks = (err einvarg, callbacks)
idt_register_interrupt_callback (pos i) callback callbacks =
    if leb total_interrupts i
    then (err einvarg, callbacks)
    else (ok tt, update callbacks i callback)

-- The loop over `interrupt_pointer_table` with `k` rounds left.
pub set_loop : (pointers : Array) → (k i : ℕ) → (ℕ → IdtDesc) → ℕ → IdtDesc
set_loop pointers zero i descriptors = descriptors
set_loop pointers (suc k) i descriptors =
    set_loop pointers k (i + 1) (idt_set i (pointers i) descriptors)

-- The loop that registers the handler of exceptions, with `k` rounds left.
pub register_loop : (handler k i : ℕ) → Array → Array
register_loop handler zero i callbacks = callbacks
register_loop handler (suc k) i callbacks =
    register_loop handler k (i + 1) (idt_register_interrupt_callback (pos i) handler callbacks).1

-- The addresses of the code that `idt_init` puts into the tables, and of the descriptors.
pub record Addresses : Type 0 where
  pub interrupt_pointer_table : Array
  pub idt_zero : ℕ
  pub isr80h_wrapper : ℕ
  pub idt_handle_exception : ℕ
  pub idt_clock : ℕ
  pub idt_descriptors : ℕ

-- The load of the processor's register at the end is not modelled.
unfoldable pub idt_init : Addresses → Interrupts → Interrupts
unfolding idt_set idt_register_interrupt_callback
idt_init a s =
    let gates = set_loop a.interrupt_pointer_table total_interrupts 0 (λ _. zero_desc) in
    let exceptions = register_loop a.idt_handle_exception 0x20 0 s.callbacks in
    record {
      descriptors = idt_set 0x80 a.isr80h_wrapper (idt_set 0 a.idt_zero gates);
      idtr = record { limit = total_interrupts * 8 - 1; base = a.idt_descriptors };
      callbacks = (idt_register_interrupt_callback (pos 0x20) a.idt_clock exceptions).1;
    }

-- What `interrupt_handler` does, in order.
pub data Action : Type 0 where
  kernel_page task_page save_state acknowledge : Action
  invoke : ℕ → Action

unfoldable pub interrupt_handler : Interrupts → (interrupt : ℕ) → List Action
interrupt_handler s interrupt =
    let rest = task_page ∷ acknowledge ∷ [] in
    kernel_page
    ∷ (if s.callbacks interrupt == 0
        then rest
        else save_state ∷ invoke (s.callbacks interrupt) ∷ rest)

-- `none` is the panic, which does not return.
unfoldable pub isr80h_register_command : ℤ → (command : ℕ) → Array → Option Array
isr80h_register_command (negsuc i) command commands = none
isr80h_register_command (pos i) command commands =
    if leb max_isr80h_commands i
    then none
    else if commands i == 0
    then some (update commands i command)
    else none

-- `call f` is what the function at `f` returns for the frame.
unfoldable pub isr80h_handle_command : (commands : Array) → (call : ℕ → ℕ) → ℤ → ℕ
isr80h_handle_command commands call (negsuc i) = 0
isr80h_handle_command commands call (pos i) =
    if leb max_isr80h_commands i then 0 else if commands i == 0 then 0 else call (commands i)

-- The `k` commands from number `i` on, at the addresses that the table gives.
register_from : (handlers : Array) → (k i : ℕ) → Array → Option Array
register_from handlers zero i commands = some commands
register_from handlers (suc k) i commands =
    elim (isr80h_register_command (pos i) (handlers i) commands) [
      | none ↦ none
      | some commands' ↦ register_from handlers k (i + 1) commands'
    ]

-- The ten calls of `isr80h_register_command`, in the order of `enum SystemCommands`.
unfoldable pub isr80h_register_commands : (handlers : Array) → Array → Option Array
unfolding register_from
isr80h_register_commands handlers commands = register_from handlers 10 0 commands
