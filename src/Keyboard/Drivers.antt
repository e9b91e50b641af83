-- ===== src/Keyboard/Drivers.antt =====
-- src/keyboard/keyboard.c and classic.c: the list of keyboard drivers. A keyboard is its address in
-- a store, a function pointer is its address, 0 for NULL. `callbacks` is the table of interrupt
-- callbacks of src/idt/idt.c, and `commands` are the bytes written to the port of the controller,
-- the last one first.
use udemy_kernel.Idt.{idt_register_interrupt_callback}
use udemy_kernel.Prelude.{
  ℕ, Bool, false, List, ◌∷◌, Array, pos, Result, ok, err, einvarg, ◌==◌, if◌then◌else◌,
}

abbrev pub isr_keyboard_interrupt : ℕ
isr_keyboard_interrupt = 0x21

abbrev pub enable_first_port : ℕ
enable_first_port = 0xAE

-- `struct keyboard`; `capslock_state` is true for KEYBOARD_CAPS_LOCK_ON.
pub record Keyboard : Type 0 where
  pub init : ℕ
  pub name : Array
  pub capslock_state : Bool
  pub next : ℕ

pub record Keyboards : Type 0 where
  pub at : ℕ → Keyboard
  pub keyboard_list_head : ℕ
  pub keyboard_list_last : ℕ
  pub callbacks : Array
  pub commands : List ℕ

abbrev pub set_keyboard : Keyboards → (keyboard : ℕ) → Keyboard → Keyboards
set_keyboard ks keyboard value = record ks { at = λ a. if a == keyboard then value else ks.at a }

unfoldable pub keyboard_set_capslock : Keyboards → (keyboard : ℕ) → (state : Bool) → Keyboards
keyboard_set_capslock ks keyboard state =
    set_keyboard ks keyboard (record (ks.at keyboard) { capslock_state = state })

unfoldable pub keyboard_get_capslock : Keyboards → (keyboard : ℕ) → Bool
keyboard_get_capslock ks keyboard = (ks.at keyboard).capslock_state

-- The keyboard is the last of the list.
unfoldable pub keyboard_link : Keyboards → (keyboard : ℕ) → Keyboards
keyboard_link ks keyboard =
    if ks.keyboard_list_last == 0
    then record ks { keyboard_list_head = keyboard; keyboard_list_last = keyboard }
    else record (set_keyboard ks ks.keyboard_list_last
        (record (ks.at ks.keyboard_list_last) { next = keyboard })) {
          keyboard_list_last = keyboard;
        }

-- `call` is the function at an address.
unfoldable pub keyboard_insert :
    (call : ℕ → Keyboards → Result (Unit {0}) × Keyboards)
    → Keyboards
    → (keyboard : ℕ) → Result (Unit {0}) × Keyboards
unfolding keyboard_link
keyboard_insert call ks keyboard =
    if (ks.at keyboard).init == 0
    then (err einvarg, ks)
    else let linked = keyboard_link ks keyboard in call (linked.at keyboard).init linked

-- `classic` is the address of `classic_keyboard`, `handler` that of its interrupt handler.
unfoldable pub classic_keyboard_init :
    (classic handler : ℕ) → Keyboards → Result (Unit {0}) × Keyboards
unfolding idt_register_interrupt_callback keyboard_set_capslock
classic_keyboard_init classic handler ks =
    let (_, callbacks) =
      idt_register_interrupt_callback (pos isr_keyboard_interrupt) handler ks.callbacks in
    let ks' = keyboard_set_capslock (record ks { callbacks = callbacks }) classic false in
    (ok tt, record ks' { commands = enable_first_port ∷ ks'.commands })

unfoldable pub keyboard_init :
    (call : ℕ → Keyboards → Result (Unit {0}) × Keyboards) → (classic : ℕ) → Keyboards → Keyboards
unfolding keyboard_insert
keyboard_init call classic ks = (keyboard_insert call ks classic).1
