-- ===== src/Keyboard.antt =====
-- src/keyboard/keyboard.c and the buffer of src/task/process.h: the ring of characters that the
-- keyboard driver fills and a process empties. `tail` and `head` are 32-bit patterns; both are
-- converted to an unsigned number by `% sizeof(buffer)`.
mod Examples
pub mod Fifo
pub mod Classic
pub mod Drivers
pub mod Registration
use udemy_kernel.Prelude.{
  ℕ, ◌+◌, ◌-◌, ◌%◌, ◌^◌, Option, none, some, Array, update, ◌==◌, if◌then◌else◌,
}

abbrev pub buffer_size : ℕ
buffer_size = 1024

pub record KeyboardBuffer : Type 0 where
  pub buffer : Array
  pub tail : ℕ
  pub head : ℕ

unfoldable pub keyboard_get_tail_index : KeyboardBuffer → ℕ
keyboard_get_tail_index k = k.tail % buffer_size

unfoldable pub keyboard_backspace : KeyboardBuffer → KeyboardBuffer
unfolding keyboard_get_tail_index
keyboard_backspace k =
    let moved = record k { tail = (k.tail + 2 ^ 32 - 1) % 2 ^ 32 } in
    record moved { buffer = update moved.buffer (keyboard_get_tail_index moved) 0 }

push_char : ℕ → KeyboardBuffer → KeyboardBuffer
unfolding keyboard_get_tail_index
push_char c k = if c == 0 then k else record k {
  buffer = update k.buffer (keyboard_get_tail_index k) c;
  tail = (k.tail + 1) % 2 ^ 32;
}

-- The buffer of the current process, `none` where there is no current process.
unfoldable pub keyboard_push : ℕ → Option KeyboardBuffer → Option KeyboardBuffer
unfolding push_char
keyboard_push c none = none
keyboard_push c (some k) = some (push_char c k)

pop_char : KeyboardBuffer → ℕ × KeyboardBuffer
pop_char k =
    let index = k.head % buffer_size in
    let c = k.buffer index in
    if c == 0
    then (0, k)
    else (c, record k { buffer = update k.buffer index 0; head = (k.head + 1) % 2 ^ 32 })

-- The buffer of the current task's process, `none` where there is no current task.
unfoldable pub keyboard_pop : Option KeyboardBuffer → ℕ × Option KeyboardBuffer
unfolding pop_char
keyboard_pop none = (0, none)
keyboard_pop (some k) = let (c, k') = pop_char k in (c, some k')
