-- ===== src/Fat16/Name.antt =====
-- src/fs/fat/fat16.c: the name of a directory item, as a C string.
pub mod Text
use udemy_kernel.Prelude.{Bool, ℕ, zero, suc, ◌+◌, ◌||◌, Array, update, ◌==◌, if◌then◌else◌}
use udemy_kernel.Memory.{memset}
use udemy_kernel.Fat16.{FatDirectoryItem}

-- What ends a name in its field.
abbrev pub is_padding : ℕ → Bool
is_padding c = c == 0x00 || c == 0x20

-- The loop of `fat16_to_proper_string` with `k` rounds left, at the byte `i` of the input: the
-- index behind what it writes from `o` on, and the buffer.
unfoldable pub proper_loop : (input : Array) (k i o : ℕ) → Array → ℕ × Array
proper_loop input zero i o out = (o, out)
proper_loop input (suc k) i o out =
    let rest = proper_loop input k (i + 1) (o + 1) (update out o (input i)) in
    if is_padding (input i) then (o, out) else rest

-- `size` is at least 1. The new value of `*out`, and the buffer.
unfoldable pub fat16_to_proper_string : (o : ℕ) → Array → (input : Array) → (size : ℕ) → ℕ × Array
unfolding proper_loop
fat16_to_proper_string o out input size =
    let (o', out') = proper_loop input size 0 o out in (o', update out' o' 0x00)

unfoldable pub fat16_get_full_relative_filename :
    FatDirectoryItem → (out : Array) → (max_len : ℕ) → Array
fat16_get_full_relative_filename item out max_len =
    let (o, named) = fat16_to_proper_string 0 (memset out 0x00 max_len) item.filename 8 in
    let (_, full) = fat16_to_proper_string (o + 1) (update named o b'.') item.ext 3 in
    if is_padding (item.ext 0) then named else full
