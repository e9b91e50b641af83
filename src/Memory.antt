-- ===== src/Memory.antt =====
-- src/memory/memory.c: memset, memcmp and memcpy. A `char *` is an array of bytes, and two
-- pointers are two arrays: the buffers of one call do not overlap.
pub mod Laws
use udemy_kernel.Prelude.{
  ℕ, zero, suc, ◌+◌, ◌%◌, Bool, Array, update, ℤ, pos, negsuc, ltb, ◌==◌, if◌then◌else◌,
}

-- The loop with `k` rounds left.
memset_loop : ℕ → (k i : ℕ) → Array → Array
memset_loop c zero i p = p
memset_loop c (suc k) i p = memset_loop c k (i + 1) (update p i (c % 256))

unfoldable pub memset : Array → ℕ → ℕ → Array
unfolding memset_loop
memset p c size = memset_loop c size 0 p

-- `char` is signed: a byte from 128 on is negative.
pub char_lt : ℕ → ℕ → Bool
char_lt a b = ltb ((a + 128) % 256) ((b + 128) % 256)

memcmp_loop : Array → Array → (count i : ℕ) → ℤ
memcmp_loop s1 s2 zero i = pos 0
memcmp_loop s1 s2 (suc count) i =
    let rest = memcmp_loop s1 s2 count (i + 1) in
    if s1 i == s2 i then rest else if char_lt (s1 i) (s2 i) then negsuc 0 else pos 1

unfoldable pub memcmp : Array → Array → ℕ → ℤ
unfolding memcmp_loop char_lt
memcmp s1 s2 count = memcmp_loop s1 s2 count 0

memcpy_loop : Array → (len i : ℕ) → Array → Array
memcpy_loop src zero i dest = dest
memcpy_loop src (suc len) i dest = memcpy_loop src len (i + 1) (update dest i (src i))

unfoldable pub memcpy : Array → Array → ℕ → Array
unfolding memcpy_loop
memcpy dest src len = memcpy_loop src len 0 dest
