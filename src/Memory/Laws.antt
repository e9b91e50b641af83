-- ===== src/Memory/Laws.antt =====
-- What memset, memcpy and memcmp of src/memory/memory.c do to every byte.
use udemy_kernel.Prelude.{
  ℕ, zero, suc, ◌+◌, ◌≤◌, ◌<◌, ◌%◌, ◌≡◌, refl, ◌↔◌, Array, update, pos, arith, ltb, leb, ◌&&◌,
  if◌then◌else◌,
}
use udemy_kernel.Memory.{memset, memset_loop, memcmp, memcmp_loop, memcpy, memcpy_loop}

memset_loop_lem :
    (c k i : ℕ) (p : Array) (j : ℕ)
    → memset_loop c k i p j ≡ (if leb i j && ltb j (i + k) then c % 256 else p j)
unfolding memset_loop
memset_loop_lem c zero i p j = ground arith
memset_loop_lem c (suc k) i p j =
    ground (arith, memset_loop_lem c k (i + 1) (update p i (c % 256)) j)

-- `memset` writes the low byte of `c` to exactly the first `size` bytes.
pub memset_lem :
    (p : Array) (c size j : ℕ) → memset p c size j ≡ (if ltb j size then c % 256 else p j)
unfolding memset
memset_lem p c size j = ground (arith, memset_loop_lem c size 0 p j)

memcpy_loop_lem :
    (src : Array) (k i : ℕ) (p : Array) (j : ℕ)
    → memcpy_loop src k i p j ≡ (if leb i j && ltb j (i + k) then src j else p j)
unfolding memcpy_loop
memcpy_loop_lem src zero i p j = ground arith
memcpy_loop_lem src (suc k) i p j =
    ground (arith, memcpy_loop_lem src k (i + 1) (update p i (src i)) j)

-- `memcpy` copies exactly the first `len` bytes.
pub memcpy_lem :
    (dest src : Array) (len j : ℕ) → memcpy dest src len j ≡ (if ltb j len then src j else dest j)
unfolding memcpy
memcpy_lem dest src len j = ground (arith, memcpy_loop_lem src len 0 dest j)

-- The arrays agree from index `i` on, for `k` bytes.
abbrev pub Agree : Array → Array → ℕ → ℕ → Type 0
Agree s1 s2 i k = (j : ℕ) → i ≤ j → j < i + k → s1 j ≡ s2 j

memcmp_loop-Agree : (s1 s2 : Array) (k i : ℕ) → memcmp_loop s1 s2 k i ≡ pos 0 → Agree s1 s2 i k
unfolding memcmp_loop
memcmp_loop-Agree s1 s2 zero i h j le lt = absurd (omega arith)
memcmp_loop-Agree s1 s2 (suc k) i h j le lt = ground (
  arith,
  λ (e : memcmp_loop s1 s2 k (i + 1) ≡ pos 0) (l : i + 1 ≤ j).
      memcmp_loop-Agree s1 s2 k (i + 1) e j l (omega arith),
)

Agree-memcmp_loop : (s1 s2 : Array) (k i : ℕ) → Agree s1 s2 i k → memcmp_loop s1 s2 k i ≡ pos 0
unfolding memcmp_loop
Agree-memcmp_loop s1 s2 zero i h = refl
Agree-memcmp_loop s1 s2 (suc k) i h = ground (
  arith,
  h i (omega arith) (omega arith),
  Agree-memcmp_loop s1 s2 k (i + 1) (λ j le lt. h j (omega arith) (omega arith)),
)

-- `memcmp` returns 0 exactly when the first `count` bytes agree.
pub memcmp_zero : (s1 s2 : Array) (count : ℕ) → (memcmp s1 s2 count ≡ pos 0) ↔ Agree s1 s2 0 count
unfolding memcmp
memcmp_zero s1 s2 count = (memcmp_loop-Agree s1 s2 count 0, Agree-memcmp_loop s1 s2 count 0)
