-- ===== src/Prelude/Arrays.antt =====
-- Arrays that are reached through a pointer: the value at each index from the pointer on.
use Prim.Native.Nat.{ℕ, ◌+◌, ◌*◌, ◌^◌}
use udemy_kernel.Prelude.Tests.{◌==◌, if◌then◌else◌}

abbrev pub Array : Type 0
Array = ℕ → ℕ

-- p[i] = v
abbrev pub update : Array → ℕ → ℕ → Array
update p i v j = if j == i then v else p j

-- Numbers of 16 and of 32 bits in memory, low byte first.
abbrev pub le16 : Array → ℕ → ℕ
le16 b o = b o + b (o + 1) * 2 ^ 8

abbrev pub le32 : Array → ℕ → ℕ
le32 b o = le16 b o + le16 b (o + 2) * 2 ^ 16

abbrev pub field : Array → ℕ → Array
field b o i = b (o + i)
