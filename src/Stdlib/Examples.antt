-- ===== src/Stdlib/Examples.antt =====
-- Numbers, lines and commands in a user program.
use udemy_kernel.Prelude.{
  ℕ, ◌+◌, ◌≡◌, refl, arith, some, List, [], ◌∷◌, Array, negsuc, true, ◌++◌, length, if◌then◌else◌,
  ◌==◌,
}
use udemy_kernel.PathParser.{Allocator}
use udemy_kernel.Stdlib.{itoa, magnitude, terminal_readline}
use udemy_kernel.Stdlib.Itoa.{itoa_lem, Prints}
use udemy_kernel.Stdlib.Readline.{readline_lem, echoed, Holds, typed}

-- The smallest int.
itoa_lem_example :
    (r : Array) × (at : ℕ) × (itoa 11 (λ _. 0) (negsuc 2147483647) ≡ some (r, at))
    × Prints r at (negsuc 2147483647)
unfolding magnitude
itoa_lem_example = itoa_lem 11 (λ _. 0) (negsuc 2147483647) (omega arith) (omega arith)

-- a, no key, b, backspace, c.
abbrev some_keys : List ℕ
some_keys = 97 ∷ 0 ∷ 98 ∷ 8 ∷ 99 ∷ []

some_keys-typed : typed [] some_keys ≡ 99 ∷ 97 ∷ []
some_keys-typed = refl

readline_lem_example :
    (r : Array) × (terminal_readline (λ _. 1) 1024 true (some_keys ++ 13 ∷ 100 ∷ [])
      ≡ some (r, echoed true some_keys [], 100 ∷ []))
    × Holds r (typed [] some_keys)
    × (r (length (typed [] some_keys)) ≡ 0)
readline_lem_example =
    readline_lem (λ _. 1) 1024 true some_keys (100 ∷ [])
      (
        omega arith,
        omega arith,
        (
          omega arith,
          omega arith,
          (
            omega arith,
            omega arith,
            (omega arith, omega arith, (omega arith, omega arith, omega arith)),
          ),
        ),
      )

-- Blocks of 4096 bytes, one after the other.
abbrev program_blocks : Allocator
program_blocks = record { State = ℕ; kzalloc = λ n s. (s + 1, s + 4096); kfree = λ a s. s }

-- " ls a"
abbrev list_command : List ℕ
list_command = 32 ∷ 108 ∷ 115 ∷ 32 ∷ 97 ∷ []

abbrev command_bytes : Array
command_bytes i =
    if i == 0
    then 32
    else if i == 1
    then 108
    else if i == 2
    then 115
    else if i == 3
    then 32
    else if i == 4
    then 97
    else 0
