-- ===== src/Stdlib/Command.antt =====
-- peachos_parse_command of programs/stdlib/src/peachos.c: the arguments are the words of the
-- command.
use udemy_kernel.Prelude.{
  ℕ, ◌+◌, ◌≤◌, ◌<◌, ◌≡◌, ◌⊎◌, Array, some, List, [], ◌∷◌, true, false, length,
}
use udemy_kernel.PathParser.{Allocator}
use udemy_kernel.PathParser.Blocks.{Grants, blocks, after}
use udemy_kernel.Stdlib.{CommandArgument, parse_loop}
use udemy_kernel.Stdlib.Tokens.{HasString}
use udemy_kernel.Stdlib.Argument.{Clear, Disjoint, Outside}

-- In memory, the arguments are the words, one after the other.
abbrev pub AreArguments : Array → List CommandArgument → List (List ℕ) → Type 0
AreArguments mem [] [] = Unit {0}
AreArguments mem [] (w ∷ ws) = false ≡ true
AreArguments mem (a ∷ rest) [] = false ≡ true
AreArguments mem (a ∷ rest) (w ∷ ws) = HasString mem a w × AreArguments mem rest ws

-- Each word fits in an argument.
abbrev pub AreShort : List (List ℕ) → Type 0
AreShort [] = Unit {0}
AreShort (w ∷ ws) = (length w < 512) × AreShort ws

-- One request for each word.
abbrev pub requests : List (List ℕ) → List ℕ
requests [] = []
requests (w ∷ ws) = 516 ∷ requests ws

-- The argument before is none, or a block apart from the buffer and from the new ones.
abbrev Before : (current lo hi : ℕ) → List ℕ → Type 0
Before current lo hi bs =
    (current ≡ 0) ⊎ (((hi ≤ current) ⊎ (current + 516 ≤ lo)) × Clear current (current + 516) bs)

module _ (A : Allocator) where
  -- Where the requests for the words `ws` succeed, and their blocks are apart from the memory from
  -- `lo` to `hi`, from each other and from the argument before.
  record Ready (ws : List (List ℕ)) (lo hi current : ℕ) (s : A.State) : Type 0 where
    granted : Grants A (requests ws) s
    clear : Clear lo hi (blocks A (requests ws) s)
    disjoint : Disjoint (blocks A (requests ws) s)
    before : Before current lo hi (blocks A (requests ws) s)

  -- What the rounds leave: the words in their blocks, and every byte outside them, the buffer and
  -- the pointer of the argument before.
  record WasParsed (fuel rounds str current lo hi : ℕ) (mem : Array) (sp : ℕ) (s : A.State)
      (ws : List (List ℕ)) : Type 0 where
    memory : Array
    done :
        parse_loop A fuel rounds str current mem sp s
        ≡ some (blocks A (requests ws) s, memory, 0, after A (requests ws) s)
    are : AreArguments memory (blocks A (requests ws) s) ws
    frame :
        (j : ℕ)
        → (j < lo) ⊎ (hi ≤ j)
        → Outside j (blocks A (requests ws) s)
        → (current ≡ 0) ⊎ ((j < current + 512) ⊎ (current + 516 ≤ j))
        → memory j ≡ mem j
