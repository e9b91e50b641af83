-- ===== src/Stdlib.antt =====
-- The library of the user programs: programs/stdlib/src/stdlib.c, peachos.c and strtok of string.c.
-- What a program gets from the kernel, the keys and the blocks, is a parameter.
mod Itoa
mod Readline
mod Tokens
mod Argument
mod Command
mod Examples
use udemy_kernel.Prelude.{
  ℕ, zero, suc, ◌+◌, ◌-◌, ◌/◌, ◌%◌, ◌^◌, ℤ, pos, negsuc, Array, update, Option, none, some, List,
  [], ◌∷◌, Bool, true, false, ◌||◌, ◌&&◌, ◌==◌, ltb, leb, if◌then◌else◌,
}
use udemy_kernel.Str.{strncpy}
use udemy_kernel.PathParser.{Allocator}
use udemy_kernel.Task.{place}

-- The loop of `itoa` for -`i`: the characters are written in front of `loc`.
unfoldable pub itoa_loop : (fuel i : ℕ) → (text : Array) → (loc : ℕ) → Option (Array × ℕ)
itoa_loop zero i text loc = none
itoa_loop (suc fuel) i text loc =
    let rest = itoa_loop fuel (i / 10) (update text (loc - 1) (b'0' + i % 10)) (loc - 1) in
    if i == 0 then some (text, loc) else rest

-- The number that is printed without its sign, and whether it has one.
unfoldable pub magnitude : ℤ → ℕ × Bool
magnitude (pos n) = (n, false)
magnitude (negsuc n) = (n + 1, true)

-- The static text, and the index in it at which the returned string starts. `none` is no fuel left.
unfoldable pub itoa : (fuel : ℕ) → (text : Array) → ℤ → Option (Array × ℕ)
unfolding itoa_loop magnitude
itoa fuel text i =
    let (m, neg) = magnitude i in
    elim (itoa_loop fuel m (update text 11 0) 11) [
      | none ↦ none
      | some (text1, loc1) ↦
          let (text2, loc2) : Array × ℕ =
            if loc1 == 11 then (update text1 (loc1 - 1) b'0', loc1 - 1) else (text1, loc1) in
          if neg then some (update text2 (loc2 - 1) b'-', loc2 - 1) else some (text2, loc2)
    ]

-- The loop of `peachos_terminal_readline` with `i` characters in the line. `keys` is what the
-- calls of peachos_getkey return, in order, 0 where no key was pressed, which peachos_getkeyblock
-- skips. The result is the line, what was put on the screen, the last first, and the keys that are
-- left; `none` is where no key comes any more. A key is cut to a char.
unfoldable pub readline_loop :
    (max : ℕ)
    → (output_while_typing : Bool) → (keys : List ℕ) → (i : ℕ) → (out : Array) → (shown : List ℕ)
    → Option (Array × List ℕ × List ℕ)
readline_loop max echo [] i out shown =
    if ltb i (max - 1) then none else some (update out i 0, shown, [])
readline_loop max echo (val ∷ keys) i out shown =
    let key = val % 2 ^ 8 in
    let shown1 = if echo then key ∷ shown else shown in
    let wait = readline_loop max echo keys i out shown in
    let back = readline_loop max echo keys (i - 1) (update out (i - 1) 0) shown1 in
    let next = readline_loop max echo keys (i + 1) (update out i key) shown1 in
    if leb (max - 1) i
    then some (update out i 0, shown, val ∷ keys)
    else if val == 0
    then wait
    else if key == 13
    then some (update out i 0, shown, keys)
    else if key == 8 && leb 1 i
    then back
    else next

unfoldable pub terminal_readline :
    (out : Array)
    → (max : ℕ) → (output_while_typing : Bool) → (keys : List ℕ) → Option (Array × List ℕ × List ℕ)
unfolding readline_loop
terminal_readline out max echo keys = readline_loop max echo keys 0 out []

-- Whether one of the delimiters is `c`.
unfoldable pub is_delimiter : (delimiters : List ℕ) → (c : ℕ) → Bool
is_delimiter [] c = false
is_delimiter (d ∷ ds) c = (c == d) || is_delimiter ds c

-- The first place from `p_start` on that holds no delimiter.
unfoldable pub skip_delimiters :
    (delimiters : List ℕ) → (fuel : ℕ) → Array → (p_start : ℕ) → Option ℕ
unfolding is_delimiter
skip_delimiters ds zero mem p_start = none
skip_delimiters ds (suc fuel) mem p_start =
    let rest = skip_delimiters ds fuel mem (p_start + 1) in
    if is_delimiter ds (mem p_start) then rest else some p_start

-- The end of the token: the delimiter behind it, if there is one, is cleared and passed.
unfoldable pub end_token :
    (delimiters : List ℕ) → (fuel : ℕ) → Array → (sp : ℕ) → Option (Array × ℕ)
unfolding is_delimiter
end_token ds zero mem sp = none
end_token ds (suc fuel) mem sp =
    let rest = end_token ds fuel mem (sp + 1) in
    if mem sp == 0
    then some (mem, sp)
    else if is_delimiter ds (mem sp)
    then some (update mem sp 0, sp + 1)
    else rest

-- The token, the memory and `sp` after the call. NULL is 0; `none` is no fuel left.
unfoldable pub strtok :
    (fuel : ℕ) → (str : ℕ) → (delimiters : List ℕ) → Array → (sp : ℕ) → Option (ℕ × Array × ℕ)
unfolding skip_delimiters end_token
strtok fuel str ds mem sp =
    let sp1 = if sp == 0 then str else sp in
    let found : Option (ℕ × Array × ℕ) = elim (skip_delimiters ds fuel mem sp1) [
      | none ↦ none
      | some p_start ↦ elim (end_token ds fuel mem p_start) [
        | none ↦ none
        | some (mem', sp') ↦
            if mem p_start == 0 then some (0, mem, 0) else some (p_start, mem', sp')
      ]
    ] in
    if sp1 == 0 then some (0, mem, 0) else found

-- A command argument: its address. Its 512 bytes, and behind them the pointer to the next one, lie
-- in memory.
abbrev pub CommandArgument : Type 0
CommandArgument = ℕ

-- `command->next = next`, the bytes of a pointer.
abbrev pub set_next : Array → (command next : ℕ) → Array
set_next mem command next = place mem (command + 512) 4 (λ j. next / 256 ^ j % 256)

-- A new block of zeros gets the token as its argument, and no next one.
unfoldable pub fill_argument : Array → (new_command token : ℕ) → Array
fill_argument mem new_command token =
    let zeroed = place mem new_command 516 (λ _. 0) in
    let argument = strncpy (λ j. zeroed (new_command + j)) (λ j. zeroed (token + j)) 512 in
    set_next (place zeroed new_command 512 argument) new_command 0

-- The one before, if there is one, is followed by the new one.
unfoldable pub follow : Array → (current new_command : ℕ) → Array
follow mem current new_command = if current == 0 then mem else set_next mem current new_command

-- peachos_malloc is the kzalloc of `A`, which may fail.
module _ (A : Allocator) where
  -- The calls of strtok in `peachos_parse_command`, the first with `str` and the others with NULL;
  -- `current` is the argument before, or 0: the list of arguments, the memory and `sp` after them,
  -- and the state of the allocator.
  unfoldable pub parse_loop :
      (fuel rounds str current : ℕ)
      → Array
      → (sp : ℕ) → A.State
      → Option (List CommandArgument × Array × ℕ × A.State)
  unfolding strtok
  parse_loop fuel zero str current mem sp s = none
  parse_loop fuel (suc rounds) str current mem sp s = elim (strtok fuel str (b' ' ∷ []) mem sp) [
    | none ↦ none
    | some (token, mem1, sp1) ↦
        let (new_command, s1) = A.kzalloc 516 s in
        let mem2 = follow (fill_argument mem1 new_command token) current new_command in
        let rest : Option (List CommandArgument × Array × ℕ × A.State) =
          elim (parse_loop fuel rounds 0 new_command mem2 sp1 s1) [
            | none ↦ none
            | some (next, mem3, sp3, s3) ↦ some (new_command ∷ next, mem3, sp3, s3)
          ] in
        if token == 0
        then some ([], mem1, sp1, s)
        else if new_command == 0
        then some ([], mem1, sp1, s1)
        else rest
  ]

  -- `scommand` is the address of the buffer on the stack. NULL is the empty list.
  unfoldable pub parse_command :
      (fuel scommand : ℕ)
      → (command : Array) → (max : ℕ) → Array
      → (sp : ℕ) → A.State
      → Option (List CommandArgument × Array × ℕ × A.State)
  unfolding parse_loop
  parse_command fuel scommand command max mem sp s =
      let copied = strncpy (λ j. mem (scommand + j)) command 1025 in
      let parsed = parse_loop fuel fuel scommand 0 (place mem scommand 1025 copied) sp s in
      if leb 1025 max then some ([], mem, sp, s) else parsed
