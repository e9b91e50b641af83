-- ===== src/Str.antt =====
-- src/string/string.c. A `char *` is an array of bytes. The loops that run to the terminator take
-- fuel and return `none` when it runs out.
pub mod Length
pub mod Copy
pub mod Compare
use udemy_kernel.Prelude.{
  ℕ, zero, suc, ◌+◌, ◌-◌, Bool, ◌&&◌, ◌||◌, not, Option, none, some, Array, update, ℤ, pos, sub_ℕ,
  signed8, minus, leb, ◌==◌, if◌then◌else◌,
}

-- A byte from 128 on is a negative `char`, so it is in neither range.
unfoldable pub tolower : ℕ → ℕ
tolower c = if leb 65 c && leb c 90 then c + 32 else c

unfoldable pub toupper : ℕ → ℕ
toupper c = if leb (65 + 32) c && leb c (90 + 32) then c - 32 else c

strlen_loop : Array → (fuel i : ℕ) → Option ℕ
strlen_loop ptr zero i = none
strlen_loop ptr (suc fuel) i =
    let rest = strlen_loop ptr fuel (i + 1) in if ptr i == 0 then some i else rest

unfoldable pub strlen : (fuel : ℕ) → Array → Option ℕ
unfolding strlen_loop
strlen fuel ptr = strlen_loop ptr fuel 0

-- `k` rounds are left until `i` reaches `max`.
strnlen_loop : Array → (k i : ℕ) → ℕ
strnlen_loop ptr zero i = i
strnlen_loop ptr (suc k) i = let rest = strnlen_loop ptr k (i + 1) in if ptr i == 0 then i else rest

unfoldable pub strnlen : Array → ℕ → ℕ
unfolding strnlen_loop
strnlen ptr max = strnlen_loop ptr max 0

terminator_loop : Array → (terminator k i : ℕ) → ℕ
terminator_loop str terminator zero i = i
terminator_loop str terminator (suc k) i =
    let rest = terminator_loop str terminator k (i + 1) in
    if str i == 0 || str i == terminator then i else rest

unfoldable pub strnlen_terminator : Array → (max terminator : ℕ) → ℕ
unfolding terminator_loop
strnlen_terminator str max terminator = terminator_loop str terminator max 0

istrncmp_loop : Array → Array → (n i : ℕ) → ℤ
istrncmp_loop s1 s2 zero i = pos 0
istrncmp_loop s1 s2 (suc n) i =
    let u1 = s1 i in
    let u2 = s2 i in
    let rest = istrncmp_loop s1 s2 n (i + 1) in
    if not (u1 == u2) && not (tolower u1 == tolower u2)
    then sub_ℕ u1 u2
    else if u1 == 0
    then pos 0
    else rest

unfoldable pub istrncmp : Array → Array → ℕ → ℤ
unfolding istrncmp_loop tolower
istrncmp s1 s2 n = istrncmp_loop s1 s2 n 0

strncmp_loop : Array → Array → (n i : ℕ) → ℤ
strncmp_loop s1 s2 zero i = pos 0
strncmp_loop s1 s2 (suc n) i =
    let u1 = s1 i in
    let u2 = s2 i in
    let rest = strncmp_loop s1 s2 n (i + 1) in
    if not (u1 == u2) then sub_ℕ u1 u2 else if u1 == 0 then pos 0 else rest

unfoldable pub strncmp : Array → Array → ℕ → ℤ
unfolding strncmp_loop
strncmp s1 s2 n = strncmp_loop s1 s2 n 0

-- The loop with `k` rounds left until `count - 1`, and the terminator that is written after it.
strncpy_loop : Array → (k i : ℕ) → Array → Array
strncpy_loop src zero i dest = update dest i 0
strncpy_loop src (suc k) i dest =
    let rest = strncpy_loop src k (i + 1) (update dest i (src i)) in
    if src i == 0 then update dest i 0 else rest

unfoldable pub strncpy : Array → Array → ℕ → Array
unfolding strncpy_loop
strncpy dest src count = strncpy_loop src (count - 1) 0 dest

unfoldable pub isdigit : ℕ → Bool
isdigit c = leb 48 c && leb c 57

unfoldable pub tonumericdigit : ℕ → ℤ
tonumericdigit c = minus (signed8 c) 48

strcpy_loop : Array → (fuel i : ℕ) → Array → Option Array
strcpy_loop src zero i dest = none
strcpy_loop src (suc fuel) i dest =
    let rest = strcpy_loop src fuel (i + 1) (update dest i (src i)) in
    if src i == 0 then some (update dest i 0) else rest

unfoldable pub strcpy : (fuel : ℕ) → Array → Array → Option Array
unfolding strcpy_loop
strcpy fuel dest src = strcpy_loop src fuel 0 dest
