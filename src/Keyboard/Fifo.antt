-- ===== src/Keyboard/Fifo.antt =====
-- The ring of src/keyboard/keyboard.c as a queue of characters, oldest first.
use mathlib.Core.Path.{subst}
use mathlib.Core.List.{append-nil, append_assoc}
use udemy_kernel.Prelude.{
  ap, refl, suc, ◌∙◌, ℕ, suc, ◌+◌, ◌%◌, ◌^◌, ◌≤◌, ◌<◌, ◌≡◌, ◌≢◌, refl, List, [], ◌∷◌, ◌++◌, Option,
  some, Array, update, arith, length, length-append,
}
use udemy_kernel.Keyboard.{KeyboardBuffer, keyboard_push, keyboard_pop, keyboard_backspace}

-- The cells of the ring from index `i` on hold the characters, none of which is 0.
abbrev pub Holds : Array → ℕ → List ℕ → Type 0
Holds f i [] = Unit
Holds f i (c ∷ q) = (f (i % 1024) ≡ c) × (c ≢ 0) × Holds f (i + 1) q

-- The ring holds the characters `q`, and 0 in every other cell.
pub record IsQueue (k : KeyboardBuffer) (q : List ℕ) : Type 0 where
  pub held : Holds k.buffer k.head q
  pub rest : (j : ℕ) → length q ≤ j → j < 1024 → k.buffer ((k.head + j) % 1024) ≡ 0
  pub count : length q ≤ 1024
  pub tail : k.tail ≡ (k.head + length q) % 2 ^ 32

Holds-same :
    (f g : Array) (i j : ℕ) (q : List ℕ)
    → i % 1024 ≡ j % 1024
    → ((m : ℕ) → m < length q → g ((i + m) % 1024) ≡ f ((i + m) % 1024))
    → Holds f i q
    → Holds g j q
Holds-same f g i j [] e same h = tt
Holds-same f g i j (c ∷ q) e same (at, ne, more) =
    let zeroth : (i + 0) % 1024 ≡ j % 1024 = omega arith in
    let here : g (j % 1024) ≡ f (j % 1024) = rw (← zeroth) (same 0 (omega arith)) in
    let there : f (j % 1024) ≡ c = rw (← e) at in
    (
      here ∙ there,
      ne,
      Holds-same f g (i + 1) (j + 1) q (omega arith)
          (λ m lt.
            let shift : i + 1 + m ≡ i + (m + 1) = omega arith in
            rw shift (same (m + 1) (omega arith)))
          more,
    )

Holds-snoc :
    (f : Array) (i : ℕ) (q : List ℕ) (c : ℕ)
    → Holds f i q
    → f ((i + length q) % 1024) ≡ c
    → c ≢ 0
    → Holds f i (q ++ c ∷ [])
Holds-snoc f i [] c h at ne =
    let zeroth : (i + 0) % 1024 ≡ i % 1024 = omega arith in (rw (← zeroth) at, ne, tt)
Holds-snoc f i (d ∷ q) c (here, ne', more) at ne =
    let shift : i + suc (length q) ≡ i + 1 + length q = omega arith in
    (here, ne', Holds-snoc f (i + 1) q c more (rw (← shift) at) ne)

-- A character that is not 0, pushed while fewer than 1024 are waiting, goes to the end of the
-- queue.
pub push-IsQueue :
    (k : KeyboardBuffer) (q : List ℕ) (c : ℕ)
    → IsQueue k q
    → c ≢ 0
    → length q < 1024
    → (k' : KeyboardBuffer) × (keyboard_push c (some k) ≡ some k') × IsQueue k' (q ++ c ∷ [])
unfolding keyboard_push
push-IsQueue k q c is ne room =
    let slot : ℕ = k.tail % 1024 in
    let at : slot ≡ (k.head + length q) % 1024 = omega (arith, is.tail) in
    let f : Array = update k.buffer slot c in
    let stays : (m : ℕ) → m < length q → f ((k.head + m) % 1024) ≡ k.buffer ((k.head + m) % 1024) =
      λ m lt. ground (arith, at) in
    (
      record { buffer = f; tail = (k.tail + 1) % 2 ^ 32; head = k.head },
      ground arith,
      record {
        held =
            Holds-snoc f k.head q c (Holds-same k.buffer f k.head k.head q refl stays is.held)
              (ground (arith, at)) ne;
        rest = λ j lo hi. ground (arith, at, length-append q (c ∷ []), is.rest j);
        count = omega (arith, length-append q (c ∷ []));
        tail = omega (arith, length-append q (c ∷ []), is.tail);
      },
    )

-- A pop takes the oldest character off the queue.
pub pop-IsQueue :
    (k : KeyboardBuffer) (q : List ℕ) (c : ℕ)
    → IsQueue k (c ∷ q)
    → (k' : KeyboardBuffer) × (keyboard_pop (some k) ≡ (c, some k')) × IsQueue k' q
unfolding keyboard_pop
pop-IsQueue k q c is =
    let slot : ℕ = k.head % 1024 in
    let (here, ne, more) = is.held in
    let f : Array = update k.buffer slot 0 in
    let stays : (m : ℕ)
        → m < length q
        → f ((k.head + 1 + m) % 1024) ≡ k.buffer ((k.head + 1 + m) % 1024) =
      λ m lt. ground (arith, is.count) in
    (
      record { buffer = f; tail = k.tail; head = (k.head + 1) % 2 ^ 32 },
      ground (arith, here, ne),
      record {
        held =
            Holds-same k.buffer f (k.head + 1) ((k.head + 1) % 2 ^ 32) q (omega arith) stays more;
        rest = λ j lo hi.
            let shift : ((k.head + 1) % 2 ^ 32 + j) % 1024 ≡ (k.head + (j + 1)) % 1024 =
              omega arith in
            rw shift (ground (arith, is.rest (j + 1)));
        count = omega (arith, is.count);
        tail = omega (arith, is.tail);
      },
    )

-- An empty queue gives 0, and nothing changes.
pub pop_empty : (k : KeyboardBuffer) → IsQueue k [] → keyboard_pop (some k) ≡ (0, some k)
unfolding keyboard_pop
pop_empty k is =
    let zeroth : (k.head + 0) % 1024 ≡ k.head % 1024 = omega arith in
    let blank : k.buffer (k.head % 1024) ≡ 0 =
      rw (← zeroth) (is.rest 0 (omega arith) (omega arith)) in
    ground (arith, blank)

-- Pops as long as the list of expected characters.
abbrev pub pops : List ℕ → Option KeyboardBuffer → List ℕ × Option KeyboardBuffer
pops [] k = ([], k)
pops (_ ∷ q) k = let (c, k') = keyboard_pop k in let (cs, k'') = pops q k' in (c ∷ cs, k'')

abbrev pub pushes : List ℕ → Option KeyboardBuffer → Option KeyboardBuffer
pushes [] k = k
pushes (c ∷ q) k = pushes q (keyboard_push c k)

abbrev pub NoZero : List ℕ → Type 0
NoZero [] = Unit
NoZero (c ∷ q) = (c ≢ 0) × NoZero q

pushes-IsQueue :
    (p q : List ℕ) (k : KeyboardBuffer)
    → IsQueue k p
    → NoZero q
    → length p + length q ≤ 1024
    → (k' : KeyboardBuffer) × (pushes q (some k) ≡ some k') × IsQueue k' (p ++ q)
pushes-IsQueue p [] k is clean fits = (k, refl, rw (append-nil p) is)
pushes-IsQueue p (c ∷ q) k is (ne, clean) fits =
    let (k1, pushed, is1) = push-IsQueue k p c is ne (omega arith) in
    let (k2, all, is2) =
      pushes-IsQueue (p ++ c ∷ []) q k1 is1 clean (omega (arith, length-append p (c ∷ []))) in
    (k2, rw pushed all, subst (IsQueue k2) (append_assoc p (c ∷ []) q) is2)

pops-IsQueue : (q : List ℕ) (k : KeyboardBuffer) → IsQueue k q → (pops q (some k)).0 ≡ q
pops-IsQueue [] k is = refl
pops-IsQueue (c ∷ q) k is =
    let (k1, popped, is1) = pop-IsQueue k q c is in
    rw popped (ap (λ (t : List ℕ). c ∷ t) (pops-IsQueue q k1 is1))

-- At most 1024 characters, none of them 0, that are pushed into an empty ring come out of it in
-- the order in which they were pushed.
pub pops-pushes :
    (k : KeyboardBuffer) (q : List ℕ)
    → IsQueue k []
    → NoZero q
    → length q ≤ 1024
    → (pops q (pushes q (some k))).0 ≡ q
pops-pushes k q is clean fits =
    let (k1, pushed, is1) = pushes-IsQueue [] q k is clean (omega arith) in
    rw pushed (pops-IsQueue q k1 is1)

-- The defect: a character pushed while 1024 are waiting takes the place of the oldest, and the
-- next pop returns it ahead of the 1023 that were typed before it.
pub push_full :
    (k : KeyboardBuffer) (q : List ℕ) (c : ℕ)
    → IsQueue k q
    → length q ≡ 1024
    → c ≢ 0
    → (keyboard_pop (keyboard_push c (some k))).0 ≡ c
unfolding keyboard_push keyboard_pop
push_full k q c is full ne =
    let slot : k.tail % 1024 ≡ k.head % 1024 = omega (arith, is.tail) in ground (arith, slot)

-- The defect that the code's own comment asks about: after a backspace in an empty ring, the next
-- pop returns 0 although a character was pushed.
pub backspace_empty :
    (k : KeyboardBuffer) (c : ℕ)
    → IsQueue k []
    → (keyboard_pop (keyboard_push c (some (keyboard_backspace k)))).0 ≡ 0
unfolding keyboard_push keyboard_pop keyboard_backspace
backspace_empty k c is =
    let blank : k.buffer (k.head % 1024) ≡ 0 =
      let zeroth : (k.head + 0) % 1024 ≡ k.head % 1024 = omega arith in
      rw (← zeroth) (is.rest 0 (omega arith) (omega arith)) in
    ground (arith, blank, is.tail)
