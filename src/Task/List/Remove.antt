-- ===== src/Task/List/Remove.antt =====
-- Tasks leave the list of src/task/task.c.
use udemy_kernel.Prelude.{
  ℕ, ◌≡◌, ◌≢◌, ◌∙◌, ap, sym, refl, List, [], ◌∷◌, ◌++◌, ◌==◌, if◌then◌else◌, arith, true, false,
}
use udemy_kernel.Task.{set_task, Tasks, bypass, task_list_remove, Task}
use udemy_kernel.Prelude.{first, last, NotIn, last-NotIn}
use udemy_kernel.Task.List.{subst, IsQueue, Linked}

-- The tasks of a list follow one another; their links backwards may be stale.
abbrev pub Forward : (ℕ → Task) → List ℕ → Type 0
Forward at [] = Unit
Forward at (a ∷ l) = (a ≢ 0) × ((at a).next ≡ first l) × Forward at l

-- Without the links backwards.
Linked-Forward : (at : ℕ → Task) (p : ℕ) (l : List ℕ) → Linked at p l → Forward at l
Linked-Forward at p [] linked = tt
Linked-Forward at p (a ∷ l) linked = (linked.0, linked.2, Linked-Forward at a l linked.4)

-- A store that differs in one task only.
kept-Forward :
    (at after : ℕ → Task) (x : ℕ) (l : List ℕ)
    → ((b : ℕ) → b ≢ x → after b ≡ at b)
    → NotIn x l
    → Forward at l
    → Forward after l
kept-Forward at after x [] same away old = tt
kept-Forward at after x (a ∷ l) same away old = (
  old.0,
  ap (λ t. t.next) (same a (λ e. away.0 (sym e))) ∙ old.1,
  kept-Forward at after x l same away.1 old.2,
)

NotIn-append : (a : ℕ) (l m : List ℕ) → NotIn a (l ++ m) → NotIn a l × NotIn a m
NotIn-append a [] m away = (tt, away)
NotIn-append a (b ∷ l) m away =
    let (left, right) = NotIn-append a l m away.1 in ((away.0, left), right)

-- The task in front of the one that leaves.
bypass-Forward :
    (at after : ℕ → Task) (p a : ℕ) (l : List ℕ) (t : ℕ) (m : List ℕ)
    → Linked at p (a ∷ l ++ t ∷ m)
    → ((b : ℕ) → b ≢ last a l → after b ≡ at b)
    → (after (last a l)).next ≡ first m
    → Forward after (a ∷ l ++ m)
bypass-Forward at after p a [] t m old same next =
    (old.0, next, kept-Forward at after a m same old.3.1 (Linked-Forward at t m old.4.4))
bypass-Forward at after p a (b ∷ l) t m old same next =
    let differs : a ≢ last b l =
      λ e. last-NotIn a b l old.3.0 (NotIn-append a l (t ∷ m) old.3.1).0 (sym e) in
    (
      old.0,
      ap (λ x. x.next) (same a differs) ∙ old.2,
      bypass-Forward at after a b l t m old.4 same next,
    )

last-append : (p : ℕ) (l m : List ℕ) → last p (l ++ m) ≡ last (last p l) m
last-append p [] m = refl
last-append p (a ∷ l) m = last-append a l m

-- What the links say of a task inside a list.
record Inside (at : ℕ → Task) (p : ℕ) (l : List ℕ) (t : ℕ) (m : List ℕ) : Type 0 where
  real : t ≢ 0
  prev : (at t).prev ≡ last p l
  next : (at t).next ≡ first m
  away : NotIn t m
  rest : Forward at m

inside :
    (at : ℕ → Task) (p : ℕ) (l : List ℕ) (t : ℕ) (m : List ℕ)
    → Linked at p (l ++ t ∷ m)
    → Inside at p l t m
inside at p [] t m old = record {
  real = old.0;
  prev = old.1;
  next = old.2;
  away = old.3;
  rest = Linked-Forward at t m old.4;
}
inside at p (a ∷ l) t m old =
    let i = inside at a l t m old.4 in
    record { real = i.real; prev = i.prev; next = i.next; away = i.away; rest = i.rest }

-- The task in front of it is another, and not NULL.
before :
    (at : ℕ → Task) (p a : ℕ) (l : List ℕ) (t : ℕ) (m : List ℕ)
    → Linked at p (a ∷ l ++ t ∷ m)
    → (last a l ≢ t) × (last a l ≢ 0)
before at p a [] t m old = (old.3.0, old.0)
before at p a (b ∷ l) t m old = before at a b l t m old.4

tail_links :
    (at : ℕ → Task) (p : ℕ) (l : List ℕ) (a b c : ℕ)
    → Linked at p (l ++ a ∷ b ∷ c ∷ [])
    → Linked at (last p l) (a ∷ b ∷ c ∷ [])
tail_links at p [] a b c old = old
tail_links at p (x ∷ l) a b c old = tail_links at x l a b c old.4

-- The end of the queue when `t` leaves, whose predecessor is `p`.
new_tail : (t p : ℕ) (m : List ℕ) → NotIn t m → (if t == last t m then p else last t m) ≡ last p m
new_tail t p [] away = ground arith
new_tail t p (b ∷ m) away =
    let other : (t == last b m) ≡ false = ground (arith, last-NotIn t b m away.0 away.1) in
    rw other refl

-- Any task leaves a queue of distinct tasks that are linked both ways: the others follow one
-- another as before, from the head to the tail, in the same order.
pub list_remove_lem :
    (ts : Tasks) (l : List ℕ) (t : ℕ) (m : List ℕ)
    → IsQueue ts (l ++ t ∷ m)
    → ((task_list_remove ts t).task_head ≡ first (l ++ m))
      × ((task_list_remove ts t).task_tail ≡ last 0 (l ++ m))
      × Forward (task_list_remove ts t).at (l ++ m)
unfolding task_list_remove bypass
list_remove_lem ts [] t m q =
    let i = inside ts.at 0 [] t m q.linked in
    let alone : ((ts.at t).prev == 0) ≡ true = ground (arith, i.prev) in
    let leads : (t == ts.task_head) ≡ true = ground (arith, q.head) in
    rw (task_list_remove, bypass, alone, leads)
      (i.next, rw (i.prev, q.tail) (new_tail t 0 m i.away), i.rest)
list_remove_lem ts (a ∷ l) t m q =
    let i = inside ts.at 0 (a ∷ l) t m q.linked in
    let (other, real) = before ts.at 0 a l t m q.linked in
    let behind : ((ts.at t).prev == 0) ≡ false = ground (arith, i.prev, real) in
    let differs : (ts.at t).prev ≢ t = subst (λ x. x ≢ t) (sym i.prev) other in
    let same : (t == (ts.at t).prev) ≡ false = ground (arith, differs) in
    let (away, _) = NotIn-append a l (t ∷ m) q.linked.3 in
    let follows : (t == ts.task_head) ≡ false =
      ground (arith, q.head, (NotIn-append a l (t ∷ m) q.linked.3).1.0) in
    let u : Tasks =
      set_task ts (ts.at t).prev (record (ts.at (ts.at t).prev) { next = (ts.at t).next }) in
    let passed : bypass ts t ≡ u = rw (bypass, behind) refl in
    let kept : (u.at t).prev ≡ (ts.at t).prev = ground (arith, same) in
    (
      rw (task_list_remove, passed, follows) q.head,
      rw
          (
            task_list_remove,
            passed,
            kept,
            i.prev,
            q.tail,
            last-append a l (t ∷ m),
            last-append a l m,
          )
          (new_tail t (last a l) m i.away),
      subst (λ store. Forward store (a ∷ l ++ m)) (sym (ap (λ x. x.at) passed))
          (bypass-Forward ts.at u.at 0 a l t m q.linked (λ b off. ground (arith, i.prev, off))
            (ground (arith, i.prev, i.next))),
    )

-- What leaving changes, for a task behind `p`.
remove_behind :
    (ts : Tasks) (t p : ℕ)
    → (ts.at t).prev ≡ p
    → p ≢ 0
    → p ≢ t
    → ((task_list_remove ts t).task_tail ≡ (if t == ts.task_tail then p else ts.task_tail))
      × ((b : ℕ) → b ≢ p → (task_list_remove ts t).at b ≡ ts.at b)
      × (((task_list_remove ts t).at p).next ≡ (ts.at t).next)
unfolding task_list_remove bypass
remove_behind ts t p is real other =
    let there : ((ts.at t).prev == 0) ≡ false = ground (arith, is, real) in
    let u : Tasks =
      set_task ts (ts.at t).prev (record (ts.at (ts.at t).prev) { next = (ts.at t).next }) in
    let passed : bypass ts t ≡ u = rw (bypass, there) refl in
    let kept : (u.at t).prev ≡ p = ground (arith, is, other) in
    let store : (task_list_remove ts t).at ≡ u.at = ap (λ x. x.at) passed in
    (
      rw (task_list_remove, passed, kept) refl,
      λ b off. subst (λ f. f b ≡ ts.at b) (sym store) (ground (arith, is, off)),
      subst (λ f. (f p).next ≡ (ts.at t).next) (sym store) (ground (arith, is)),
    )

-- The defect: where three tasks follow one another at the end of a queue, and the second and then
-- the third are removed, the first is still followed by the third, and the second is the tail.
pub list_remove_stale :
    (ts : Tasks) (l : List ℕ) (a b c : ℕ)
    → IsQueue ts (l ++ a ∷ b ∷ c ∷ [])
    → ((task_list_remove (task_list_remove ts b) c).task_tail ≡ b)
      × (((task_list_remove (task_list_remove ts b) c).at a).next ≡ c)
list_remove_stale ts l a b c q =
    let links = tail_links ts.at 0 l a b c q.linked in
    let ends : ts.task_tail ≡ c = q.tail ∙ last-append 0 l (a ∷ b ∷ c ∷ []) in
    let (tail1, same1, next1) = remove_behind ts b a links.4.1 links.0 links.3.0 in
    let c_off : c ≢ a = λ e. links.3.1.0 (sym e) in
    let back : ((task_list_remove ts b).at c).prev ≡ b =
      ap (λ x. x.prev) (same1 c c_off) ∙ links.4.4.1 in
    let (tail2, same2, _) = remove_behind (task_list_remove ts b) c b back links.4.0 links.4.3.0 in
    (
      ground (arith, tail2, tail1, ends, links.4.3.0),
      ap (λ x. x.next) (same2 a links.3.0) ∙ next1 ∙ links.4.2,
    )
