-- ===== src/Task/List.antt =====
-- The list of tasks of src/task/task.c as a queue, and the turns that its tasks take.
pub mod Remove
use mathlib.Core.Path.{subst}
use udemy_kernel.Prelude.{
  first, last, NotIn, last-NotIn, last-append, NotIn-append, true, false, ℕ, zero, suc, ◌+◌, ◌-◌,
  ◌<◌, ◌≤◌, ◌≡◌, ◌≢◌, ◌∙◌, ap, sym, refl, Bool-cases, inl, inr, List, [], ◌∷◌, ◌++◌, length, get_or,
  Option, some, none, ◌==◌, if◌then◌else◌, arith,
}
use udemy_kernel.Task.{
  Task, Tasks, Registers, task_get_next, task_next, task_switch, task_link, set_task,
}

-- The tasks of a list, `p` in front of the first, are distinct and linked both ways.
abbrev pub Linked : (ℕ → Task) → (p : ℕ) → List ℕ → Type 0
Linked at p [] = Unit
Linked at p (a ∷ l) =
    (a ≢ 0) × ((at a).prev ≡ p) × ((at a).next ≡ first l) × NotIn a l × Linked at a l

pub record IsQueue (ts : Tasks) (l : List ℕ) : Type 0 where
  pub head : ts.task_head ≡ first l
  pub tail : ts.task_tail ≡ last 0 l
  pub linked : Linked ts.at 0 l

-- The fields of a new last task, and of the last one before.
pub record Appends (at after : ℕ → Task) (tail t : ℕ) : Type 0 where
  pub fresh_prev : (after t).prev ≡ tail
  pub fresh_next : (after t).next ≡ 0
  pub tail_prev : (after tail).prev ≡ (at tail).prev
  pub tail_next : (after tail).next ≡ t
  pub others : (b : ℕ) → b ≢ t → b ≢ tail → after b ≡ at b

append-Linked :
    (at after : ℕ → Task) (p a : ℕ) (l : List ℕ) (t : ℕ)
    → Appends at after (last a l) t
    → t ≢ 0
    → NotIn t (a ∷ l)
    → Linked at p (a ∷ l)
    → Linked after p (a ∷ l ++ t ∷ [])
append-Linked at after p a [] t new real away old = (
  old.0,
  new.tail_prev ∙ old.1,
  new.tail_next,
  ((λ same. away.0 (sym same)), tt),
  (real, new.fresh_prev, new.fresh_next, tt, tt),
)
append-Linked at after p a (b ∷ l) t new real away old =
    let same : after a ≡ at a =
      new.others a (λ e. away.0 (sym e)) (λ e. last-NotIn a b l old.3.0 old.3.1 (sym e)) in
    (
      old.0,
      ap (λ x. x.prev) same ∙ old.1,
      ap (λ x. x.next) same ∙ old.2,
      NotIn-append a (b ∷ l) t old.3 (λ e. away.0 (sym e)),
      append-Linked at after a b l t new real away.1 old.4,
    )

-- The store behind the linking of a task.
abbrev linked_at : Tasks → (task : ℕ) → ℕ → Task
linked_at ts task =
    let ts1 = set_task ts ts.task_tail (record (ts.at ts.task_tail) { next = task }) in
    (set_task ts1 task (record (ts1.at task) { prev = ts1.task_tail })).at

link-Appends :
    (ts : Tasks) (t : ℕ)
    → ts.task_tail ≢ t
    → (ts.at t).next ≡ 0
    → Appends ts.at (linked_at ts t) ts.task_tail t
link-Appends ts t other no_next = record {
  fresh_prev = ground arith;
  fresh_next = ground (arith, other, no_next);
  tail_prev = ground (arith, other);
  tail_next = ground (arith, other);
  others = λ b new old. ground (arith, new, old);
}

-- A new task that is not in the queue, and whose links are NULL, becomes its last.
pub link-IsQueue :
    (ts : Tasks) (l : List ℕ) (t : ℕ)
    → IsQueue ts l
    → t ≢ 0
    → NotIn t l
    → (ts.at t).prev ≡ 0
    → (ts.at t).next ≡ 0
    → IsQueue (task_link ts t) (l ++ t ∷ [])
unfolding task_link
link-IsQueue ts [] t q real away no_prev no_next =
    let empty : (ts.task_head == 0) ≡ true = ground (arith, q.head) in
    rw (task_link, empty)
      (record { head = refl; tail = refl; linked = (real, no_prev, no_next, tt, tt) })
link-IsQueue ts (a ∷ l) t q real away no_prev no_next =
    let full : (ts.task_head == 0) ≡ false = ground (arith, q.head, q.linked.0) in
    let other : ts.task_tail ≢ t =
      subst (λ x. x ≢ t) (sym q.tail) (last-NotIn t a l away.0 away.1) in
    rw (task_link, full)
      (record {
        head = q.head;
        tail = sym (last-append a l t);
        linked =
            append-Linked ts.at (linked_at ts t) 0 a l t
              (subst (λ x. Appends ts.at (linked_at ts t) x t) q.tail
                (link-Appends ts t other no_next))
              real away q.linked;
      })

-- Behind the place `i` of a queue comes the next task, or NULL.
next_lem :
    (at : ℕ → Task) (p : ℕ) (l : List ℕ) (i : ℕ)
    → Linked at p l
    → i < length l
    → (get_or l i 0 ≢ 0) × ((at (get_or l i 0)).next ≡ get_or l (i + 1) 0)
next_lem at p [] i linked within = absurd (omega (arith, within))
next_lem at p (a ∷ []) zero linked within = (linked.0, linked.2)
next_lem at p (a ∷ b ∷ l) zero linked within = (linked.0, linked.2)
next_lem at p (a ∷ l) (suc i) linked within =
    let shape : suc i + 1 ≡ suc (i + 1) = omega arith in
    rw shape (next_lem at a l i linked.4 (omega (arith, within)))

-- The place behind `i` in a ring of `n`.
abbrev pub after : (n i : ℕ) → ℕ
after n i = if i + 1 == n then 0 else i + 1

end_lem : (l : List ℕ) (i : ℕ) → length l ≤ i → get_or l i 0 ≡ 0
end_lem [] i end = refl
end_lem (a ∷ l) zero end = absurd (omega (arith, end))
end_lem (a ∷ l) (suc i) end = end_lem l i (omega (arith, end))

first_lem : (l : List ℕ) → first l ≡ get_or l 0 0
first_lem [] = refl
first_lem (a ∷ l) = refl

-- In a queue with the current task at the place `i`, the next task is that behind it, or the first.
pub get_next_lem :
    (ts : Tasks) (l : List ℕ) (i : ℕ)
    → IsQueue ts l
    → i < length l
    → ts.current_task ≡ get_or l i 0
    → task_get_next ts ≡ get_or l (after (length l) i) 0
unfolding task_get_next
get_next_lem ts l i q within current =
    let (_, goes) = next_lem ts.at 0 l i q.linked within in
    let next : (ts.at ts.current_task).next ≡ get_or l (i + 1) 0 = rw current goes in
    elim (Bool-cases (i + 1 == length l)) [
      | inl ends ↦
          let null : get_or l (i + 1) 0 ≡ 0 = end_lem l (i + 1) (ground (arith, ends)) in
          rw (next, null, ends) (q.head ∙ first_lem l)
      | inr more ↦
          let (real, _) = next_lem ts.at 0 l (i + 1) q.linked (ground (arith, more, within)) in
          let goes_on : (get_or l (i + 1) 0 == 0) ≡ false = ground (arith, real) in
          rw (next, goes_on, more) refl
    ]

-- The task that `task_next` switches to, over and over.
pub turns : (k : ℕ) → Tasks → Option Tasks
turns zero ts = some ts
turns (suc k) ts = elim (task_next ts) [ none ↦ none | some (_, ts') ↦ turns k ts' ]

-- The place `k` turns behind `i` in a ring of `n`.
abbrev place_after : (n k i : ℕ) → ℕ
place_after n zero i = i
place_after n (suc k) i = place_after n k (after n i)

after_within : (n i : ℕ) → i < n → after n i < n
after_within n i within = ground (arith, within)

turns_lem :
    (k : ℕ) (ts : Tasks) (l : List ℕ) (i : ℕ)
    → IsQueue ts l
    → i < length l
    → ts.current_task ≡ get_or l i 0
    → (ts' : Tasks) × (turns k ts ≡ some ts')
      × (ts'.current_task ≡ get_or l (place_after (length l) k i) 0)
      × IsQueue ts' l
unfolding turns task_next task_switch
turns_lem zero ts l i q within current = (ts, refl, current, q)
turns_lem (suc k) ts l i q within current =
    let next = get_next_lem ts l i q within current in
    let inside : after (length l) i < length l = after_within (length l) i within in
    let (real, _) = next_lem ts.at 0 l (after (length l) i) q.linked inside in
    let some_task : (task_get_next ts == 0) ≡ false = ground (arith, next, real) in
    let ts1 = task_switch ts (task_get_next ts) in
    let (ts', went, at, queue) =
      turns_lem k ts1 l (after (length l) i)
        (record { head = q.head; tail = q.tail; linked = q.linked }) inside next in
    (ts', rw (turns, task_next, some_task) went, at, queue)

-- From the place `i` on, the place `j` is reached within a round.
reach_up : (n d i : ℕ) → i + d < n → place_after n d i ≡ i + d
reach_up n zero i within = omega arith
reach_up n (suc d) i within =
    let step : after n i ≡ i + 1 = ground (arith, within) in
    rw step (reach_up n d (i + 1) (omega (arith, within)) ∙ omega arith)

reach_end : (n d j i : ℕ) → i + d + 1 ≡ n → j < n → place_after n (d + suc j) i ≡ j
reach_end n zero j i ends within =
    let step : after n i ≡ 0 = ground (arith, ends) in
    let shape : 0 + suc j ≡ suc j = omega arith in
    rw (shape, step) (reach_up n j 0 (omega (arith, within)) ∙ omega arith)
reach_end n (suc d) j i ends within =
    let step : after n i ≡ i + 1 = ground (arith, ends) in
    let shape : suc d + suc j ≡ suc (d + suc j) = omega arith in
    ap (λ x. place_after n x i) shape
    ∙ ap (place_after n (d + suc j)) step
    ∙ reach_end n d j (i + 1) (omega (arith, ends)) within

-- In a queue of tasks one of which is the current one, every task gets its turn: a number of
-- switches that is at most twice the length of the queue ends at the task, and the tasks are a
-- queue still.
pub turn_comes :
    (ts : Tasks) (l : List ℕ) (i j : ℕ)
    → IsQueue ts l
    → i < length l
    → ts.current_task ≡ get_or l i 0
    → j < length l
    → (k : ℕ) × (k ≤ length l + length l)
      × (ts' : Tasks) × (turns k ts ≡ some ts')
      × (ts'.current_task ≡ get_or l j 0)
      × IsQueue ts' l
turn_comes ts l i j q within current wanted =
    let d : ℕ = length l - i - 1 in
    let (ts', went, at, queue) = turns_lem (d + suc j) ts l i q within current in
    let ends : place_after (length l) (d + suc j) i ≡ j =
      reach_end (length l) d j i (omega (arith, within)) wanted in
    (d + suc j, omega (arith, wanted), ts', went, at ∙ ap (λ x. get_or l x 0) ends, queue)
