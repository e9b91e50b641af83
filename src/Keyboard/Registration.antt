-- ===== src/Keyboard/Registration.antt =====
-- The list of keyboard drivers of src/keyboard/keyboard.c, and its start with the driver of
-- classic.c.
use mathlib.Core.Path.{subst}
use udemy_kernel.Idt.{idt_register_interrupt_callback}
use udemy_kernel.Keyboard.Drivers.{
  Keyboard, Keyboards, keyboard_link, keyboard_insert, keyboard_init, classic_keyboard_init,
  keyboard_set_capslock, keyboard_get_capslock, isr_keyboard_interrupt, enable_first_port,
}
use udemy_kernel.Prelude.{
  ℕ, ◌≡◌, ◌≢◌, false, true, List, [], ◌∷◌, ◌++◌, Result, err, einvarg, ◌==◌, if◌then◌else◌, refl,
  sym, ◌∙◌, ap, arith, first, last, NotIn, last-NotIn, last-append, NotIn-append,
}

-- The keyboards of a list are distinct, and each has the one behind it as its `next`.
abbrev pub Chained : (ℕ → Keyboard) → List ℕ → Type 0
Chained at [] = Unit
Chained at (a ∷ l) = (a ≢ 0) × ((at a).next ≡ first l) × NotIn a l × Chained at l

pub record IsDriverList (ks : Keyboards) (l : List ℕ) : Type 0 where
  pub head : ks.keyboard_list_head ≡ first l
  pub last_one : ks.keyboard_list_last ≡ last 0 l
  pub chained : Chained ks.at l

append-Chained :
    (at after : ℕ → Keyboard) (a : ℕ) (l : List ℕ) (t : ℕ)
    → (after (last a l)).next ≡ t
    → (after t).next ≡ 0
    → ((b : ℕ) → b ≢ last a l → after b ≡ at b)
    → t ≢ 0
    → NotIn t (a ∷ l)
    → Chained at (a ∷ l)
    → Chained after (a ∷ l ++ t ∷ [])
append-Chained at after a [] t links ends others real away old =
    (old.0, links, ((λ same. away.0 (sym same)), tt), (real, ends, tt, tt))
append-Chained at after a (b ∷ l) t links ends others real away old =
    let same : after a ≡ at a = others a (λ e. last-NotIn a b l old.2.0 old.2.1 (sym e)) in
    (
      old.0,
      ap (λ x. x.next) same ∙ old.1,
      NotIn-append a (b ∷ l) t old.2 (λ e. away.0 (sym e)),
      append-Chained at after b l t links ends others real away.1 old.3,
    )

last-Chained : (at : ℕ → Keyboard) (a : ℕ) (l : List ℕ) → Chained at (a ∷ l) → last a l ≢ 0
last-Chained at a [] chained = chained.0
last-Chained at a (b ∷ l) chained = last-Chained at b l chained.3

-- The store in which the keyboard `e` has `t` as its next.
abbrev relinked : (ℕ → Keyboard) → (e t : ℕ) → ℕ → Keyboard
relinked at e t a = if a == e then record (at e) { next = t } else at a

relinked_lem :
    (at : ℕ → Keyboard) (e t : ℕ)
    → e ≢ t
    → (at t).next ≡ 0
    → ((relinked at e t e).next ≡ t)
      × ((relinked at e t t).next ≡ 0)
      × ((b : ℕ) → b ≢ e → relinked at e t b ≡ at b)
relinked_lem at e t other no_next =
    (ground arith, ground (arith, other, no_next), λ b differs. ground (arith, differs))

link-IsDriverList :
    (ks : Keyboards) (l : List ℕ) (t : ℕ)
    → IsDriverList ks l
    → t ≢ 0
    → NotIn t l
    → (ks.at t).next ≡ 0
    → IsDriverList (keyboard_link ks t) (l ++ t ∷ [])
unfolding keyboard_link
link-IsDriverList ks [] t q real away no_next =
    let empty : (ks.keyboard_list_last == 0) ≡ true = ground (arith, q.last_one) in
    rw empty (record { head = refl; last_one = refl; chained = (real, no_next, tt, tt) })
link-IsDriverList ks (a ∷ l) t q real away no_next =
    let here : ks.keyboard_list_last ≡ last a l = q.last_one in
    let other : last a l ≢ t = last-NotIn t a l away.0 away.1 in
    let full : (ks.keyboard_list_last == 0) ≡ false =
      ground (arith, here, last-Chained ks.at a l q.chained) in
    let (links, ends, others) = relinked_lem ks.at (last a l) t other no_next in
    rw full (record {
      head = q.head;
      last_one = sym (last-append a l t);
      chained =
          subst (λ e. Chained (relinked ks.at e t) (a ∷ l ++ t ∷ [])) (sym here)
            (append-Chained ks.at _ a l t links ends others real away q.chained);
    })

linked_init : (ks : Keyboards) (t : ℕ) → ((keyboard_link ks t).at t).init ≡ (ks.at t).init
unfolding keyboard_link
linked_init ks t = ground arith

-- A keyboard without a start function is refused and nothing changes.
pub insert_refused :
    (call : ℕ → Keyboards → Result (Unit {0}) × Keyboards) (ks : Keyboards) (t : ℕ)
    → (ks.at t).init ≡ 0
    → keyboard_insert call ks t ≡ (err einvarg, ks)
unfolding keyboard_insert
insert_refused call ks t none_given = ground (arith, none_given)

-- A keyboard that has a start function, is not in the list and has a NULL link is made the last of
-- the list and then started: the result is that of its start function, called in the state in which
-- it is listed already, so a keyboard that fails to start is not taken off the list by the caller.
pub keyboard_insert_lem :
    (call : ℕ → Keyboards → Result (Unit {0}) × Keyboards) (ks : Keyboards) (l : List ℕ) (t : ℕ)
    → IsDriverList ks l
    → t ≢ 0
    → NotIn t l
    → (ks.at t).next ≡ 0
    → (ks.at t).init ≢ 0
    → (ks' : Keyboards) × IsDriverList ks' (l ++ t ∷ [])
      × (keyboard_insert call ks t ≡ call (ks.at t).init ks')
unfolding keyboard_insert
keyboard_insert_lem call ks l t q real away no_next given =
    let some_init : ((ks.at t).init == 0) ≡ false = ground (arith, given) in
    (
      keyboard_link ks t,
      link-IsDriverList ks l t q real away no_next,
      rw (some_init, linked_init ks t) refl,
    )

-- From an empty list, where the start function of the classic keyboard is `classic_keyboard_init`,
-- the start of the keyboards leaves that keyboard alone in the list with capslock off, its handler
-- registered for the keyboard interrupt and every other callback as before, and one command sent:
-- the one that enables the first port.
pub keyboard_init_lem :
    (call : ℕ → Keyboards → Result (Unit {0}) × Keyboards) (ks : Keyboards) (classic handler : ℕ)
    → IsDriverList ks []
    → classic ≢ 0
    → (ks.at classic).next ≡ 0
    → (ks.at classic).init ≢ 0
    → ((s : Keyboards) → call (ks.at classic).init s ≡ classic_keyboard_init classic handler s)
    → (ks' : Keyboards) × (keyboard_init call classic ks ≡ ks')
      × IsDriverList ks' (classic ∷ [])
      × (keyboard_get_capslock ks' classic ≡ false)
      × (ks'.callbacks isr_keyboard_interrupt ≡ handler)
      × ((i : ℕ) → i ≢ isr_keyboard_interrupt → ks'.callbacks i ≡ ks.callbacks i)
      × (ks'.commands ≡ enable_first_port ∷ ks.commands)
unfolding keyboard_init keyboard_insert classic_keyboard_init keyboard_get_capslock
    keyboard_set_capslock idt_register_interrupt_callback keyboard_link
keyboard_init_lem call ks classic handler q real no_next given starts =
    let some_init : ((ks.at classic).init == 0) ≡ false = ground (arith, given) in
    let empty : (ks.keyboard_list_last == 0) ≡ true = ground (arith, q.last_one) in
    (
      (classic_keyboard_init classic handler
          (record ks { keyboard_list_head = classic; keyboard_list_last = classic })).1,
      rw (keyboard_init, keyboard_insert, some_init, keyboard_link, empty, starts) refl,
      record { head = refl; last_one = refl; chained = (real, ground (arith, no_next), tt, tt) },
      ground arith,
      ground arith,
      λ i other. ground (arith, other),
      refl,
    )
