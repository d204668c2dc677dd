-- ===== src/TuiEvents/Link/Steps.antt =====
-- What every step of the two threads keeps, and how it leads on.
use echo_ai_c.Base.{
  ℕ, suc, ◌+◌, ◌*◌, ◌≤◌, ◌≡◌, inl, inr, refl, sym, ap, ◌∙◌, subst, arith, Bool, true, false, List,
  [], ◌∷◌, ◌++◌, append_assoc, Option, none, some, map, ◌==◌, length, Bool-cases,
}
use echo_ai_c.TuiEvents.{
  TuiEvent, TuiEvents, Attempt, sleeps, goes, tui_events_push, take_first, tui_events_pop,
  tui_events_pop_blocking,
}
use echo_ai_c.TuiEvents.Ring.{
  EventsInv, SleepInv, contents, left_by, tui_events_push-contents, take_first-contents,
}
use echo_ai_c.TuiEvents.Link.{
  Link, received_with, Step, push, push_sleeps, pop, pop_blocking, pop_sleeps, worker_wakes,
  ui_wakes, Run, here, next,
}

pub record LinkInv (events : List TuiEvent) (s : Link) : Type 0 where
  pub ring : EventsInv s.evs
  pub sleep : SleepInv s.evs
  pub order : s.received ++ (contents s.evs ++ map some s.pending) ≡ map some events

unfoldable pub awake : Bool → ℕ
awake true = 0
awake false = 1

-- A bound on the steps that are left: two for each push and pop, one for each thread that can fall asleep.
unfoldable pub to_do : Link → ℕ
unfolding awake
to_do s =
    2 * (length s.pending + length s.pending + s.evs.count)
    + awake s.evs.full_sleeper
    + awake s.evs.empty_sleeper

awake-le : (b : Bool) → awake b ≤ 1
unfolding awake
awake-le true = omega arith
awake-le false = omega arith

-- What a step shows: the invariant of the state it leads to, and that less is left to do.
abbrev After : List TuiEvent → ℕ → Link → Link → Type 0
After events j s t = LinkInv events t × (to_do t + 1 ≤ to_do s + 2 * j)

popped-After :
    (events : List TuiEvent) (s : Link)
    → LinkInv events s
    → s.evs.empty_sleeper ≡ false
    → (s.evs.count == 0) ≡ false
    → After events 0 s (received_with s (take_first s.evs).0 (take_first s.evs).1)
unfolding to_do awake
popped-After events s inv up some_left =
    let (ring, held, less, worker_up, ui_same) = take_first-contents s.evs inv.ring some_left in
    let ui_up : (take_first s.evs).1.empty_sleeper ≡ false = ui_same ∙ up in
    (
      record {
        ring = ring;
        sleep = record {
          full = λ e. absurd (ground (arith, e, worker_up));
          empty = λ e. absurd (ground (arith, e, ui_up));
        };
        order =
            append_assoc s.received ((take_first s.evs).0 ∷ [])
              (contents (take_first s.evs).1 ++ map some s.pending)
            ∙ ap (λ x. s.received ++ (x ++ map some s.pending)) (sym held)
            ∙ inv.order;
      },
      omega (
        arith,
        less,
        ap awake worker_up,
        ap awake ui_up,
        ap awake up,
        awake-le s.evs.full_sleeper,
      ),
    )

pushed-After :
    (events : List TuiEvent) (s : Link) (ev : TuiEvent) (rest : List TuiEvent) (r : Option TuiEvent)
    (evs' : TuiEvents) (sent : Bool)
    → LinkInv events s
    → s.evs.full_sleeper ≡ false
    → s.pending ≡ ev ∷ rest
    → tui_events_push sent s.evs ev ≡ goes r evs'
    → After events 0 s (record { pending = rest; evs = evs'; received = s.received })
unfolding to_do awake
pushed-After events s ev rest r evs' sent inv up e h =
    let (ring, held, more, ui_up, worker_same) =
      tui_events_push-contents sent s.evs evs' ev r inv.ring h in
    let worker_up : evs'.full_sleeper ≡ false = worker_same ∙ up in
    let one : length s.pending ≡ suc (length rest) = ap length e in
    (
      record {
        ring = ring;
        sleep = record {
          full = λ b. absurd (ground (arith, b, worker_up));
          empty = λ b. absurd (ground (arith, b, ui_up));
        };
        order =
            ap (◌++◌ s.received) (
              ap (λ x. x ++ map some rest) held
              ∙ append_assoc (contents s.evs) (some ev ∷ []) (map some rest)
              ∙ ap (λ x. contents s.evs ++ map some x) (sym e))
            ∙ inv.order;
      },
      omega (arith, one, more, ap awake worker_up, ap awake ui_up, ap awake up),
    )

-- The tests that decide how an operation ends.
push_room :
    (sent : Bool) (evs evs' : TuiEvents) (ev : TuiEvent)
    → tui_events_push sent evs ev ≡ sleeps evs'
    → (evs.count ≡ evs.capacity) × (record evs { full_sleeper = true } ≡ evs')
unfolding tui_events_push
push_room sent evs evs' ev h = elim (Bool-cases (evs.count == evs.capacity)) [
  | inl full ↦
      let same : record evs { full_sleeper = true } ≡ evs' = ground (arith, h, full) in
      (ground (arith, full), same)
  | inr room ↦ absurd (ground (arith, h, room))
]

pop_empty :
    (evs evs' : TuiEvents)
    → tui_events_pop_blocking evs ≡ sleeps evs'
    → (evs.count ≡ 0) × (record evs { empty_sleeper = true } ≡ evs')
unfolding tui_events_pop_blocking
pop_empty evs evs' h = elim (Bool-cases (evs.count == 0)) [
  | inl none_left ↦
      let same : record evs { empty_sleeper = true } ≡ evs' = ground (arith, h, none_left) in
      (ground (arith, none_left), same)
  | inr some_left ↦ absurd (ground (arith, h, some_left))
]

pop_some :
    (evs evs' : TuiEvents) (e : Option TuiEvent)
    → tui_events_pop_blocking evs ≡ goes e evs'
    → ((evs.count == 0) ≡ false) × ((take_first evs).0 ≡ e) × ((take_first evs).1 ≡ evs')
unfolding tui_events_pop_blocking
pop_some evs evs' e h = elim (Bool-cases (evs.count == 0)) [
  | inl none_left ↦ absurd (ground (arith, h, none_left))
  | inr some_left ↦
      let taken : goes (take_first evs).0 (take_first evs).1 ≡ goes e evs' =
        sym (rw some_left refl) ∙ h in
      (some_left, ap event_of taken, ap (left_by evs) taken)
]
  where
    event_of : Attempt → Option TuiEvent
    event_of (sleeps t) = none
    event_of (goes r t) = r

pop_as_take : (evs : TuiEvents) → (evs.count == 0) ≡ false → tui_events_pop evs ≡ take_first evs
unfolding tui_events_pop
pop_as_take evs h = rw h refl

-- A change of the sleepers alone.
same_ring :
    (events : List TuiEvent) (s : Link) (f e : Bool)
    → LinkInv events s
    → (f ≡ true → s.evs.count ≡ s.evs.capacity)
    → (e ≡ true → s.evs.count ≡ 0)
    → LinkInv events (record s { evs = record s.evs { full_sleeper = f; empty_sleeper = e } })
same_ring events s f e inv hf he = record {
  ring = record {
    allocated = inv.ring.allocated;
    head_in = inv.ring.head_in;
    count_in = inv.ring.count_in;
  };
  sleep = record { full = hf; empty = he };
  order = inv.order;
}

Step-After :
    (events : List TuiEvent) {j : ℕ} {s t : Link}
    → Step j s t
    → LinkInv events s
    → After events j s t
unfolding to_do awake
Step-After events (push {s} {ev} {rest} {r} {evs'} sent up e h) inv =
    pushed-After events s ev rest r evs' sent inv up e h
Step-After events (push_sleeps {s} {ev} {rest} {evs'} sent up e h) inv =
    let (full, same) = push_room sent s.evs evs' ev h in
    subst (λ x. After events 0 s (record s { evs = x })) same
      (
        same_ring events s true s.evs.empty_sleeper inv (λ b. full) inv.sleep.empty,
        omega (arith, ap awake up),
      )
Step-After events (pop {s} up some_left) inv =
    subst (λ x. After events 0 s (received_with s x.0 x.1)) (sym (pop_as_take s.evs some_left))
      (popped-After events s inv up some_left)
Step-After events (pop_blocking {s} {e} {evs'} up h) inv =
    let (some_left, event, rest) = pop_some s.evs evs' e h in
    subst (λ x. After events 0 s (received_with s x evs')) event
      (subst (λ x. After events 0 s (received_with s (take_first s.evs).0 x)) rest
        (popped-After events s inv up some_left))
Step-After events (pop_sleeps {s} {evs'} up h) inv =
    let (none_left, same) = pop_empty s.evs evs' h in
    subst (λ x. After events 0 s (record s { evs = x })) same
      (
        same_ring events s s.evs.full_sleeper true inv inv.sleep.full (λ b. none_left),
        omega (arith, ap awake up),
      )
Step-After events (worker_wakes {s} asleep) inv = (
  same_ring events s false s.evs.empty_sleeper inv (λ b. absurd (ground (arith, b)))
      inv.sleep.empty,
  omega (arith, ap awake asleep),
)
Step-After events (ui_wakes {s} asleep) inv = (
  same_ring events s s.evs.full_sleeper false inv inv.sleep.full (λ b. absurd (ground (arith, b))),
  omega (arith, ap awake asleep),
)

pub Run-After :
    (events : List TuiEvent) {s t : Link} {n k : ℕ}
    → LinkInv events s
    → Run s n k t
    → LinkInv events t × (to_do t + n ≤ to_do s + 2 * k)
Run-After events inv here = (inv, omega arith)
Run-After events inv (next r st) =
    let before = Run-After events inv r in
    let after = Step-After events st before.0 in (after.0, omega (arith, before.1, after.1))
