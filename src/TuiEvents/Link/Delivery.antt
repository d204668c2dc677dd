-- ===== src/TuiEvents/Link/Delivery.antt =====
-- The delivery of all events in their order.
use mathlib.Core.Option.{some-injective}
use echo_ai_c.Base.{
  ℕ, ◌+◌, ◌*◌, ◌≤◌, ◌≡◌, ◌≢◌, ◌⊎◌, inl, inr, refl, sym, ap, ◌∙◌, subst, arith, Bool, true, false,
  List, [], ◌∷◌, ◌++◌, append-nil, none, some, map, ◌==◌, length, replicate, length-replicate,
  Bool-cases,
}
use echo_ai_c.TuiEvents.{TuiEvent, TuiEvents, goes, tui_events_init, tui_events_push}
use echo_ai_c.TuiEvents.Ring.{contents}
use echo_ai_c.TuiEvents.Link.{Link, Step, push, pop, Run, start}
use echo_ai_c.TuiEvents.Link.Steps.{LinkInv, awake, to_do, Run-After}

made_ring :
    (capacity : ℕ) (evs : TuiEvents) (events : List TuiEvent)
    → tui_events_init true capacity ≡ some evs
    → LinkInv events (start evs events)
      × (to_do (start evs events) ≡ 2 * (length events + length events) + 2)
unfolding tui_events_init to_do awake
made_ring capacity evs events h = elim (Bool-cases (capacity == 0)) [
  | inl t ↦ absurd (ground (arith, h, t))
  | inr f ↦
      subst
        (λ (x : TuiEvents).
          LinkInv events (start x events)
          × (to_do (start x events) ≡ 2 * (length events + length events) + 2))
        (some-injective fresh evs (sym (rw f refl) ∙ h))
        (
          record {
            ring = record {
              allocated = length-replicate capacity none;
              head_in = ground (arith, f);
              count_in = omega arith;
            };
            sleep = record {
              full = λ b. absurd (ground (arith, b));
              empty = λ b. absurd (ground (arith, b));
            };
            order = refl;
          },
          omega arith,
        )
]
  where
    fresh : TuiEvents
    fresh = record {
      ring = replicate capacity none;
      capacity = capacity;
      head = 0;
      count = 0;
      wake = 0;
      full_sleeper = false;
      empty_sleeper = false;
    }

not_asleep : (b : Bool) → ¬ (b ≡ true) → b ≡ false
not_asleep true n = absurd (n refl)
not_asleep false n = refl

push_goes :
    (evs : TuiEvents) (ev : TuiEvent)
    → (evs.count == evs.capacity) ≡ false
    → (evs' : TuiEvents) × (tui_events_push true evs ev ≡ goes (some ev) evs')
unfolding tui_events_push
push_goes evs ev room = rw room (_, refl)

-- Where the ring is empty and something is to be pushed, the worker is awake and its push goes through.
push_next :
    (events : List TuiEvent) (s : Link) (ev : TuiEvent) (rest : List TuiEvent)
    → LinkInv events s
    → s.pending ≡ ev ∷ rest
    → s.evs.count ≡ 0
    → (t : Link) × Step 0 s t
push_next events s ev rest inv e empty =
    let room : (s.evs.count == s.evs.capacity) ≡ false = ground (arith, empty, inv.ring.head_in) in
    let up : s.evs.full_sleeper ≡ false = not_asleep s.evs.full_sleeper (λ b.
      let full : s.evs.count ≡ s.evs.capacity = inv.sleep.full b in
      absurd (omega (arith, full, empty, inv.ring.head_in))) in
    let (evs', goes_on) = push_goes s.evs ev room in (_, push true up e goes_on)

-- Where the ring holds an event, the user interface is awake.
pop_next :
    (events : List TuiEvent) (s : Link)
    → LinkInv events s
    → (s.evs.count == 0) ≡ false
    → (t : Link) × Step 0 s t
pop_next events s inv some_left =
    let up : s.evs.empty_sleeper ≡ false = not_asleep s.evs.empty_sleeper (λ b.
      let empty : s.evs.count ≡ 0 = inv.sleep.empty b in
      absurd (ground (arith, empty, some_left))) in
    (_, pop up some_left)

all_received :
    (events : List TuiEvent) (s : Link)
    → LinkInv events s
    → s.pending ≡ []
    → s.evs.count ≡ 0
    → s.received ≡ map some events
all_received events s inv none_pending empty =
    let held : contents s.evs ≡ [] = rw empty refl in
    sym (append-nil s.received)
    ∙ ap (◌++◌ s.received)
        (sym (ap (λ x. x ++ map some s.pending) held ∙ ap (map some) none_pending))
    ∙ inv.order

list_cases :
    (l : List TuiEvent) → (l ≡ []) ⊎ ((ev : TuiEvent) × ((rest : List TuiEvent) × (l ≡ ev ∷ rest)))
list_cases [] = inl refl
list_cases (ev ∷ rest) = inr (ev, (rest, refl))

-- All is received, or a thread that is awake can take a step.
settled_or_enabled :
    (events : List TuiEvent) (s : Link)
    → LinkInv events s
    → (s.received ≡ map some events) ⊎ ((t : Link) × Step 0 s t)
settled_or_enabled events s inv = elim (Bool-cases (s.evs.count == 0)) [
  | inr some_left ↦ inr (pop_next events s inv some_left)
  | inl none_left ↦
      let empty : s.evs.count ≡ 0 = ground (arith, none_left) in
      elim (list_cases s.pending) [
        | inl none_pending ↦ inl (all_received events s inv none_pending empty)
        | inr (ev, (rest, e)) ↦ inr (push_next events s ev rest inv e empty)
      ]
]

-- From a new ring, in whatever order the two threads take their steps, fall asleep and are woken, `k` times
-- without a signal: what was received, what is in the ring and what is still to be pushed are always the worker's
-- events in their order; there are never more steps than four times the number of events, two, and two for each
-- wake-up without a signal; as long as not all events were received in their order, some thread that is awake can
-- take a step, so no wake-up is lost and not both sleep; and where no thread can take one, all were received.
pub Run-delivers :
    (capacity : ℕ) (evs : TuiEvents) (events : List TuiEvent) (n k : ℕ) (s : Link)
    → tui_events_init true capacity ≡ some evs
    → Run (start evs events) n k s
    → (s.received ++ (contents s.evs ++ map some s.pending) ≡ map some events)
      × (n ≤ 4 * length events + 2 + 2 * k)
      × (s.received ≢ map some events → (t : Link) × Step 0 s t)
      × (((t : Link) → ¬ Step 0 s t) → s.received ≡ map some events)
Run-delivers capacity evs events n k s made run =
    let (inv, all) = made_ring capacity evs events made in
    let (later, steps) = Run-After events inv run in
    (
      later.order,
      omega (arith, steps, all),
      (λ missing. elim (settled_or_enabled events s later) [
        | inl received ↦ absurd (missing received)
        | inr able ↦ able
      ]),
      (λ stuck. elim (settled_or_enabled events s later) [
        | inl received ↦ received
        | inr (t, st) ↦ absurd (stuck t st)
      ]),
    )
