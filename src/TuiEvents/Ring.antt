-- ===== src/TuiEvents/Ring.antt =====
-- The ring holds its events in the order in which they were pushed.
use native.Mathlib.Nat.{mod-lt}
use echo_ai_c.Base.{
  ℕ, suc, ◌+◌, ◌-◌, ◌%◌, ◌<◌, ◌≤◌, ◌≡◌, refl, sym, ap, ◌∙◌, subst, arith, Bool, true, false, List,
  [], ◌∷◌, ◌++◌, Option, none, some, ◌==◌, if◌then◌else◌, length, get_or, set, get_or-set_self,
  get_or-set_ne, length-set, wrap_low, other_slot, window, window-cong, window-snoc, next_slot,
  Bool-cases, inl, inr,
}
use echo_ai_c.TuiEvents.{
  TuiEvent, TuiEvents, Attempt, sleeps, goes, signal_not_empty, signal_not_full, tui_events_push,
  take_first,
}

pub record EventsInv (evs : TuiEvents) : Type 0 where
  pub allocated : length evs.ring ≡ evs.capacity
  pub head_in : evs.head < evs.capacity
  pub count_in : evs.count ≤ evs.capacity

abbrev event_slot : TuiEvents → ℕ → Option TuiEvent
event_slot evs i = get_or evs.ring ((evs.head + i) % evs.capacity) none

-- The slots that hold events, the oldest first.
abbrev pub contents : TuiEvents → List (Option TuiEvent)
contents evs = window (event_slot evs) evs.count

-- What a thread that is asleep waits for has not happened.
pub record SleepInv (evs : TuiEvents) : Type 0 where
  pub full : evs.full_sleeper ≡ true → evs.count ≡ evs.capacity
  pub empty : evs.empty_sleeper ≡ true → evs.count ≡ 0

abbrev pushed : Bool → TuiEvents → TuiEvent → TuiEvents
unfolding signal_not_empty
pushed sent evs ev = signal_not_empty (record evs {
  ring = set evs.ring ((evs.head + evs.count) % evs.capacity) (some ev);
  count = evs.count + 1;
  wake = if sent then evs.wake + 1 else evs.wake;
})

module _ (sent : Bool) (evs : TuiEvents) (ev : TuiEvent) (inv : EventsInv evs)
    (room : (evs.count == evs.capacity) ≡ false) where
  same_slot : (i : ℕ) → i < evs.count → event_slot (pushed sent evs ev) i ≡ event_slot evs i
  unfolding signal_not_empty
  same_slot i l =
      get_or-set_ne evs.ring ((evs.head + evs.count) % evs.capacity) ((evs.head + i) % evs.capacity)
        (some ev) none
        (λ e.
          other_slot evs.head i evs.count evs.capacity inv.head_in l
            (ground (arith, room, inv.count_in)) (sym e))

  new : event_slot (pushed sent evs ev) evs.count ≡ some ev
  unfolding signal_not_empty
  new =
      get_or-set_self evs.ring ((evs.head + evs.count) % evs.capacity) (some ev) none
        (grind (arith, mod-lt, inv.allocated, inv.head_in))

  pushed-EventsInv : EventsInv (pushed sent evs ev)
  unfolding signal_not_empty
  pushed-EventsInv = record {
    allocated =
        length-set evs.ring ((evs.head + evs.count) % evs.capacity) (some ev) ∙ inv.allocated;
    head_in = inv.head_in;
    count_in = ground (arith, room, inv.count_in);
  }

  pushed-contents : contents (pushed sent evs ev) ≡ contents evs ++ (some ev ∷ [])
  unfolding signal_not_empty
  pushed-contents =
      window-snoc evs.count (event_slot (pushed sent evs ev))
      ∙ ap (λ x. x ++ (event_slot (pushed sent evs ev) evs.count ∷ []))
          (window-cong evs.count (event_slot (pushed sent evs ev)) (event_slot evs) same_slot)
      ∙ ap (λ x. contents evs ++ (x ∷ [])) new

-- The ring that an operation leaves; its first argument is for the operations that fall asleep.
abbrev pub left_by : TuiEvents → Attempt → TuiEvents
left_by evs (sleeps evs') = evs
left_by evs (goes r evs') = evs'

-- A push that goes through appends the event, and leaves nobody asleep on `not_empty`.
pub tui_events_push-contents :
    (sent : Bool) (evs evs' : TuiEvents) (ev : TuiEvent) (r : Option TuiEvent)
    → EventsInv evs
    → tui_events_push sent evs ev ≡ goes r evs'
    → EventsInv evs'
      × (contents evs' ≡ contents evs ++ (some ev ∷ []))
      × (evs'.count ≡ evs.count + 1)
      × (evs'.empty_sleeper ≡ false)
      × (evs'.full_sleeper ≡ evs.full_sleeper)
unfolding tui_events_push signal_not_empty
tui_events_push-contents sent evs evs' ev r inv h = elim (Bool-cases (evs.count == evs.capacity)) [
  | inl full ↦ absurd (ground (arith, h, full))
  | inr room ↦
      subst
        (λ x.
          EventsInv x
          × (contents x ≡ contents evs ++ (some ev ∷ []))
          × (x.count ≡ evs.count + 1)
          × (x.empty_sleeper ≡ false)
          × (x.full_sleeper ≡ evs.full_sleeper))
        (let goes_on : tui_events_push sent evs ev ≡ goes (some ev) (pushed sent evs ev) =
            rw room refl in
          ap (left_by evs) (sym goes_on ∙ h))
        (
          pushed-EventsInv sent evs ev inv room,
          pushed-contents sent evs ev inv room,
          refl,
          refl,
          refl,
        )
]

same_first : (evs : TuiEvents) → EventsInv evs → get_or evs.ring evs.head none ≡ event_slot evs 0
same_first evs inv =
    let here : (evs.head + 0) % evs.capacity ≡ evs.head =
      wrap_low (evs.head + 0) evs.capacity (omega (arith, inv.head_in)) ∙ omega arith in
    rw here refl

first_of :
    (evs : TuiEvents) (n : ℕ)
    → evs.count ≡ suc n
    → contents evs ≡ event_slot evs 0 ∷ window (λ i. event_slot evs (suc i)) n
first_of evs n e = ap (window (event_slot evs)) e

-- A pop takes the first event, and leaves nobody asleep on `not_full`.
pub take_first-contents :
    (evs : TuiEvents)
    → EventsInv evs
    → (evs.count == 0) ≡ false
    → EventsInv (take_first evs).1
      × (contents evs ≡ (take_first evs).0 ∷ contents (take_first evs).1)
      × (evs.count ≡ (take_first evs).1.count + 1)
      × ((take_first evs).1.full_sleeper ≡ false)
      × ((take_first evs).1.empty_sleeper ≡ evs.empty_sleeper)
unfolding take_first signal_not_full
take_first-contents evs inv some_left =
    let n : ℕ = evs.count - 1 in
    let positive : evs.count ≡ suc n = ground (arith, some_left) in
    let popped : TuiEvents = (take_first evs).1 in
    let next : (i : ℕ) → i < n → event_slot evs (suc i) ≡ event_slot popped i =
      λ i l. ap (λ k. get_or evs.ring k none) (sym (next_slot evs.head i evs.capacity)) in
    (
      record {
        allocated = inv.allocated;
        head_in = grind (arith, mod-lt, inv.head_in);
        count_in = omega (arith, inv.count_in);
      },
      first_of evs n positive
          ∙ ap (λ x. x ∷ window (λ i. event_slot evs (suc i)) n) (sym (same_first evs inv))
          ∙ ap (◌∷◌ (get_or evs.ring evs.head none))
              (window-cong n (λ i. event_slot evs (suc i)) (event_slot popped) next),
      omega (arith, positive),
      refl,
      refl,
    )
