-- ===== src/TuiEvents/Link.antt =====
-- The worker and the user interface at the two ends of the ring, in any order of their steps.
pub mod Steps
pub mod Delivery
use echo_ai_c.Base.{
  ℕ, suc, ◌+◌, ◌*◌, ◌≤◌, ◌≡◌, ◌≢◌, ◌⊎◌, inl, inr, refl, sym, ap, ◌∙◌, subst, arith, Bool, true,
  false, List, [], ◌∷◌, ◌++◌, append_assoc, append-nil, Option, none, some, map, ◌==◌, length,
  replicate, length-replicate, Bool-cases,
}
use echo_ai_c.TuiEvents.{
  TuiEvent, TuiEvents, Attempt, sleeps, goes, tui_events_init, tui_events_push, take_first,
  tui_events_pop, tui_events_pop_blocking,
}
use echo_ai_c.TuiEvents.Ring.{
  EventsInv, SleepInv, contents, left_by, tui_events_push-contents, take_first-contents,
}

-- The events that the worker has still to push, the ring, and what the user interface has popped.
pub record Link : Type 0 where
  pub pending : List TuiEvent
  pub evs : TuiEvents
  pub received : List (Option TuiEvent)

-- What the user interface leaves when it has popped.
abbrev pub received_with : Link → Option TuiEvent → TuiEvents → Link
received_with s e evs' = record {
  pending = s.pending;
  evs = evs';
  received = s.received ++ (e ∷ []);
}

-- One operation of a thread that is awake and gets the lock, or, counted by the first argument, a wake-up
-- without a signal, which POSIX allows.
pub data Step : ℕ → Link → Link → Type 0 where
  push :
      {s : Link} {ev : TuiEvent} {rest : List TuiEvent} {r : Option TuiEvent} {evs' : TuiEvents}
      (sent : Bool)
      → s.evs.full_sleeper ≡ false
      → s.pending ≡ ev ∷ rest
      → tui_events_push sent s.evs ev ≡ goes r evs'
      → Step 0 s (record { pending = rest; evs = evs'; received = s.received })
  push_sleeps :
      {s : Link} {ev : TuiEvent} {rest : List TuiEvent} {evs' : TuiEvents} (sent : Bool)
      → s.evs.full_sleeper ≡ false
      → s.pending ≡ ev ∷ rest
      → tui_events_push sent s.evs ev ≡ sleeps evs'
      → Step 0 s (record s { evs = evs' })
  pop :
      {s : Link}
      → s.evs.empty_sleeper ≡ false
      → (s.evs.count == 0) ≡ false
      → Step 0 s (received_with s (tui_events_pop s.evs).0 (tui_events_pop s.evs).1)
  pop_blocking :
      {s : Link} {e : Option TuiEvent} {evs' : TuiEvents}
      → s.evs.empty_sleeper ≡ false
      → tui_events_pop_blocking s.evs ≡ goes e evs'
      → Step 0 s (received_with s e evs')
  pop_sleeps :
      {s : Link} {evs' : TuiEvents}
      → s.evs.empty_sleeper ≡ false
      → tui_events_pop_blocking s.evs ≡ sleeps evs'
      → Step 0 s (record s { evs = evs' })
  worker_wakes :
      {s : Link}
      → s.evs.full_sleeper ≡ true
      → Step 1 s (record s { evs = record s.evs { full_sleeper = false } })
  ui_wakes :
      {s : Link}
      → s.evs.empty_sleeper ≡ true
      → Step 1 s (record s { evs = record s.evs { empty_sleeper = false } })

-- A number of steps, and how many of them were wake-ups without a signal.
pub data Run (s : Link) : ℕ → ℕ → Link → Type 0 where
  here : Run s 0 0 s
  next : {n k j : ℕ} {t u : Link} → Run s n k t → Step j t u → Run s (suc n) (j + k) u

abbrev pub start : TuiEvents → List TuiEvent → Link
start evs events = record { pending = events; evs = evs; received = [] }
