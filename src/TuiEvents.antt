-- ===== src/TuiEvents.antt =====
-- src/tui/tui_events.c: the ring of events between the worker thread and the user interface. An operation is
-- what its thread does from the test of its condition, with the lock held, to `pthread_cond_wait`, where it
-- falls asleep, or to its end. A thread that was woken makes the operation anew, as the `while` loops do.
-- Of the wait for an answer only the test and what it returns are here, not the wake-up.
mod Tests
pub mod Ring
pub mod Link
use echo_ai_c.Base.{
  ℕ, zero, suc, ◌+◌, ◌-◌, ◌%◌, Bool, true, false, not, ◌&&◌, ◌||◌, List, [], ◌∷◌, Option, none,
  some, ◌==◌, if◌then◌else◌, Bytes, get_or, set, replicate, ℤ, pos, negsuc,
}

pub data TuiEventType : Type 0 where
  chunk : TuiEventType
  think : TuiEventType
  tool_start : TuiEventType
  tool_end : TuiEventType
  title : TuiEventType
  ask_user : TuiEventType
  approval : TuiEventType
  run_done : TuiEventType
  session : TuiEventType
  status : TuiEventType
  provider : TuiEventType
  model : TuiEventType
  models : TuiEventType
  fork : TuiEventType
  history : TuiEventType
  job : TuiEventType
  quit : TuiEventType

pub record TuiEvent : Type 0 where
  pub type : TuiEventType
  pub text : Bytes
  pub extra : Option Bytes
  pub result : ℤ
  pub answer : Option Bytes
  pub answered : Bool
  pub round_trip : Bool

-- `wake` counts the bytes in the pipe. `full_sleeper` is whether a thread sleeps on `not_full`, `empty_sleeper`
-- whether one sleeps on `not_empty`: one thread pushes, one pops.
pub record TuiEvents : Type 0 where
  pub ring : List (Option TuiEvent)
  pub capacity : ℕ
  pub head : ℕ
  pub count : ℕ
  pub wake : ℕ
  pub full_sleeper : Bool
  pub empty_sleeper : Bool

-- `made` is whether the allocations and the calls for the pipe and the locks succeed.
unfoldable pub tui_events_init : Bool → ℕ → Option TuiEvents
tui_events_init made capacity =
    if capacity == 0
    then none
    else if made
    then some (record {
      ring = replicate capacity none;
      capacity = capacity;
      head = 0;
      count = 0;
      wake = 0;
      full_sleeper = false;
      empty_sleeper = false;
    })
    else none

abbrev is_round_trip : TuiEventType → Bool
is_round_trip ask_user = true
is_round_trip approval = true
is_round_trip type = false

-- The event that a push makes; `none` where an allocation or a lock fails.
pub new_event : Bool → TuiEventType → Option Bytes → Option Bytes → Option TuiEvent
new_event made type text extra =
    if made
    then some (record {
      type = type;
      text = elim text [ none ↦ [] | some t ↦ t ];
      extra = extra;
      result = pos 0;
      answer = none;
      answered = false;
      round_trip = is_round_trip type;
    })
    else none

-- How an operation ends: asleep on its condition, or with the event that it returns.
pub data Attempt : Type 0 where
  sleeps : TuiEvents → Attempt
  goes : Option TuiEvent → TuiEvents → Attempt

-- `pthread_cond_signal`: the thread that sleeps on the condition, if there is one, is woken.
pub signal_not_full : TuiEvents → TuiEvents
signal_not_full evs = record evs { full_sleeper = false }

pub signal_not_empty : TuiEvents → TuiEvents
signal_not_empty evs = record evs { empty_sleeper = false }

-- A push from its lock on. `sent` is whether the pipe takes the byte.
pub tui_events_push : Bool → TuiEvents → TuiEvent → Attempt
unfolding signal_not_empty
tui_events_push sent evs ev =
    if evs.count == evs.capacity
    then sleeps (record evs { full_sleeper = true })
    else goes (some ev) (
        signal_not_empty (record evs {
          ring = set evs.ring ((evs.head + evs.count) % evs.capacity) (some ev);
          count = evs.count + 1;
          wake = if sent then evs.wake + 1 else evs.wake;
        }))

-- What both ways to pop do where the ring holds an event.
pub take_first : TuiEvents → Option TuiEvent × TuiEvents
unfolding signal_not_full
take_first evs = (
  get_or evs.ring evs.head none,
  signal_not_full (record evs { head = (evs.head + 1) % evs.capacity; count = evs.count - 1 }),
)

unfoldable pub tui_events_pop : TuiEvents → Option TuiEvent × TuiEvents
unfolding take_first
tui_events_pop evs = if evs.count == 0 then (none, evs) else take_first evs

pub tui_events_pop_blocking : TuiEvents → Attempt
unfolding take_first
tui_events_pop_blocking evs =
    if evs.count == 0
    then sleeps (record evs { empty_sleeper = true })
    else goes (take_first evs).0 (take_first evs).1

pub tui_events_drain_wake : TuiEvents → TuiEvents
tui_events_drain_wake evs = record evs { wake = 0 }

pub tui_events_empty : TuiEvents → Bool
tui_events_empty evs = evs.count == 0

-- The event after the answer, and the result; `copied` is whether the text of the answer is.
pub tui_event_answer : Bool → TuiEvent → Option Bytes → ℤ → TuiEvent × ℤ
tui_event_answer copied ev answer result = if not ev.round_trip then (ev, negsuc 0) else (
  record ev { answer = if copied then answer else none; result = result; answered = true },
  pos 0,
)

pub data Waited : Type 0 where
  refused : Waited
  waiting : Waited
  got : Option Bytes → ℤ → Waited

pub tui_event_wait_for_answer : Bool → TuiEvent → Waited
tui_event_wait_for_answer copied ev =
    if not ev.round_trip
    then refused
    else if not ev.answered
    then waiting
    else got (if copied then ev.answer else none) ev.result
