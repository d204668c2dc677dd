-- ===== src/TuiEvents/Tests.antt =====
-- Runs of the event ring, and its theorem at a concrete run.
use echo_ai_c.Base.{◌≡◌, ◌++◌, refl, true, false, none, some, [], ◌∷◌, codes, pos}
use echo_ai_c.TuiEvents.{
  TuiEvent, chunk, ask_user, TuiEvents, tui_events_init, tui_events_push, tui_events_pop,
  tui_events_pop_blocking, sleeps, goes, tui_event_answer, tui_event_wait_for_answer, got,
}
use echo_ai_c.TuiEvents.Link.{Link, push, pop_blocking, pop_sleeps, Run, here, next, start}
use echo_ai_c.TuiEvents.Ring.{contents}
use echo_ai_c.TuiEvents.Link.Delivery.{Run-delivers}

abbrev piece : TuiEvent
piece = record {
  type = chunk;
  text = codes "hi";
  extra = none;
  result = pos 0;
  answer = none;
  answered = false;
  round_trip = false;
}

abbrev question : TuiEvent
question = record piece { type = ask_user; round_trip = true }

abbrev empty_ring : TuiEvents
empty_ring = record {
  ring = none ∷ [];
  capacity = 1;
  head = 0;
  count = 0;
  wake = 0;
  full_sleeper = false;
  empty_sleeper = false;
}

abbrev full_ring : TuiEvents
full_ring = record empty_ring { ring = some piece ∷ []; count = 1; wake = 1 }

made : tui_events_init true 1 ≡ some empty_ring
unfolding tui_events_init
made = refl

pushed : tui_events_push true empty_ring piece ≡ goes (some piece) full_ring
unfolding tui_events_push
pushed = refl

full_waits :
    tui_events_push true full_ring piece ≡ sleeps (record full_ring { full_sleeper = true })
unfolding tui_events_push
full_waits = refl

empty_waits :
    tui_events_pop_blocking empty_ring ≡ sleeps (record empty_ring { empty_sleeper = true })
unfolding tui_events_pop_blocking
empty_waits = refl

-- A push wakes the thread that waits for an event.
push_wakes :
    tui_events_push true (record empty_ring { empty_sleeper = true }) piece
    ≡ goes (some piece) full_ring
unfolding tui_events_push
push_wakes = refl

answered_question :
    tui_event_wait_for_answer true (tui_event_answer true question (some (codes "yes")) (pos 1)).0
    ≡ got (some (codes "yes")) (pos 1)
unfolding tui_event_wait_for_answer tui_event_answer
answered_question = refl

abbrev received_piece : Link
received_piece = record {
  pending = [];
  evs = record full_ring { head = 0; count = 0; full_sleeper = false };
  received = some piece ∷ [];
}

-- The user interface waits first.
three_steps : Run (start empty_ring (piece ∷ [])) 3 0 received_piece
unfolding tui_events_push tui_events_pop_blocking tui_events_pop
three_steps =
    next (next (next here (pop_sleeps refl refl)) (push true refl refl refl))
      (pop_blocking refl refl)

Run-delivers_example :
    received_piece.received ++ (contents received_piece.evs ++ []) ≡ some piece ∷ []
Run-delivers_example =
    (Run-delivers 1 empty_ring (piece ∷ []) 3 0 received_piece made three_steps).0
