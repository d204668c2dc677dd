-- ===== src/CircuitBreaker.antt =====
-- src/utils/circuit_breaker.c and .h: the fail-fast breaker in front of an LLM provider.
-- `cb_now_ms` reads the monotonic clock: its value is an argument of each operation that reads
-- it, in milliseconds. Counters are natural numbers.
mod Tests
pub mod Trip
use echo_ai_c.Base.{
  ℕ, suc, ◌+◌, Bool, true, false, List, [], ◌∷◌, ℤ, pos, negsuc, leb, if◌then◌else◌, Option, none,
  some,
}

pub data State : Type 0 where
  closed opened half_open : State

pub record Breaker : Type 0 where
  pub state : State
  pub failure_count : ℕ
  pub failure_threshold : ℕ
  pub half_open_timeout_ms : ℕ
  pub opened_at_ms : ℕ

-- `v > 0 ? v : default`
positive_or : ℤ → ℕ → ℕ
positive_or (pos v) d = if leb 1 v then v else d
positive_or (negsuc v) d = d

-- The flag is whether `calloc` gave memory.
pub cb_create : Bool → ℤ → ℤ → Option Breaker
unfolding positive_or
cb_create alloc threshold timeout =
    if alloc
    then some (record {
      state = closed;
      failure_count = 0;
      failure_threshold = positive_or threshold 5;
      half_open_timeout_ms = positive_or timeout 30000;
      opened_at_ms = 0;
    })
    else none

-- `now - opened_at >= timeout`, with the signed difference moved to the other side.
cooled : Breaker → ℕ → Bool
cooled cb now = leb (cb.opened_at_ms + cb.half_open_timeout_ms) now

available_in : State → Breaker → ℕ → Breaker × Bool
unfolding cooled
available_in closed cb now = (cb, true)
available_in opened cb now =
    if cooled cb now then (record cb { state = half_open }, true) else (cb, false)
available_in half_open cb now = (cb, true)

pub cb_is_available : Breaker → ℕ → Breaker × Bool
unfolding available_in
cb_is_available cb now = available_in cb.state cb now

-- `if (state == HALF_OPEN) state = CLOSED;`
close_probe : State → State
close_probe half_open = closed
close_probe s = s

pub cb_record_success : Breaker → Breaker
unfolding close_probe
cb_record_success cb = record cb { failure_count = 0; state = close_probe cb.state }

pub cb_record_failure : Breaker → ℕ → Breaker
cb_record_failure cb now =
    let counted = record cb { failure_count = cb.failure_count + 1 } in
    if leb cb.failure_threshold (cb.failure_count + 1)
    then record counted { state = opened; opened_at_ms = now }
    else counted

-- The calls that a client makes, each with the clock's value.
pub data Call : Type 0 where
  ask : ℕ → Call
  success : Call
  failure : ℕ → Call

pub step : Breaker → Call → Breaker
step cb (ask now) = (cb_is_available cb now).0
step cb success = cb_record_success cb
step cb (failure now) = cb_record_failure cb now

pub run : Breaker → List Call → Breaker
run cb [] = cb
run cb (c ∷ cs) = run (step cb c) cs
