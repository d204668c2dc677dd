-- ===== src/CircuitBreaker/Tests.antt =====
-- Runs of the breaker, and its theorems at concrete inputs.
use echo_ai_c.Base.{ℕ, ◌≡◌, refl, true, some, [], ◌∷◌, map, ◌↔◌, ◌≤◌, ◌+◌, pos, length}
use echo_ai_c.CircuitBreaker.{
  Breaker, opened, half_open, closed, cb_create, cb_record_failure, positive_or, failure, step, run,
}
use echo_ai_c.CircuitBreaker.Trip.{Inv, run-failures-opened_iff, cb_create-Inv}

abbrev fresh : Breaker
fresh = record {
  state = closed;
  failure_count = 0;
  failure_threshold = 2;
  half_open_timeout_ms = 100;
  opened_at_ms = 0;
}

abbrev tripped : Breaker
tripped = record fresh { state = opened; failure_count = 2; opened_at_ms = 50 }

abbrev probing : Breaker
probing = record tripped { state = half_open }

cb_create-fresh : cb_create true (pos 2) (pos 100) ≡ some fresh
unfolding cb_create positive_or
cb_create-fresh = refl

run-tripped : run fresh (failure 20 ∷ failure 50 ∷ []) ≡ tripped
unfolding run step cb_record_failure
run-tripped = refl

fresh-Inv : Inv fresh
fresh-Inv = cb_create-Inv (pos 2) (pos 100) cb_create-fresh

run-failures-opened_iff_example :
    ((run fresh (map failure (20 ∷ 50 ∷ []))).state ≡ opened)
    ↔ (2 ≤ 0 + length {A = ℕ} (20 ∷ 50 ∷ []))
run-failures-opened_iff_example = run-failures-opened_iff fresh (20 ∷ 50 ∷ []) fresh-Inv refl
