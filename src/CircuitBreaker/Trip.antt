-- ===== src/CircuitBreaker/Trip.antt =====
-- When the breaker trips, how long it stays open, and what a probe does.
use echo_ai_c.Base.{
  ℕ, ◌+◌, ◌≤◌, ◌<◌, ◌≡◌, true, false, List, [], ◌∷◌, map, arith, some, ◌↔◌, ℤ, pos, negsuc, length,
  Bool-cases, inl, inr, leb, leb→le,
}
use echo_ai_c.CircuitBreaker.{
  closed, opened, half_open, Breaker, cb_create, positive_or, cb_is_available, cb_record_success,
  cb_record_failure, Call, ask, success, failure, step, run,
}

-- A closed breaker has counted fewer failures than the threshold; the settings are positive.
pub record Inv (cb : Breaker) : Type 0 where
  pub threshold_pos : 0 < cb.failure_threshold
  pub timeout_pos : 0 < cb.half_open_timeout_ms
  pub below : cb.state ≡ closed → cb.failure_count < cb.failure_threshold

positive_or-pos : (v : ℤ) (d : ℕ) → 0 < d → 0 < positive_or v d
unfolding positive_or
positive_or-pos (pos v) d h = ground arith
positive_or-pos (negsuc v) d h = h

pub cb_create-Inv : (t d : ℤ) {cb : Breaker} → cb_create true t d ≡ some cb → Inv cb
unfolding cb_create
cb_create-Inv t d e =
    ground (arith, positive_or-pos t 5 (omega arith), positive_or-pos d 30000 (omega arith))

step-Inv : (cb : Breaker) (c : Call) → Inv cb → Inv (step cb c)
unfolding step cb_is_available cb_record_success cb_record_failure
step-Inv cb (ask now) v = ground arith
step-Inv cb success v = ground arith
step-Inv cb (failure now) v = ground arith

run-Inv : (cb : Breaker) (cs : List Call) → Inv cb → Inv (run cb cs)
unfolding run
run-Inv cb [] v = v
run-Inv cb (c ∷ cs) v = run-Inv (step cb c) cs (step-Inv cb c v)

-- From a created breaker, with any arguments of `cb_create`, every sequence of calls at any
-- clock values keeps the invariant: the two settings are positive and a closed breaker has
-- counted fewer failures than its threshold.
pub run-cb_create-Inv :
    (t d : ℤ) (cb : Breaker) (cs : List Call) → cb_create true t d ≡ some cb → Inv (run cb cs)
run-cb_create-Inv t d cb cs e = run-Inv cb cs (cb_create-Inv t d e)

stays_opened :
    (cb : Breaker) (ts : List ℕ)
    → cb.state ≡ opened
    → cb.failure_threshold ≤ cb.failure_count
    → (run cb (map failure ts)).state ≡ opened
unfolding run step cb_record_failure
stays_opened cb [] e h = e
stays_opened cb (t ∷ ts) e h =
    stays_opened (cb_record_failure cb t) ts (ground arith) (ground arith)

-- A closed breaker that meets failures alone, at any clock values, ends open exactly when the
-- failures counted before and the new ones together reach the threshold.
pub run-failures-opened_iff :
    (cb : Breaker) (ts : List ℕ)
    → Inv cb
    → cb.state ≡ closed
    → ((run cb (map failure ts)).state ≡ opened)
      ↔ (cb.failure_threshold ≤ cb.failure_count + length ts)
unfolding run step cb_record_failure
run-failures-opened_iff cb [] v e = ground arith
run-failures-opened_iff cb (t ∷ ts) v e =
    elim (Bool-cases (leb cb.failure_threshold (cb.failure_count + 1))) [
      | inl trips ↦ (
        λ _. omega (arith, leb→le _ _ trips),
        λ _. stays_opened (cb_record_failure cb t) ts (ground arith) (ground arith),
      )
      | inr counts ↦
          let ih =
            run-failures-opened_iff (cb_record_failure cb t) ts (step-Inv cb (failure t) v)
              (ground arith) in
          ground (arith, ih)
    ]

-- An open breaker answers yes exactly from `half_open_timeout_ms` after the trip on, and then
-- stands half open; before that it answers no and is unchanged.
pub cb_is_available-opened :
    (cb : Breaker) (now : ℕ)
    → cb.state ≡ opened
    → (((cb_is_available cb now).1 ≡ true) ↔ (cb.opened_at_ms + cb.half_open_timeout_ms ≤ now))
      × ((cb_is_available cb now).1 ≡ true
          → (cb_is_available cb now).0 ≡ record cb { state = half_open })
      × ((cb_is_available cb now).1 ≡ false → (cb_is_available cb now).0 ≡ cb)
unfolding cb_is_available
cb_is_available-opened cb now e = ground arith

-- The outcome of a probe: a success closes a half-open breaker with no failure counted; a failure
-- opens it again from that time on if the failures then reach the threshold, and leaves it half
-- open, and so answering yes at any time, if they do not.
pub probe_outcome :
    (cb : Breaker) (now later : ℕ)
    → cb.state ≡ half_open
    → (cb_record_success cb ≡ record cb { failure_count = 0; state = closed })
      × (cb.failure_threshold ≤ cb.failure_count + 1
          → ((cb_record_failure cb now).state ≡ opened)
            × ((cb_record_failure cb now).opened_at_ms ≡ now))
      × (cb.failure_count + 1 < cb.failure_threshold
          → ((cb_record_failure cb now).state ≡ half_open)
            × ((cb_is_available (cb_record_failure cb now) later).1 ≡ true))
unfolding cb_record_success cb_record_failure cb_is_available
probe_outcome cb now later e = ground arith

-- If a success of an earlier request arrives while the breaker is open, with a threshold above one,
-- then the probe after the cooldown does not trip the breaker again when it fails: the breaker is
-- left half open with one failure counted.
pub late_success_disarms_probe :
    (cb : Breaker) (now failed : ℕ)
    → cb.state ≡ opened
    → 1 < cb.failure_threshold
    → cb.opened_at_ms + cb.half_open_timeout_ms ≤ now
    → run cb (success ∷ ask now ∷ failure failed ∷ [])
      ≡ record cb { state = half_open; failure_count = 1 }
unfolding run step cb_is_available cb_record_success cb_record_failure
late_success_disarms_probe cb now failed e h w = ground arith
