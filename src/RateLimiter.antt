-- ===== src/RateLimiter.antt =====
-- src/utils/rate_limiter.c: the throttling of requests and of unlock attempts. The SQLite tables are an
-- interface, `RateStore`; the clock is an argument, in seconds, at least 60; the limits are not negative.
mod Tests
pub mod Window
use echo_ai_c.Base.{
  ℕ, ◌+◌, ◌-◌, ◌≡◌, ◌≢◌, Bool, true, false, not, ◌||◌, List, [], ◌∷◌, Option, none, some, leb,
  if◌then◌else◌, Bytes,
}

-- What a query for the row of an address gives: an error in its preparation, no row, or the row.
pub data Selected : Type 0 where
  unprepared : Selected
  no_row : Selected
  row : ℕ → ℕ → Selected

-- The statements, each with the tables after it, whether it succeeds or not. The counts of the unlock
-- failures are `none` where the preparation fails, and 0 where the step does.
pub record RateStore (DB : Type 0) : Type 0 where
  pub select : DB → Bytes → Selected
  pub reset : DB → Bytes → ℕ → DB
  pub increment : DB → Bytes → DB
  pub insert_or_ignore : DB → Bytes → ℕ → DB
  pub insert_failure : DB → Option Bytes → ℕ → DB
  pub count_ip : DB → Bytes → ℕ → Option ℕ
  pub count_all : DB → ℕ → Option ℕ

-- What the statements do to the rows while none fails.
pub record Works {DB : Type 0} (store : RateStore DB) : Type 0 where
  pub increment_row :
      (db : DB) (ip : Bytes) (start count : ℕ)
      → store.select db ip ≡ row start count
      → store.select (store.increment db ip) ip ≡ row start (count + 1)
  pub insert_row :
      (db : DB) (ip : Bytes) (now : ℕ)
      → store.select db ip ≡ no_row
      → store.select (store.insert_or_ignore db ip now) ip ≡ row now 1
  pub increment_other :
      (db : DB) (ip other : Bytes)
      → ip ≢ other
      → store.select (store.increment db other) ip ≡ store.select db ip
  pub insert_other :
      (db : DB) (ip other : Bytes) (now : ℕ)
      → ip ≢ other
      → store.select (store.insert_or_ignore db other now) ip ≡ store.select db ip
  pub reset_other :
      (db : DB) (ip other : Bytes) (now : ℕ)
      → ip ≢ other
      → store.select (store.reset db other now) ip ≡ store.select db ip

pub record RateLimiter : Type 0 where
  pub max_requests : ℕ
  pub window_secs : ℕ

pub rate_limiter_allow : {DB : Type 0} → RateStore DB → RateLimiter → DB → Bytes → ℕ → Bool × DB
rate_limiter_allow store rl db ip now = elim (store.select db ip) [
  | unprepared ↦ (true, db)
  | no_row ↦ (true, store.insert_or_ignore db ip now)
  | row window_start count ↦
      if leb (window_start + rl.window_secs) now
      then (true, store.reset db ip now)
      else if leb rl.max_requests count
      then (false, db)
      else (true, store.increment db ip)
]

pub rate_limiter_record_unlock_failure : {DB : Type 0} → RateStore DB → DB → Option Bytes → ℕ → DB
rate_limiter_record_unlock_failure store db ip now = store.insert_failure db ip now

pub rate_limiter_unlock_allowed : {DB : Type 0} → RateStore DB → DB → Bytes → ℕ → ℕ → ℕ → Bool
rate_limiter_unlock_allowed store db ip now max_per_ip max_global =
    elim (store.count_ip db ip (now - 60)) [
      | none ↦ true
      | some per_ip ↦
          if leb max_per_ip per_ip then false else elim (store.count_all db (now - 60)) [
            | none ↦ true
            | some global ↦ not (leb max_global global)
          ]
    ]
