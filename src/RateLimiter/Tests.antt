-- ===== src/RateLimiter/Tests.antt =====
-- A table of rows as a function, and the throttling with it.
use echo_ai_c.Base.{
  ℕ, ◌+◌, ◌≡◌, ◌≢◌, refl, ap, ◌∙◌, arith, Option, none, some, List, [], ◌∷◌, if◌then◌else◌, Bytes,
  codes, bytes_eq, bytes_eq_iff, Bool-cases, inl, inr,
}
use echo_ai_c.RateLimiter.{RateStore, Works, RateLimiter, Selected, unprepared, no_row, row}
use echo_ai_c.RateLimiter.Window.{passed, passed-window}

abbrev Table : Type 0
Table = Bytes → Option (ℕ × ℕ)

abbrev selected : Option (ℕ × ℕ) → Selected
selected none = no_row
selected (some (start, count)) = row start count

abbrev counted_up : Option (ℕ × ℕ) → Option (ℕ × ℕ)
counted_up none = none
counted_up (some (start, count)) = some (start, count + 1)

abbrev or_new : ℕ → Option (ℕ × ℕ) → Option (ℕ × ℕ)
or_new now none = some (now, 1)
or_new now (some r) = some r

abbrev change : Table → Bytes → (Option (ℕ × ℕ) → Option (ℕ × ℕ)) → Table
change db ip f p = if bytes_eq p ip then f (db p) else db p

abbrev table : RateStore Table
table = record {
  select = λ db ip. selected (db ip);
  reset = λ db ip now. change db ip (λ o. some (now, 1));
  increment = λ db ip. change db ip counted_up;
  insert_or_ignore = λ db ip now. change db ip (or_new now);
  insert_failure = λ db ip now. db;
  count_ip = λ db ip cutoff. none;
  count_all = λ db cutoff. none;
}

changed_own :
    (db : Table) (ip : Bytes) (f : Option (ℕ × ℕ) → Option (ℕ × ℕ))
    → selected (change db ip f ip) ≡ selected (f (db ip))
changed_own db ip f = rw ((bytes_eq_iff ip ip).1 refl) refl

changed_other :
    (db : Table) (ip other : Bytes) (f : Option (ℕ × ℕ) → Option (ℕ × ℕ))
    → ip ≢ other
    → selected (change db other f ip) ≡ selected (db ip)
changed_other db ip other f n = elim (Bool-cases (bytes_eq ip other)) [
  | inl t ↦ absurd (n ((bytes_eq_iff ip other).0 t))
  | inr k ↦ rw k refl
]

count_of : Selected → ℕ
count_of unprepared = 0
count_of no_row = 0
count_of (row start count) = count + 1

start_of : Selected → ℕ
start_of unprepared = 0
start_of no_row = 0
start_of (row start count) = start

incremented :
    (o : Option (ℕ × ℕ)) (start count : ℕ)
    → selected o ≡ row start count
    → selected (counted_up o) ≡ row start (count + 1)
unfolding count_of start_of
incremented none start count h = absurd (ground (arith, let e : 0 ≡ count + 1 = ap count_of h in e))
incremented (some (s, c)) start count h =
    let same_start : s ≡ start = ap start_of h in
    let same_count : c + 1 ≡ count + 1 = ap count_of h in rw (same_start, same_count) refl

inserted :
    (o : Option (ℕ × ℕ)) (now : ℕ) → selected o ≡ no_row → selected (or_new now o) ≡ row now 1
unfolding count_of
inserted none now h = refl
inserted (some (s, c)) now h = absurd (ground (arith, let e : c + 1 ≡ 0 = ap count_of h in e))

table-Works : Works table
table-Works = record {
  increment_row =
      λ db ip start count h. changed_own db ip counted_up ∙ incremented (db ip) start count h;
  insert_row = λ db ip now h. changed_own db ip (or_new now) ∙ inserted (db ip) now h;
  increment_other = λ db ip other n. changed_other db ip other counted_up n;
  insert_other = λ db ip other now n. changed_other db ip other (or_new now) n;
  reset_other = λ db ip other now n. changed_other db ip other (λ o. some (now, 1)) n;
}

abbrev limiter : RateLimiter
limiter = record { max_requests = 2; window_secs = 60 }

abbrev requests : List (Bytes × ℕ)
requests = (codes "a", 100) ∷ (codes "b", 110) ∷ (codes "a", 120) ∷ (codes "a", 159) ∷ []

passed-window_example : passed table limiter (λ ip. none) (codes "a") requests ≡ 2
unfolding bytes_eq
passed-window_example =
    passed-window table table-Works limiter (codes "a") 100 (λ ip. none) requests refl
      (
        (omega arith, omega arith),
        (
          (omega arith, omega arith),
          ((omega arith, omega arith), ((omega arith, omega arith), tt)),
        ),
      )
