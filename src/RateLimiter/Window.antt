-- ===== src/RateLimiter/Window.antt =====
-- How many requests of one address pass within a window.
use echo_ai_c.Base.{
  ℕ, ◌+◌, ◌-◌, ◌<◌, ◌≤◌, ◌≡◌, ◌≢◌, inl, inr, refl, sym, ap, ◌∙◌, arith, min, Bool, true, false,
  List, [], ◌∷◌, leb, ◌==◌, if◌then◌else◌, Bytes, bytes_eq, bytes_eq_iff, All, Bool-cases,
}
use echo_ai_c.RateLimiter.{
  RateStore, Works, RateLimiter, Selected, unprepared, no_row, row, rate_limiter_allow,
}

-- The requests of all addresses in their order, each with its time; how many of one address there are, and
-- how many of those pass.
abbrev pub number : Bytes → List (Bytes × ℕ) → ℕ
number ip [] = 0
number ip (r ∷ rs) = (if bytes_eq r.0 ip then 1 else 0) + number ip rs

not_same : (s t : Bytes) → bytes_eq s t ≡ false → t ≢ s
not_same s t f e = absurd (ground (arith, f, (bytes_eq_iff s t).1 (sym e)))

module _ {DB : Type 0} (store : RateStore DB) (rl : RateLimiter) where
  unfoldable pub passed : DB → Bytes → List (Bytes × ℕ) → ℕ
  unfolding rate_limiter_allow
  passed db ip [] = 0
  passed db ip (r ∷ rs) =
      let answer = rate_limiter_allow store rl db r.0 r.1 in
      (if bytes_eq r.0 ip then (if answer.0 then 1 else 0) else 0) + passed answer.1 ip rs

  module _ (works : Works store) (ip : Bytes) (begin : ℕ) where
    other_row :
        (db : DB) (other : Bytes) (now : ℕ)
        → ip ≢ other
        → store.select (rate_limiter_allow store rl db other now).1 ip ≡ store.select db ip
    unfolding rate_limiter_allow
    other_row db other now n = by_row (store.select db other)
      where
        by_row :
            (o : Selected)
            → store.select
                (elim o as (λ _. Bool × DB) [
                  | unprepared ↦ (true, db)
                  | no_row ↦ (true, store.insert_or_ignore db other now)
                  | row window_start count ↦
                      if leb (window_start + rl.window_secs) now
                      then (true, store.reset db other now)
                      else if leb rl.max_requests count
                      then (false, db)
                      else (true, store.increment db other)
                ]).1
                ip
              ≡ store.select db ip
        by_row unprepared = refl
        by_row no_row = works.insert_other db ip other now n
        by_row (row start count) = elim (Bool-cases (leb (start + rl.window_secs) now)) [
          | inl t ↦ rw t (works.reset_other db ip other now n)
          | inr f ↦ elim (Bool-cases (leb rl.max_requests count)) [
            | inl t ↦ rw (f, t) refl
            | inr k ↦ rw (f, k) (works.increment_other db ip other n)
          ]
        ]

    own_row :
        (db : DB) (now start count : ℕ)
        → store.select db ip ≡ row start count
        → now < start + rl.window_secs
        → rate_limiter_allow store rl db ip now
          ≡ (if leb rl.max_requests count then (false, db) else (true, store.increment db ip))
    unfolding rate_limiter_allow
    own_row db now start count e l =
        let inside : leb (start + rl.window_secs) now ≡ false = ground (arith, l) in
        rw (e, rate_limiter_allow, inside) refl

    -- The times of the requests lie in the window that begins at `begin`.
    abbrev InWindow : List (Bytes × ℕ) → Type 0
    InWindow rs = All (λ r. (begin ≤ r.1) × (r.1 < begin + rl.window_secs)) rs

    counted :
        (db : DB) (rs : List (Bytes × ℕ)) (start count : ℕ)
        → store.select db ip ≡ row start count
        → begin ≤ start
        → InWindow rs
        → passed db ip rs ≡ min (number ip rs) (rl.max_requests - count)
    unfolding passed
    counted db [] start count e l h = omega arith
    counted db (r ∷ rs) start count e l h = elim (Bool-cases (bytes_eq r.0 ip)) [
      | inl mine ↦
          let answer : rate_limiter_allow store rl db r.0 r.1
              ≡ (if leb rl.max_requests count then (false, db) else (true, store.increment db ip)) =
            ap (λ x. rate_limiter_allow store rl db x r.1) ((bytes_eq_iff r.0 ip).0 mine)
            ∙ own_row db r.1 start count e (omega (arith, l, h.0)) in
          elim (Bool-cases (leb rl.max_requests count)) [
            | inl full ↦
                let rest : passed db ip rs ≡ min (number ip rs) (rl.max_requests - count) =
                  counted db rs start count e l h.1 in
                rw (mine, answer, full) (ground (arith, full, rest))
            | inr room ↦
                let rest : passed (store.increment db ip) ip rs
                    ≡ min (number ip rs) (rl.max_requests - (count + 1)) =
                  counted (store.increment db ip) rs start (count + 1)
                    (works.increment_row db ip start count e) l h.1 in
                rw (mine, answer, room) (ground (arith, room, rest))
          ]
      | inr other ↦
          let rest : passed (rate_limiter_allow store rl db r.0 r.1).1 ip rs
              ≡ min (number ip rs) (rl.max_requests - count) =
            counted (rate_limiter_allow store rl db r.0 r.1).1 rs start count
              (other_row db r.0 r.1 (not_same r.0 ip other) ∙ e) l h.1 in
          rw other (omega (arith, rest))
    ]

    fresh_row :
        (db : DB) (now : ℕ)
        → store.select db ip ≡ no_row
        → rate_limiter_allow store rl db ip now ≡ (true, store.insert_or_ignore db ip now)
    unfolding rate_limiter_allow
    fresh_row db now e = rw (e, rate_limiter_allow) refl

-- Where no statement fails and an address has no row yet: of the requests of all addresses that come
-- within one window, those of this address that pass are as many as it makes, but at most the limit, and one
-- where the limit is 0.
pub passed-window :
    {DB : Type 0} (store : RateStore DB) (works : Works store) (rl : RateLimiter) (ip : Bytes)
    (begin : ℕ) (db : DB) (rs : List (Bytes × ℕ))
    → store.select db ip ≡ no_row
    → All (λ r. (begin ≤ r.1) × (r.1 < begin + rl.window_secs)) rs
    → passed store rl db ip rs
      ≡ min (number ip rs) (if rl.max_requests == 0 then 1 else rl.max_requests)
unfolding passed
passed-window store works rl ip begin db [] e h = omega arith
passed-window store works rl ip begin db (r ∷ rs) e h = elim (Bool-cases (bytes_eq r.0 ip)) [
  | inl mine ↦
      let answer : rate_limiter_allow store rl db r.0 r.1
          ≡ (true, store.insert_or_ignore db ip r.1) =
        ap (λ x. rate_limiter_allow store rl db x r.1) ((bytes_eq_iff r.0 ip).0 mine)
        ∙ fresh_row store rl works ip begin db r.1 e in
      let rest : passed store rl (store.insert_or_ignore db ip r.1) ip rs
          ≡ min (number ip rs) (rl.max_requests - 1) =
        counted store rl works ip begin (store.insert_or_ignore db ip r.1) rs r.1 1
          (works.insert_row db ip r.1 e) h.0.0 h.1 in
      rw (mine, answer) (ground (arith, rest))
  | inr other ↦
      let later : store.select (rate_limiter_allow store rl db r.0 r.1).1 ip ≡ no_row =
        other_row store rl works ip begin db r.0 r.1 (not_same r.0 ip other) ∙ e in
      let rest : passed store rl (rate_limiter_allow store rl db r.0 r.1).1 ip rs
          ≡ min (number ip rs) (if rl.max_requests == 0 then 1 else rl.max_requests) =
        passed-window store works rl ip begin (rate_limiter_allow store rl db r.0 r.1).1 rs later
          h.1 in
      rw other (ground (arith, rest))
]
