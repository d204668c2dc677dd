-- ===== src/Branches/Clock.antt =====
-- The time of birth of a new live chain: `branch_next_created_at`.
use echo_ai_c.Base.{
  ℕ, zero, suc, ◌+◌, false, ◌⊎◌, inl, inr, Bool-cases, Option-cases, ◌≡◌, refl, sym, ap, ◌∙◌, subst,
  arith, some, Bytes,
}
use echo_ai_c.Branches.{
  Session, Env, Step, bytes_le, wait_past, branch_active_created_at, branch_next_created_at,
}
use echo_ai_c.Branches.Chains.{some_of_bind, some_of_guard}

-- `now` is the reading `k` of the clock, and past `prev`, unless all 16 naps were taken or the next one was
-- interrupted.
abbrev pub Past : Env → Bytes → Bytes → Type 0
Past env prev now =
    (k : ℕ) × (env.now k ≡ some now)
    × ((bytes_le now prev ≡ false) ⊎ ((k ≡ 16) ⊎ (env.nap k ≡ false)))

wait_past-Past :
    (env : Env) (r i : ℕ) (now prev later : Bytes)
    → i + r ≡ 16
    → env.now i ≡ some now
    → wait_past env r i now prev ≡ some later
    → Past env prev later
unfolding wait_past
wait_past-Past env zero i now prev later rounds e h = (i, e ∙ h, inr (inl (omega (arith, rounds))))
wait_past-Past env (suc r) i now prev later rounds e h = elim (Bool-cases (bytes_le now prev)) [
  | inr past ↦
      let same : now ≡ later = ground (arith, h, past) in
      (i, e ∙ ap some same, inl (subst (λ x. bytes_le x prev ≡ false) same past))
  | inl early ↦ elim (Bool-cases (env.nap i)) [
    | inr cut ↦
        let same : now ≡ later = ground (arith, h, early, cut) in
        (i, e ∙ ap some same, inr (inr cut))
    | inl slept ↦ elim (Option-cases (env.now (i + 1))) [
      | inl none_read ↦ absurd (ground (arith, h, early, slept, none_read))
      | inr (next, read) ↦
          let more : wait_past env r (i + 1) next prev ≡ some later =
            sym (rw (early, slept, read) refl) ∙ h in
          wait_past-Past env r (i + 1) next prev later (omega (arith, rounds)) read more
    ]
  ]
]

module _ {J N : Type 0} (env : Env) where
  pub branch_next_created_at-Past :
      (s : Session J N) (now : Bytes)
      → branch_next_created_at env s ≡ some now
      → Past env (branch_active_created_at s) now
  unfolding branch_next_created_at
  branch_next_created_at-Past s now h =
      let (first, read, a) = some_of_bind (env.now 0) _ now h in
      let b = some_of_guard (env.ok Step.previous) _ now a in
      wait_past-Past env 16 0 first (branch_active_created_at s) now refl read b
