-- ===== src/Branches/Return.antt =====
-- The operations on the database: a fork that is taken back by a switch.
use mathlib.Core.Option.{some-injective}
use echo_ai_c.Base.{
  ℕ, zero, suc, ◌+◌, ◌≡◌, ◌⊎◌, sym, ap, ◌∙◌, subst, arith, true, Option, none, some, List, [], ◌∷◌,
  ◌++◌, map, Bytes, ℤ, get_elem?, set, Option-cases, Bool-cases, inl, inr,
}
use echo_ai_c.Messages.{Json, Lawful, Message, message_to_json}
use echo_ai_c.Messages.Reload.{reloaded}
use echo_ai_c.Messages.Settle.{stored_again}
use echo_ai_c.Branches.{
  BranchRecord, Session, ForkResult, Env, Store, has_id, branch_record_find, branch_list_ensure,
  branch_find_fork_index, session_manager_load_session_nolock, session_manager_save_session_nolock,
  fork_prepared, branch_do_fork, session_manager_fork_branch, session_manager_switch_branch,
  switch_prepared,
}
use echo_ai_c.Branches.Chains.{Recorded}
use echo_ai_c.Branches.Fork
use echo_ai_c.Branches.Fork.{original, fork_prepared-Shape, fork_prepared-Recorded}
use echo_ai_c.Branches.Switch.{listed, printed_alike, switch_prepared-none, switch_prepared-Shape}

module _ {J N DB : Type 0} (json : Json J N) (store : Store DB J N) where
  -- A saved row is loaded as it was saved, but for its messages, which come back from JSON, and a row is
  -- that of the id that is asked for.
  pub record KeepsRows : Type 0 where
    pub load_saved :
        (db db' : DB) (s : Session J N)
        → store.save db s ≡ some db'
        → store.load db' s.id ≡ some record s { messages = map (reloaded json) s.messages }
    pub load_id : (db : DB) (id : Bytes) (s : Session J N) → store.load db id ≡ some s → s.id ≡ id

  loaded_row :
      (db : DB) (id : Bytes) (s : Session J N)
      → session_manager_load_session_nolock store db id ≡ some s
      → store.load db id ≡ some s
  unfolding session_manager_load_session_nolock
  loaded_row db [] s h = absurd (ground (arith, h))
  loaded_row db (c ∷ id) s h = h

  saved_row :
      (db db' : DB) (s : Session J N)
      → session_manager_save_session_nolock store db s ≡ some db'
      → store.save db s ≡ some db'
  unfolding session_manager_save_session_nolock
  saved_row db db' s h = by_id s.id h
    where
      by_id :
          (id : Bytes)
          → elim id as (λ _. Option DB) [ [] ↦ none | c ∷ r ↦ store.save db s ] ≡ some db'
          → store.save db s ≡ some db'
      by_id [] h = absurd (ground (arith, h))
      by_id (c ∷ r) h = h

  module _ (env : Env) where
    -- A fork that returns 0 has saved the session that it prepared.
    pub fork_branch-some :
        (db db' : DB) (session_id : Bytes) (message_id : Option Bytes) (index : ℤ)
        (text : Option Bytes) (r : ForkResult N)
        → session_manager_fork_branch json env store db session_id message_id index text
          ≡ (db', some r)
        → (s : Session J N) × (fi : ℕ) × (s' : Session J N) × (store.load db session_id ≡ some s)
          × (branch_find_fork_index s message_id index ≡ some fi)
          × (fork_prepared json env s fi text ≡ some (s', r))
          × (store.save db s' ≡ some db')
    unfolding session_manager_fork_branch branch_do_fork
    fork_branch-some db db' session_id message_id index text r h =
        elim (Option-cases (session_manager_load_session_nolock store db session_id)) [
          | inl e ↦ absurd (ground (arith, h, e))
          | inr (s, e) ↦ elim (Option-cases (branch_find_fork_index s message_id index)) [
            | inl f ↦ absurd (ground (arith, h, e, f))
            | inr (fi, f) ↦ elim (Option-cases (fork_prepared json env s fi text)) [
              | inl g ↦ absurd (ground (arith, h, e, f, g))
              | inr ((s', result), g) ↦
                  elim (Option-cases (session_manager_save_session_nolock store db s')) [
                    | inl k ↦ absurd (ground (arith, h, e, f, g, k))
                    | inr (d, k) ↦
                        let done : (d ≡ db') × (result ≡ r) = ground (arith, h, e, f, g, k) in
                        let saved : session_manager_save_session_nolock store db s' ≡ some db' =
                          k ∙ ap some done.0 in
                        (
                          s,
                          fi,
                          s',
                          loaded_row db session_id s e,
                          f,
                          g ∙ ap (λ x. some (s', x)) done.1,
                          saved_row db db' s' saved,
                        )
                  ]
            ]
          ]
        ]

    -- A switch that returns 0 has found the chain live, or has saved the session that it prepared.
    pub switch_branch-true :
        (db db' : DB) (session_id branch_id : Bytes)
        → session_manager_switch_branch json env store db session_id branch_id ≡ (db', true)
        → (s : Session J N) × (store.load db session_id ≡ some s)
          × (((switch_prepared json env s branch_id ≡ some none) × (db' ≡ db))
              ⊎ ((s' : Session J N) × (switch_prepared json env s branch_id ≡ some (some s'))
                  × (store.save db s' ≡ some db')))
    unfolding session_manager_switch_branch
    switch_branch-true db db' session_id branch_id h =
        elim (Option-cases (session_manager_load_session_nolock store db session_id)) [
          | inl e ↦ absurd (ground (arith, h, e))
          | inr (s, e) ↦ elim (Option-cases (switch_prepared json env s branch_id)) [
            | inl f ↦ absurd (ground (arith, h, e, f))
            | inr (none, f) ↦ (s, loaded_row db session_id s e, inl (f, ground (arith, h, e, f)))
            | inr (some s', f) ↦
                elim (Option-cases (session_manager_save_session_nolock store db s')) [
                  | inl k ↦ absurd (ground (arith, h, e, f, k))
                  | inr (d, k) ↦
                      let done : d ≡ db' = ground (arith, h, e, f, k) in
                      (
                        s,
                        loaded_row db session_id s e,
                        inr (s', f, saved_row db db' s' (k ∙ ap some done)),
                      )
                ]
          ]
        ]

  only_match :
      (l : List (BranchRecord J)) (rec x : BranchRecord J) (id : Bytes) (k i : ℕ)
      → branch_record_find l id k ≡ none
      → get_elem? (l ++ (rec ∷ [])) i ≡ some x
      → has_id x.id id ≡ true
      → rec ≡ x
  unfolding branch_record_find
  only_match [] rec x id k zero h at named = some-injective rec x at
  only_match [] rec x id k (suc i) h at named = absurd (ground (arith, at))
  only_match (y ∷ l) rec x id k zero h at named =
      let y_named : has_id y.id id ≡ true =
        ap (λ (r : BranchRecord J). has_id r.id id) (some-injective y x at) ∙ named in
      absurd (ground (arith, h, y_named))
  only_match (y ∷ l) rec x id k (suc i) h at named = elim (Bool-cases (has_id y.id id)) [
    | inl t ↦ absurd (ground (arith, h, t))
    | inr f ↦
        let rest : branch_record_find l id (k + 1) ≡ none = ground (arith, h, f) in
        only_match l rec x id (k + 1) i rest at named
  ]

  module _ (lawful : Lawful json) (keeps : KeepsRows) (env env' : Env) where
    abbrev stored : Message N → J
    stored = message_to_json json

    abbrev reread : Session J N → Session J N
    reread s = record s { messages = map (reloaded json) s.messages }

    module _ (s s1 : Session J N) (r : ForkResult N) (fi : ℕ) (text : Option Bytes)
        (recorded : Recorded stored s)
        (fresh : branch_record_find (branch_list_ensure s) r.branch_id 0 ≡ none)
        (forked : fork_prepared json env s fi text ≡ some (s1, r)) where
      made : Fork.Shape json env s s1 r fi text
      made = fork_prepared-Shape json env s s1 r fi text forked

      abbrev before : List J
      before = map stored (set s.messages fi (original r.fork_message_id r.fork_group_id made.m))

      found_record :
          (i : ℕ) (x : BranchRecord J) (snap : List J)
          → get_elem? (branch_list_ensure (reread s1)) i ≡ some x
          → has_id x.id r.branch_id ≡ true
          → x.messages ≡ some snap
          → snap ≡ before
      unfolding branch_list_ensure
      found_record i x snap at named shot =
          let l : List (BranchRecord J) = branch_list_ensure s in
          let list = listed json env s1 made.now (l ++ (made.rec ∷ [])) made.left in
          let there : get_elem? (l ++ (made.rec ∷ [])) i ≡ some x =
            ap (λ (k : List (BranchRecord J)). get_elem? k i) (sym list) ∙ at in
          let is_made : made.rec ≡ x = only_match l made.rec x r.branch_id 0 i fresh there named in
          some-injective snap before (
            sym shot
            ∙ (ap (λ (b : BranchRecord J). b.messages) (sym is_made)
                ∙ ap (λ (b : BranchRecord J). b.messages) made.recorded_chain))

      reread-Recorded : Recorded stored (reread s1)
      unfolding branch_list_ensure
      reread-Recorded = fork_prepared-Recorded json env s s1 r fi text recorded forked

      still_live :
          switch_prepared json env' (reread s1) r.branch_id ≡ some none
          → map stored s1.messages ≡ before
      still_live h =
          let (i, x, snap, at, named, shot, same) =
            switch_prepared-none json env' (reread s1) r.branch_id h in
          sym (stored_again json lawful s1.messages)
          ∙ (printed_alike json env' lawful (map (reloaded json) s1.messages) snap same
              ∙ found_record i x snap at named shot)

      switched_back :
          (s2 : Session J N)
          → switch_prepared json env' (reread s1) r.branch_id ≡ some (some s2)
          → (map stored s2.messages ≡ before) × (s2.id ≡ s1.id)
      switched_back s2 h =
          let w =
            switch_prepared-Shape json env' lawful (reread s1) s2 r.branch_id reread-Recorded h in
          (
            w.live_messages ∙ found_record w.i w.rec (map stored w.ms) w.at w.named w.shot,
            w.same_id,
          )

      database_after :
          (db1 db2 : DB) (session_id : Bytes)
          → s1.id ≡ session_id
          → store.load db1 session_id ≡ some (reread s1)
          → ((switch_prepared json env' (reread s1) r.branch_id ≡ some none) × (db2 ≡ db1))
            ⊎ ((s' : Session J N) × (switch_prepared json env' (reread s1) r.branch_id
                  ≡ some (some s'))
                × (store.save db1 s' ≡ some db2))
          → (t : Session J N) × (store.load db2 session_id ≡ some t)
            × (map stored t.messages ≡ before)
      database_after db1 db2 session_id id_is e_u (inl (h, same_db)) = (
        reread s1,
        subst (λ d. store.load d session_id ≡ some (reread s1)) (sym same_db) e_u,
        stored_again json lawful s1.messages ∙ still_live h,
      )
      database_after db1 db2 session_id id_is e_u (inr (s2, h, saved)) =
          let (live, same_id) = switched_back s2 h in
          (
            reread s2,
            subst (λ id. store.load db2 id ≡ some (reread s2)) (same_id ∙ id_is)
                (keeps.load_saved db1 db2 s2 saved),
            stored_again json lawful s2.messages ∙ live,
          )

    -- Where the rows are kept as they are saved: after a fork of a session that returns 0, a switch to the record
    -- that it made, if that returns 0, leaves a session in the database whose live chain is stored as the chain
    -- before the fork, in which only the message at the fork point has got the shared group, and an id if it had
    -- none. All records of the forked session were made by this code, and none of them has the id of the new one.
    pub switch_branch-fork_branch :
        (db db1 db2 : DB) (s : Session J N) (session_id : Bytes) (message_id : Option Bytes)
        (index : ℤ) (text : Option Bytes) (r : ForkResult N)
        → store.load db session_id ≡ some s
        → Recorded stored s
        → branch_record_find (branch_list_ensure s) r.branch_id 0 ≡ none
        → session_manager_fork_branch json env store db session_id message_id index text
          ≡ (db1, some r)
        → session_manager_switch_branch json env' store db1 session_id r.branch_id ≡ (db2, true)
        → (fi : ℕ) × (m : Message N) × (t : Session J N) × (branch_find_fork_index s message_id
              index
            ≡ some fi)
          × (get_elem? s.messages fi ≡ some m)
          × (store.load db2 session_id ≡ some t)
          × (map stored t.messages
              ≡ map stored (set s.messages fi (original r.fork_message_id r.fork_group_id m)))
    switch_branch-fork_branch db db1 db2 s session_id message_id index text r e_load recorded fresh
          h_fork h_switch =
        let (s0, fi, s1, e_s0, e_fi, e_s1, e_db1) =
          fork_branch-some env db db1 session_id message_id index text r h_fork in
        let is_s : s0 ≡ s = some-injective s0 s (sym e_s0 ∙ e_load) in
        let fork_s : fork_prepared json env s fi text ≡ some (s1, r) =
          subst (λ u. fork_prepared json env u fi text ≡ some (s1, r)) is_s e_s1 in
        let index_s : branch_find_fork_index s message_id index ≡ some fi =
          subst (λ u. branch_find_fork_index u message_id index ≡ some fi) is_s e_fi in
        let w = made s s1 r fi text recorded fresh fork_s in
        let s1_id : s1.id ≡ session_id = w.same_id ∙ keeps.load_id db session_id s e_load in
        let e_u : store.load db1 session_id ≡ some (reread s1) =
          subst (λ id. store.load db1 id ≡ some (reread s1)) s1_id
            (keeps.load_saved db db1 s1 e_db1) in
        let (u, e_u', outcome) = switch_branch-true env' db1 db2 session_id r.branch_id h_switch in
        let is_u : u ≡ reread s1 = some-injective u (reread s1) (sym e_u' ∙ e_u) in
        let (t, e_t, live) =
          database_after s s1 r fi text recorded fresh fork_s db1 db2 session_id s1_id e_u (
            subst
              (λ v.
                ((switch_prepared json env' v r.branch_id ≡ some none) × (db2 ≡ db1))
                ⊎ ((s' : Session J N) × (switch_prepared json env' v r.branch_id ≡ some (some s'))
                    × (store.save db1 s' ≡ some db2)))
              is_u outcome) in
        (fi, w.m, t, index_s, w.at, e_t, live)
