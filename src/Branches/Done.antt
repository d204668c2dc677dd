-- ===== src/Branches/Done.antt =====
-- A switch to a recorded chain returns 0 while nothing fails.
use echo_ai_c.Base.{
  ℕ, ◌≡◌, ◌≢◌, refl, ◌∙◌, arith, true, none, some, List, [], ◌∷◌, map, Bytes, Option-cases, inl,
  inr,
}
use echo_ai_c.Messages.{
  Json, Lawful, Message, message_to_json, messages_to_json_array, session_serialize_messages_new,
  session_deserialize_messages,
}
use echo_ai_c.Messages.Reload.{
  reloaded, session_deserialize_messages-session_serialize_messages_new,
}
use echo_ai_c.Branches.{
  BranchRecord, Session, Env, Step, Store, branch_record_find, branch_list_ensure,
  branch_record_create, branch_mint_id, branch_record_snapshot_live,
  session_manager_load_session_nolock, session_manager_save_session_nolock,
  session_manager_switch_branch, switch_prepared, switch_to,
}
use echo_ai_c.Branches.Chains.{Recorded, IsRecorded, branch_record_find-place, All-at}
use echo_ai_c.Branches.Switch.{switch_prepared-Shape}
use echo_ai_c.Branches.Return.{KeepsRows}

module _ {J N : Type 0} (json : Json J N) (env : Env) (fine : (step : Step) → env.ok step ≡ true)
    (random : Bytes) (minted : env.random_id 0 ≡ some random) where
  snapshot_made :
      (s : Session J N) (l : List (BranchRecord J))
      → (list : List (BranchRecord J)) × (branch_record_snapshot_live json env s l ≡ some list)
  unfolding branch_record_snapshot_live branch_record_create branch_mint_id
  snapshot_made s l = elim (Option-cases (branch_record_snapshot_live json env s l)) [
    | inl e ↦ absurd (
        ground (
          arith,
          e,
          minted,
          fine Step.created,
          fine Step.snapshot,
          fine Step.record_object,
          fine Step.record_append,
        ))
    | inr found ↦ found
  ]

  switch_made :
      (s : Session J N) (i : ℕ) (rec : BranchRecord J) (text c : Bytes) (ms : List (Message N))
      → rec.created_at ≡ some c
      → session_deserialize_messages json text ≡ some ms
      → (s' : Session J N) × (switch_to json env s i rec text ≡ some s')
  unfolding switch_to
  switch_made s i rec text c ms born loaded =
      elim (Option-cases (switch_to json env s i rec text)) [
        | inl e ↦
            let shot = snapshot_made s (branch_list_ensure s) in
            absurd (
              ground
                (arith, e, shot.1, born, loaded, fine Step.load_messages, fine Step.set_active))
        | inr found ↦ found
      ]

  module _ (lawful : Lawful json) where
    abbrev stored : Message N → J
    stored = message_to_json json

    switch_ready :
        (s : Session J N) (branch_id : Bytes) (found : ℕ × BranchRecord J)
        → Recorded stored s
        → branch_record_find (branch_list_ensure s) branch_id 0 ≡ some found
        → switch_prepared json env s branch_id ≢ none
    unfolding switch_prepared session_serialize_messages_new messages_to_json_array
    switch_ready s branch_id found recorded e none_made =
        let place = branch_record_find-place (branch_list_ensure s) branch_id 0 found.0 found.1 e in
        let (c, ms, born, shot) =
          All-at (IsRecorded stored) (branch_list_ensure s) place.0 found.1 recorded place.2 in
        let text : Bytes = json.print (json.array (map stored ms)) in
        let loaded = session_deserialize_messages-session_serialize_messages_new json lawful ms in
        let made = switch_made s found.0 found.1 text c (map (reloaded json) ms) born loaded in
        absurd (
          ground (
            arith,
            none_made,
            e,
            shot,
            made.1,
            fine Step.list_ensure,
            fine Step.print_snapshot,
            fine Step.snapshot,
            fine Step.print_live,
          ))

    module _ {DB : Type 0} (store : Store DB J N) (keeps : KeepsRows json store)
        (saves : (db : DB) (s : Session J N) → (db' : DB) × (store.save db s ≡ some db')) where
      -- While no allocation fails, an id is minted, and rows are saved and kept as they are saved, a switch to the
      -- id of a record of a session in the database returns 0, if all records of the session were made by this
      -- code and its own id is not empty.
      pub switch_branch-returns :
          (db : DB) (s : Session J N) (session_id branch_id : Bytes) (found : ℕ × BranchRecord J)
          → session_id ≢ []
          → store.load db session_id ≡ some s
          → Recorded stored s
          → branch_record_find (branch_list_ensure s) branch_id 0 ≡ some found
          → (db' : DB) × (session_manager_switch_branch json env store db session_id branch_id
              ≡ (db', true))
      unfolding session_manager_switch_branch session_manager_load_session_nolock
          session_manager_save_session_nolock
      switch_branch-returns db s [] branch_id found full e_load recorded e = absurd (full refl)
      switch_branch-returns db s (x ∷ id) branch_id found full e_load recorded e =
          elim (Option-cases (switch_prepared json env s branch_id)) [
            | inl n ↦ absurd (switch_ready s branch_id found recorded e n)
            | inr (none, f) ↦ (db, ground (arith, e_load, f))
            | inr (some s', f) ↦
                let w = switch_prepared-Shape json env lawful s s' branch_id recorded f in
                let named : s'.id ≡ x ∷ id = w.same_id ∙ keeps.load_id db (x ∷ id) s e_load in
                let (db', saved) = saves db s' in (db', ground (arith, e_load, f, named, saved))
          ]
