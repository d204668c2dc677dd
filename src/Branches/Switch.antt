-- ===== src/Branches/Switch.antt =====
-- What a switch leaves of a session.
use mathlib.Core.Option.{some-injective}
use echo_ai_c.Base.{
  ℕ, ◌≡◌, refl, sym, ap, ◌∙◌, subst, arith, Bool, true, false, ◌&&◌, Option, none, some, List, [],
  ◌∷◌, ◌++◌, map, Bytes, codes, bytes_eq, bytes_eq_iff, if◌then◌else◌, get_elem?,
}
use echo_ai_c.Messages.{
  Json, Lawful, Message, message_to_json, messages_to_json_array, session_serialize_messages_new,
  session_deserialize_messages,
}
use echo_ai_c.Messages.Reload.{
  reloaded, session_deserialize_messages-session_serialize_messages_new,
}
use echo_ai_c.Messages.Settle.{stored_again}
use echo_ai_c.Branches.{
  BranchRecord, Session, Env, Step, has_id, branch_record_find, remove_at, branch_list_ensure,
  records_of, branch_active_created_at, branch_record_snapshot_live, branch_snapshot_messages,
  branch_record_create, branch_mint_id, branch_next_created_at, switch_to, switch_prepared, to_save,
}
use echo_ai_c.Branches.Chains.{
  some_of_bind, some_of_guard, Recorded, IsRecorded, branch_record_find-place, All-at,
}

module _ {J N : Type 0} (json : Json J N) (env : Env) where
  -- What the snapshot of the live chain appends.
  abbrev LiveRecord : Session J N → BranchRecord J → Type 0
  LiveRecord s rec =
      (id : Bytes) × (rec ≡ record {
        id = some id;
        created_at = some (branch_active_created_at s);
        messages = some (map (message_to_json json) s.messages);
      })

  pub branch_record_create-some :
      (n : ℕ) (c : Bytes) (ms : List J) (rec : BranchRecord J)
      → branch_record_create env n c ms ≡ some rec
      → (id : Bytes) × (branch_mint_id env (codes "br_") n ≡ some id)
        × (rec ≡ record { id = some id; created_at = some c; messages = some ms })
  unfolding branch_record_create
  branch_record_create-some n c ms rec h =
      let minted = some_of_bind (branch_mint_id env (codes "br_") n) _ rec h in
      let made = some_of_guard (env.ok Step.record_object) _ rec minted.2 in
      (minted.0, minted.1, ground (arith, made))

  pub snapshot_appends :
      (s : Session J N) (l list : List (BranchRecord J))
      → branch_record_snapshot_live json env s l ≡ some list
      → (rec : BranchRecord J) × LiveRecord s rec × (list ≡ l ++ (rec ∷ []))
  unfolding branch_record_snapshot_live branch_snapshot_messages
  snapshot_appends s l list h =
      let past = some_of_guard (env.ok Step.created && env.ok Step.snapshot) _ list h in
      let record_of =
        branch_record_create env 0 (branch_active_created_at s)
          (map (message_to_json json) s.messages) in
      let made = some_of_bind record_of _ list past in
      let fields = branch_record_create-some 0 _ _ made.0 made.1 in
      let appended = some_of_guard (env.ok Step.record_append) _ list made.2 in
      (made.0, (fields.0, fields.2), ground (arith, appended))

  -- What a switch that is made leaves.
  pub switch_to-some :
      (s s' : Session J N) (i : ℕ) (rec : BranchRecord J) (text : Bytes)
      → switch_to json env s i rec text ≡ some s'
      → (list : List (BranchRecord J)) × (messages : List (Message N)) × (born : Bytes)
        × (branch_record_snapshot_live json env s (branch_list_ensure s) ≡ some list)
        × (session_deserialize_messages json text ≡ some messages)
        × (elim rec.created_at as (λ _. Option Bytes) [
          | none ↦ branch_next_created_at env s
          | some c ↦ some c
        ]
            ≡ some born)
        × (s' ≡ record s {
          messages = messages;
          branches = some record { active_created_at = some born; list = some (remove_at list i) };
        })
  unfolding switch_to
  switch_to-some s s' i rec text h =
      let listed =
        some_of_bind (branch_record_snapshot_live json env s (branch_list_ensure s)) _ s' h in
      let past = some_of_guard (env.ok Step.load_messages) _ s' listed.2 in
      let loaded = some_of_bind (session_deserialize_messages json text) _ s' past in
      let born : Option Bytes = elim rec.created_at as (λ _. Option Bytes) [
        | none ↦ branch_next_created_at env s
        | some c ↦ some c
      ] in
      let birth = some_of_bind born _ s' loaded.2 in
      let made = some_of_guard (env.ok Step.set_active) _ s' birth.2 in
      (listed.0, loaded.0, birth.0, listed.1, loaded.1, birth.1, ground (arith, made))

  pub active_born :
      (s : Session J N) (born : Bytes) (l : List (BranchRecord J))
      → s.branches ≡ some record { active_created_at = some born; list = some l }
      → branch_active_created_at s ≡ born
  unfolding branch_active_created_at
  active_born s born l e = rw (branch_active_created_at, e) refl

  pub listed :
      (s : Session J N) (born : Bytes) (l : List (BranchRecord J))
      → s.branches ≡ some record { active_created_at = some born; list = some l }
      → branch_list_ensure s ≡ l
  unfolding branch_list_ensure
  listed s born l e = rw (records_of, e) refl

  not_live :
      (same : Bool) (o : Option (Session J N)) (s' : Session J N)
      → (if same then some none else to_save json env o) ≡ some (some s')
      → o ≡ some s'
  not_live true o s' h = absurd (ground (arith, h))
  not_live false none s' h = absurd (ground (arith, h))
  not_live false (some s) s' h = ground (arith, h)

  -- The record that a switch makes live.
  pub switch_prepared-some :
      (s s' : Session J N) (branch_id : Bytes)
      → switch_prepared json env s branch_id ≡ some (some s')
      → (i : ℕ) × (rec : BranchRecord J) × (snap : List J) × (get_elem? (branch_list_ensure s) i
          ≡ some rec)
        × (has_id rec.id branch_id ≡ true)
        × (rec.messages ≡ some snap)
        × (switch_to json env s i rec (json.print (json.array snap)) ≡ some s')
  unfolding switch_prepared
  switch_prepared-some s s' branch_id h =
      let past = some_of_guard (env.ok Step.list_ensure) _ (some s') h in
      let found =
        some_of_bind (branch_record_find (branch_list_ensure s) branch_id 0) _ (some s') past in
      let rec : BranchRecord J = found.0.1 in
      let shot = some_of_bind rec.messages _ (some s') found.2 in
      let text : Bytes = json.print (json.array shot.0) in
      let tested =
        some_of_guard (env.ok Step.print_snapshot && env.ok Step.snapshot && env.ok Step.print_live)
          _ (some s') shot.2 in
      let same : Bool = bytes_eq (session_serialize_messages_new json s.messages) text in
      let to = not_live same (switch_to json env s found.0.0 rec text) s' tested in
      let place =
        branch_record_find-place (branch_list_ensure s) branch_id 0 found.0.0 rec found.1 in
      let at : place.0 ≡ found.0.0 = omega (arith, place.1) in
      (
        found.0.0,
        rec,
        shot.0,
        subst (λ i. get_elem? (branch_list_ensure s) i ≡ some rec) at place.2,
        place.3,
        shot.1,
        to,
      )

  already_live :
      (same : Bool) (o : Option (Session J N))
      → (if same then some none else to_save json env o) ≡ some none
      → same ≡ true
  already_live true o h = refl
  already_live false none h = absurd (ground (arith, h))
  already_live false (some s) h = absurd (ground (arith, h))

  -- The record whose chain a switch finds live.
  pub switch_prepared-none :
      (s : Session J N) (branch_id : Bytes)
      → switch_prepared json env s branch_id ≡ some none
      → (i : ℕ) × (rec : BranchRecord J) × (snap : List J) × (get_elem? (branch_list_ensure s) i
          ≡ some rec)
        × (has_id rec.id branch_id ≡ true)
        × (rec.messages ≡ some snap)
        × (session_serialize_messages_new json s.messages ≡ json.print (json.array snap))
  unfolding switch_prepared
  switch_prepared-none s branch_id h =
      let past = some_of_guard (env.ok Step.list_ensure) _ none h in
      let found =
        some_of_bind (branch_record_find (branch_list_ensure s) branch_id 0) _ none past in
      let rec : BranchRecord J = found.0.1 in
      let shot = some_of_bind rec.messages _ none found.2 in
      let text : Bytes = json.print (json.array shot.0) in
      let tested =
        some_of_guard (env.ok Step.print_snapshot && env.ok Step.snapshot && env.ok Step.print_live)
          _ none shot.2 in
      let live : Bytes = session_serialize_messages_new json s.messages in
      let same : bytes_eq live text ≡ true =
        already_live (bytes_eq live text) (switch_to json env s found.0.0 rec text) tested in
      let place =
        branch_record_find-place (branch_list_ensure s) branch_id 0 found.0.0 rec found.1 in
      (place.0, rec, shot.0, place.2, place.3, shot.1, (bytes_eq_iff live text).0 same)

  module _ (lawful : Lawful json) where
    -- Two arrays of messages with the same text are the same.
    pub printed_alike :
        (ms : List (Message N)) (snap : List J)
        → session_serialize_messages_new json ms ≡ json.print (json.array snap)
        → map (message_to_json json) ms ≡ snap
    unfolding session_serialize_messages_new messages_to_json_array
    printed_alike ms snap h =
        let xs : List J = map (message_to_json json) ms in
        let parsed : some (json.array xs) ≡ some (json.array snap) =
          sym (lawful.parse-print (json.array xs))
          ∙ (ap json.parse h ∙ lawful.parse-print (json.array snap)) in
        let arrays = some-injective (json.array xs) (json.array snap) parsed in
        some-injective xs snap
          (sym (lawful.items_of_array xs) ∙ (ap json.items arrays ∙ lawful.items_of_array snap))

    abbrev stored : Message N → J
    stored = message_to_json json

    -- A snapshot is loaded as messages that are stored as that snapshot.
    loaded_snapshot :
        (ms messages : List (Message N)) (snap : List J)
        → snap ≡ map stored ms
        → session_deserialize_messages json (json.print (json.array snap)) ≡ some messages
        → map stored messages ≡ snap
    unfolding session_serialize_messages_new messages_to_json_array
    loaded_snapshot ms messages snap e h =
        let back = session_deserialize_messages-session_serialize_messages_new json lawful ms in
        let same : session_deserialize_messages json (json.print (json.array snap))
            ≡ some (map (reloaded json) ms) =
          subst
            (λ l.
              session_deserialize_messages json (json.print (json.array l))
              ≡ some (map (reloaded json) ms))
            (sym e) back in
        let loaded : messages ≡ map (reloaded json) ms =
          some-injective messages (map (reloaded json) ms) (sym h ∙ same) in
        ap (map stored) loaded ∙ (stored_again json lawful ms ∙ sym e)

    born_there :
        (s : Session J N) (o : Option Bytes) (c born : Bytes)
        → o ≡ some c
        → elim o as (λ _. Option Bytes) [ none ↦ branch_next_created_at env s | some c ↦ some c ]
          ≡ some born
        → born ≡ c
    born_there s none c born e h = absurd (ground (arith, e))
    born_there s (some x) c born e h = some-injective born c (sym h ∙ e)

    -- What a switch leaves of a session whose records are this code's.
    pub record Shape (s s' : Session J N) (branch_id : Bytes) : Type 0 where
      pub i : ℕ
      pub rec : BranchRecord J
      pub live : BranchRecord J
      pub birth : Bytes
      pub ms : List (Message N)
      pub at : get_elem? (branch_list_ensure s) i ≡ some rec
      pub named : has_id rec.id branch_id ≡ true
      pub born : rec.created_at ≡ some birth
      pub shot : rec.messages ≡ some (map stored ms)
      pub snapped : LiveRecord s live
      pub active : branch_active_created_at s' ≡ birth
      pub live_messages : map stored s'.messages ≡ map stored ms
      pub left : branch_list_ensure s' ≡ remove_at (branch_list_ensure s ++ (live ∷ [])) i
      pub same_id : s'.id ≡ s.id

    pub switch_prepared-Shape :
        (s s' : Session J N) (branch_id : Bytes)
        → Recorded stored s
        → switch_prepared json env s branch_id ≡ some (some s')
        → Shape s s' branch_id
    switch_prepared-Shape s s' branch_id recorded h =
        let (i, rec, snap, at, named, shot, to) = switch_prepared-some s s' branch_id h in
        let text : Bytes = json.print (json.array snap) in
        let (list, messages, born, e_list, e_messages, e_born, e) =
          switch_to-some s s' i rec text to in
        let (c, ms, e_c, e_ms) =
          All-at (IsRecorded stored) (branch_list_ensure s) i rec recorded at in
        let (live, snapped, e_live) = snapshot_appends s (branch_list_ensure s) list e_list in
        let e_snap : snap ≡ map stored ms = some-injective snap (map stored ms) (sym shot ∙ e_ms) in
        let e_branches : s'.branches
            ≡ some record { active_created_at = some born; list = some (remove_at list i) } =
          ap (λ (t : Session J N). t.branches) e in
        record {
          i = i;
          rec = rec;
          live = live;
          birth = c;
          ms = ms;
          at = at;
          named = named;
          born = e_c;
          shot = e_ms;
          snapped = snapped;
          active =
              active_born s' born (remove_at list i) e_branches
              ∙ born_there s rec.created_at c born e_c e_born;
          live_messages =
              ap (λ (t : Session J N). map stored t.messages) e
              ∙ (loaded_snapshot ms messages snap e_snap e_messages ∙ e_snap);
          left = listed s' born (remove_at list i) e_branches ∙ ap (λ l. remove_at l i) e_live;
          same_id = ap (λ (t : Session J N). t.id) e;
        }
