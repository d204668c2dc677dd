-- ===== src/Branches/Keep.antt =====
-- A switch loses no chain and adds none.
use mathlib.Core.List.Perm
use mathlib.Core.List.{Perm, perm_append_singleton, map-append}
use echo_ai_c.Base.{◌≡◌, sym, ap, ◌∙◌, subst, some, List, [], ◌∷◌, ◌++◌, map, Bytes, All}
use echo_ai_c.Messages.{Json, Lawful, Message, or_empty, message_to_json}
use echo_ai_c.Branches.{
  BranchRecord, Session, Env, remove_at, branch_list_ensure, branch_active_created_at,
  switch_prepared,
}
use echo_ai_c.Branches.Chains.{
  or_nil, chain_of, chains, Recorded, IsRecorded, get_elem?-append, remove_at-Perm, All-snoc,
  All-remove_at,
}
use echo_ai_c.Branches.Switch.{switch_prepared-Shape}

module _ {J N : Type 0} (json : Json J N) (env : Env) (lawful : Lawful json) where
  abbrev stored : Message N → J
  stored = message_to_json json

  -- A switch that is made, in a session all of whose records were made by this code, rearranges its chains, the
  -- live one and those of the records: none is lost, none is added, none is altered in what is stored of it, and
  -- each keeps its time of birth.
  pub switch_prepared-chains :
      (s s' : Session J N) (branch_id : Bytes)
      → Recorded stored s
      → switch_prepared json env s branch_id ≡ some (some s')
      → Perm (chains stored s') (chains stored s)
  switch_prepared-chains s s' branch_id recorded h =
      let w = switch_prepared-Shape json env lawful s s' branch_id recorded h in
      let l : List (BranchRecord J) = branch_list_ensure s in
      let e : chains stored s' ≡ map chain_of (w.rec ∷ remove_at (l ++ (w.live ∷ [])) w.i) =
        (λ j. (w.active j, w.live_messages j) ∷ map chain_of (w.left j))
        ∙ sym (λ j.
          (or_empty (w.born j), or_nil (w.shot j))
          ∷ map chain_of (remove_at (l ++ (w.live ∷ [])) w.i)) in
      let f : map chain_of (l ++ (w.live ∷ []))
          ≡ map chain_of l ++ ((branch_active_created_at s, map stored s.messages) ∷ []) =
        map-append chain_of l (w.live ∷ [])
        ∙ ap (λ r. map chain_of l ++ (chain_of r ∷ [])) w.snapped.1 in
      subst (λ cs. Perm cs (chains stored s)) (sym e)
        (Perm.trans
          (remove_at-Perm (l ++ (w.live ∷ [])) w.i w.rec
            (get_elem?-append l (w.live ∷ []) w.i w.rec w.at))
          (subst (λ cs. Perm cs (chains stored s)) (sym f)
            (perm_append_singleton (branch_active_created_at s, map stored s.messages)
              (map chain_of l))))

  -- A switch leaves each record with a time of birth and with messages that were stored.
  pub switch_prepared-Recorded :
      (s s' : Session J N) (branch_id : Bytes)
      → Recorded stored s
      → switch_prepared json env s branch_id ≡ some (some s')
      → Recorded stored s'
  switch_prepared-Recorded s s' branch_id recorded h =
      let w = switch_prepared-Shape json env lawful s s' branch_id recorded h in
      let l : List (BranchRecord J) = branch_list_ensure s in
      subst (All (IsRecorded stored)) (sym w.left) (
        All-remove_at (IsRecorded stored) (l ++ (w.live ∷ [])) w.i (
          All-snoc (IsRecorded stored) l w.live recorded (
            branch_active_created_at s,
            s.messages,
            ap (λ (r : BranchRecord J). r.created_at) w.snapped.1,
            ap (λ (r : BranchRecord J). r.messages) w.snapped.1,
          )))
