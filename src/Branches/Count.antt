-- ===== src/Branches/Count.antt =====
-- A fork adds one to the chains of its group.
use echo_ai_c.Base.{
  ℕ, zero, suc, ◌+◌, ◌<◌, ◌≡◌, refl, ap, ◌∙◌, arith, Bool, true, Option, some, List, [], ◌∷◌, ◌++◌,
  map, Bytes, codes, bytes_eq_iff, Bool-cases, inl, inr, any, get_elem?, set, length,
}
use echo_ai_c.Messages.{Json, Lawful, Message, message_to_json, message_of_json, string_at}
use echo_ai_c.Messages.Reload.{message_of_json-message_to_json}
use echo_ai_c.Branches.{BranchRecord, Session, Env, ForkResult, branch_list_ensure, fork_prepared}
use echo_ai_c.Branches.Fork.{original, filled, fork_prepared-Shape}
use echo_ai_c.Branches.Switch.{listed}
use echo_ai_c.Branches.Info.{is_text, in_group, branch_group_chain_count}

module _ {J N : Type 0} (json : Json J N) where
  count_more :
      (l : List (BranchRecord J)) (rec : BranchRecord J) (group : Bytes) (max : ℕ)
      → in_group json rec group ≡ true
      → length (branch_group_chain_count json l group max) < max
      → length (branch_group_chain_count json (l ++ (rec ∷ [])) group max)
        ≡ length (branch_group_chain_count json l group max) + 1
  unfolding branch_group_chain_count
  count_more [] rec group zero hit below = absurd (omega arith)
  count_more [] rec group (suc max) hit below = rw hit refl
  count_more (x ∷ l) rec group zero hit below = absurd (omega arith)
  count_more (x ∷ l) rec group (suc max) hit below = elim (Bool-cases (in_group json x group)) [
    | inl t ↦
        let less : suc (length (branch_group_chain_count json l group max)) < suc max =
          rw t at below in
        rw t (omega (arith, count_more l rec group max hit (omega (arith, less))))
    | inr f ↦
        let less : length (branch_group_chain_count json l group (suc max)) < suc max =
          rw f at below in
        rw f (count_more l rec group (suc max) hit less)
  ]

  module _ (lawful : Lawful json) where
    group_stored :
        (m : Message N)
        → string_at json (message_to_json json m) (codes "fork_group_id") ≡ m.fork_group_id
    unfolding message_of_json
    group_stored m =
        ap (λ (x : Message N). x.fork_group_id) (message_of_json-message_to_json json lawful m)

    any-set :
        (ms : List (Message N)) (i : ℕ) (m x : Message N) (p : J → Bool)
        → get_elem? ms i ≡ some m
        → p (message_to_json json x) ≡ true
        → any p (map (message_to_json json) (set ms i x)) ≡ true
    any-set [] i m x p at hit = absurd (ground (arith, at))
    any-set (y ∷ ms) zero m x p at hit = rw hit refl
    any-set (y ∷ ms) (suc i) m x p at hit = ground (arith, any-set ms i m x p at hit)

    -- After a fork the group that the old chain and the new one share counts one chain more than it did, as
    -- long as fewer than 64 records were of it. That group is the one that the message at the fork point has,
    -- where it has one: a second fork at the same message adds to the count of the first one's group.
    pub branch_group_chain_count-fork_prepared :
        (env : Env) (s s' : Session J N) (r : ForkResult N) (fi : ℕ) (text : Option Bytes)
        → fork_prepared json env s fi text ≡ some (s', r)
        → length (branch_group_chain_count json (branch_list_ensure s) r.fork_group_id 64) < 64
        → (length (branch_group_chain_count json (branch_list_ensure s') r.fork_group_id 64)
            ≡ length (branch_group_chain_count json (branch_list_ensure s) r.fork_group_id 64) + 1)
          × ((m : Message N) × (get_elem? s.messages fi ≡ some m)
              × (r.fork_group_id ≡ filled m.fork_group_id r.fork_group_id))
    unfolding in_group is_text
    branch_group_chain_count-fork_prepared env s s' r fi text h below =
        let w = fork_prepared-Shape json env s s' r fi text h in
        let g : Bytes = r.fork_group_id in
        let old : Message N = original r.fork_message_id g w.m in
        let p : J → Bool = λ m. is_text (string_at json m (codes "fork_group_id")) g in
        let tagged : p (message_to_json json old) ≡ true =
          ap (λ o. is_text o g) (group_stored old) ∙ (bytes_eq_iff g g).1 refl in
        let recorded_chain : in_group json w.rec g ≡ true =
          ap (λ x. in_group json x g) w.recorded_chain
          ∙ any-set s.messages fi w.m old p w.at tagged in
        (
          ap (λ l. length (branch_group_chain_count json l g 64))
                (listed json env s' w.now (branch_list_ensure s ++ (w.rec ∷ [])) w.left)
              ∙ count_more (branch_list_ensure s) w.rec g 64 recorded_chain below,
          (w.m, w.at, w.joined),
        )
