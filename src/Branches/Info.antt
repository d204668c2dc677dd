-- ===== src/Branches/Info.antt =====
-- src/session/session_branch_info.c: what the client is told of the branches of a session.
use echo_ai_c.Base.{
  ℕ, zero, suc, ◌+◌, ◌≤◌, ◌<◌, arith, Bool, false, Option, none, some, List, [], ◌∷◌, map, Bytes,
  codes, bytes_eq, Bool-cases, inl, inr, All, any, if◌then◌else◌, length,
}
use echo_ai_c.Messages.{Json, Message, or_empty, string_at}
use echo_ai_c.Branches.{
  BranchRecord, Session, bytes_le, branch_list_ensure, branch_active_created_at,
}

pub record BranchInfo : Type 0 where
  pub message_id : Bytes
  pub count : ℕ
  pub active : ℕ
  pub branch_ids : List Bytes

unfoldable pub is_text : Option Bytes → Bytes → Bool
is_text none group = false
is_text (some g) group = bytes_eq g group

-- The times that are before that of the live chain.
unfoldable pub earlier : List (Option Bytes) → Bytes → ℕ
unfolding bytes_le
earlier [] live = 0
earlier (none ∷ cs) live = earlier cs live
earlier (some c ∷ cs) live = (if bytes_le live c then 0 else 1) + earlier cs live

unfoldable pub those_set : List (Option Bytes) → List Bytes
those_set [] = []
those_set (none ∷ ids) = those_set ids
those_set (some id ∷ ids) = id ∷ those_set ids

-- An entry's place is one of its chains, at most 65, and it names fewer records than it counts chains.
abbrev pub IsPlaced : BranchInfo → Type 0
IsPlaced e =
    (1 ≤ e.active) × (e.active ≤ e.count) × (e.count ≤ 65) × (length e.branch_ids < e.count)

module _ {J N : Type 0} (json : Json J N) where
  unfoldable pub in_group : BranchRecord J → Bytes → Bool
  unfolding is_text string_at
  in_group rec group = elim rec.messages [
    | none ↦ false
    | some ms ↦ any (λ m. is_text (string_at json m (codes "fork_group_id")) group) ms
  ]

  -- The records of the group, of which at most `max` are taken; the live chain is one more.
  unfoldable pub branch_group_chain_count :
      List (BranchRecord J) → Bytes → ℕ → List (BranchRecord J)
  unfolding in_group
  branch_group_chain_count [] group max = []
  branch_group_chain_count (rec ∷ l) group zero = []
  branch_group_chain_count (rec ∷ l) group (suc max) =
      let hit = in_group rec group in
      let rest = branch_group_chain_count l group (if hit then max else suc max) in
      if hit then rec ∷ rest else rest

  unfoldable pub branch_info_entry : List (BranchRecord J) → Bytes → Message N → Bytes → BranchInfo
  unfolding branch_group_chain_count earlier those_set
  branch_info_entry list live msg group =
      let found = branch_group_chain_count list group 64 in
      record {
        message_id = or_empty msg.id;
        count = 1 + length found;
        active = 1 + earlier (map (λ (r : BranchRecord J). r.created_at) found) live;
        branch_ids = those_set (map (λ (r : BranchRecord J). r.id) found);
      }

  unfoldable pub branch_info_of : List (BranchRecord J) → Bytes → List (Message N) → List BranchInfo
  unfolding branch_info_entry
  branch_info_of list live [] = []
  branch_info_of list live (msg ∷ msgs) =
      let rest = branch_info_of list live msgs in
      elim msg.fork_group_id [
        | none ↦ rest
        | some group ↦ branch_info_entry list live msg group ∷ rest
      ]

  -- The entries of the array that the call prints.
  unfoldable pub session_manager_branch_info : Session J N → List BranchInfo
  unfolding branch_info_of branch_list_ensure branch_active_created_at
  session_manager_branch_info s =
      branch_info_of (branch_list_ensure s) (branch_active_created_at s) s.messages

  found_le :
      (l : List (BranchRecord J)) (group : Bytes) (max : ℕ)
      → length (branch_group_chain_count l group max) ≤ max
  unfolding branch_group_chain_count
  found_le [] group max = omega arith
  found_le (rec ∷ l) group zero = omega arith
  found_le (rec ∷ l) group (suc max) = elim (Bool-cases (in_group rec group)) [
    | inl t ↦ rw t (omega (arith, found_le l group max))
    | inr f ↦ rw f (found_le l group (suc max))
  ]

  earlier_le :
      (found : List (BranchRecord J)) (live : Bytes)
      → earlier (map (λ (r : BranchRecord J). r.created_at) found) live ≤ length found
  unfolding earlier
  earlier_le [] live = omega arith
  earlier_le (rec ∷ l) live = by_time rec.created_at (earlier_le l live)
    where
      by_time :
          (o : Option Bytes)
          → earlier (map (λ (r : BranchRecord J). r.created_at) l) live ≤ length l
          → earlier (o ∷ map (λ (r : BranchRecord J). r.created_at) l) live ≤ suc (length l)
      by_time none h = omega arith
      by_time (some c) h = ground (arith, h)

  ids_le :
      (found : List (BranchRecord J))
      → length (those_set (map (λ (r : BranchRecord J). r.id) found)) ≤ length found
  unfolding those_set
  ids_le [] = omega arith
  ids_le (rec ∷ l) = by_id rec.id (ids_le l)
    where
      by_id :
          (o : Option Bytes)
          → length (those_set (map (λ (r : BranchRecord J). r.id) l)) ≤ length l
          → length (those_set (o ∷ map (λ (r : BranchRecord J). r.id) l)) ≤ suc (length l)
      by_id none h = omega arith
      by_id (some c) h = omega arith

  entries-IsPlaced :
      (list : List (BranchRecord J)) (live : Bytes) (msgs : List (Message N))
      → All IsPlaced (branch_info_of list live msgs)
  unfolding branch_info_of branch_info_entry
  entries-IsPlaced list live [] = tt
  entries-IsPlaced list live (msg ∷ msgs) =
      by_group msg.fork_group_id (entries-IsPlaced list live msgs)
    where
      by_group :
          (o : Option Bytes)
          → All IsPlaced (branch_info_of list live msgs)
          → All IsPlaced (elim o as (λ _. List BranchInfo) [
            | none ↦ branch_info_of list live msgs
            | some group ↦ branch_info_entry list live msg group ∷ branch_info_of list live msgs
          ])
      by_group none rest = rest
      by_group (some group) rest =
          let found = branch_group_chain_count list group 64 in
          let a = found_le list group 64 in
          let b = earlier_le found live in
          let c = ids_le found in
          ((omega arith, omega (arith, b), omega (arith, a), omega (arith, c)), rest)

  -- Each entry that the client gets, of a message with a group in the live chain, has its place among its
  -- chains, at most 65, and names fewer records than it counts chains.
  pub branch_info-bounds : (s : Session J N) → All IsPlaced (session_manager_branch_info s)
  unfolding session_manager_branch_info
  branch_info-bounds s =
      entries-IsPlaced (branch_list_ensure s) (branch_active_created_at s) s.messages
