-- ===== src/Branches/Records.antt =====
-- src/session/session_branch.c: the data of the branches of a session, and the helpers of the operations.
use echo_ai_c.Base.{
  ℕ, zero, suc, ◌+◌, Bool, true, false, Option, none, some, List, [], ◌∷◌, ◌++◌, Bytes, codes,
  bytes_eq, ℤ, pos, negsuc, ltb, ◌==◌, if◌then◌else◌, ◌>>=◌, length,
}
use echo_ai_c.Messages.{Message, or_empty}

-- The calls of this file that may fail for want of memory.
pub data Step : Type 0 where
  list_ensure group_dup copy copy_id copy_group copy_content old_group old_id : Step
  snapshot created record_object record_append print_snapshot print_live load_messages : Step
  previous set_active result_dups result_message tag_group tag_result : Step

-- `random_id` is the text "%ld-%d" of the n-th mint, `now` the n-th reading of the clock, `nap` whether
-- the n-th sleep is not interrupted.
pub record Env : Type 0 where
  pub ok : Step → Bool
  pub random_id : ℕ → Option Bytes
  pub now : ℕ → Option Bytes
  pub nap : ℕ → Bool

pub record BranchRecord (J : Type 0) : Type 0 where
  pub id : Option Bytes
  pub created_at : Option Bytes
  pub messages : Option (List J)

-- metadata.branches
pub record Branches (J : Type 0) : Type 0 where
  pub active_created_at : Option Bytes
  pub list : Option (List (BranchRecord J))

pub record Session (J N : Type 0) : Type 0 where
  pub id : Bytes
  pub created_at : Option Bytes
  pub messages : List (Message N)
  pub branches : Option (Branches J)

pub record ForkResult (N : Type 0) : Type 0 where
  pub branch_id : Bytes
  pub fork_message_id : Bytes
  pub fork_group_id : Bytes
  pub fork_message : Message N

-- load_session_locked and save_session_core_locked.
pub record Store (DB J N : Type 0) : Type 0 where
  pub load : DB → Bytes → Option (Session J N)
  pub save : DB → Session J N → Option DB

abbrev pub guard : Bool → Option (Unit {0})
guard true = some tt
guard false = none

infixl 5 ◌>>◌
abbrev pub ◌>>◌ {ℓ} : {B : Type ℓ} → Option (Unit {0}) → Option B → Option B
m >> k = m >>= λ _. k

-- `strcmp(a, b) <= 0`
unfoldable pub bytes_le : Bytes → Bytes → Bool
bytes_le [] b = true
bytes_le (x ∷ a) [] = false
bytes_le (x ∷ a) (y ∷ b) = if x == y then bytes_le a b else ltb x y

unfoldable pub branch_mint_id : Env → Bytes → ℕ → Option Bytes
branch_mint_id env prefix n = do r ← env.random_id n; some (prefix ++ r)

-- The loop waits while the clock is not past `prev`; its first argument counts the rounds left.
unfoldable pub wait_past : Env → ℕ → ℕ → Bytes → Bytes → Option Bytes
unfolding bytes_le
wait_past env zero i now prev = some now
wait_past env (suc r) i now prev =
    if bytes_le now prev
    then (if env.nap i
        then elim (env.now (i + 1)) [
          | none ↦ none
          | some later ↦ wait_past env r (i + 1) later prev
        ]
        else some now)
    else some now

unfoldable pub has_id : Option Bytes → Bytes → Bool
has_id none id = false
has_id (some rid) id = bytes_eq rid id

abbrev pub index_in : ℤ → ℕ → Option ℕ
index_in (pos n) count = if ltb n count then some n else none
index_in (negsuc n) count = none

module _ {J : Type 0} where
  unfoldable pub records_of : Option (Branches J) → List (BranchRecord J)
  records_of none = []
  records_of (some b) = elim b.list [ none ↦ [] | some l ↦ l ]

  abbrev pub active_of : Option (Branches J) → Option Bytes
  active_of none = none
  active_of (some b) = b.active_created_at

  unfoldable pub branch_record_create : Env → ℕ → Bytes → List J → Option (BranchRecord J)
  unfolding branch_mint_id
  branch_record_create env n created_at messages = do
    id ← branch_mint_id env (codes "br_") n
    guard (env.ok record_object)
    some record { id = some id; created_at = some created_at; messages = some messages }

  -- The record of an id with its place in the list.
  unfoldable pub branch_record_find :
      List (BranchRecord J) → Bytes → ℕ → Option (ℕ × BranchRecord J)
  unfolding has_id
  branch_record_find [] id i = none
  branch_record_find (rec ∷ l) id i =
      let rest = branch_record_find l id (i + 1) in if has_id rec.id id then some (i, rec) else rest

  unfoldable pub remove_at : List (BranchRecord J) → ℕ → List (BranchRecord J)
  remove_at [] i = []
  remove_at (rec ∷ l) zero = l
  remove_at (rec ∷ l) (suc i) = rec ∷ remove_at l i

module _ {N : Type 0} where
  unfoldable pub position : List (Message N) → Bytes → ℕ → Option ℕ
  unfolding has_id
  position [] id i = none
  position (m ∷ ms) id i =
      let rest = position ms id (i + 1) in if has_id m.id id then some i else rest

module _ {J N : Type 0} where
  -- The list that `branch_list_ensure` answers: a fresh one where there is none.
  unfoldable pub branch_list_ensure : Session J N → List (BranchRecord J)
  unfolding records_of
  branch_list_ensure s = records_of s.branches

  unfoldable pub branch_active_created_at : Session J N → Bytes
  branch_active_created_at s = elim (active_of s.branches) [
    | none ↦ or_empty s.created_at
    | some active ↦ active
  ]

  unfoldable pub branch_next_created_at : Env → Session J N → Option Bytes
  unfolding wait_past branch_active_created_at
  branch_next_created_at env s = do
    now ← env.now 0
    guard (env.ok previous)
    wait_past env 16 0 now (branch_active_created_at s)

  unfoldable pub branch_find_fork_index : Session J N → Option Bytes → ℤ → Option ℕ
  unfolding position
  branch_find_fork_index s none index = index_in index (length s.messages)
  branch_find_fork_index s (some id) index = elim (position s.messages id 0) [
    | some i ↦ some i
    | none ↦ index_in index (length s.messages)
  ]

  unfoldable pub session_manager_load_session_nolock :
      {DB : Type 0} → Store DB J N → DB → Bytes → Option (Session J N)
  session_manager_load_session_nolock store db [] = none
  session_manager_load_session_nolock store db (c ∷ id) = store.load db (c ∷ id)

  unfoldable pub session_manager_save_session_nolock :
      {DB : Type 0} → Store DB J N → DB → Session J N → Option DB
  session_manager_save_session_nolock store db s = elim s.id [
    | [] ↦ none
    | c ∷ id ↦ store.save db s
  ]
