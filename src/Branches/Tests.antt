-- ===== src/Branches/Tests.antt =====
-- A session that is forked, switched back and looked at.
use mathlib.Core.List.{Perm}
use echo_ai_c.Base.{
  ℕ, ◌+◌, ◌≡◌, ◌⊎◌, refl, sym, ap, ◌∙◌, arith, Bool, true, false, Option, none, some, List, [], ◌∷◌,
  map, Bytes, codes, bytes_eq, bytes_eq_iff, bytes_eq_nocase, if◌then◌else◌, pos, length, get_elem?,
  set, Bool-cases, inl, inr,
}
use echo_ai_c.Messages.{Message, first_item, message_to_json}
use echo_ai_c.Messages.Reload.{reloaded}
use echo_ai_c.Messages.Tests.{coded, coded-Lawful, message}
use echo_ai_c.Branches.{
  BranchRecord, Session, ForkResult, Env, Store, branch_list_ensure, branch_find_fork_index,
  fork_prepared, switch_prepared, session_manager_fork_branch, session_manager_switch_branch,
  branch_record_find,
}
use echo_ai_c.Branches.Chains.{chains, Recorded}
use echo_ai_c.Branches.Keep.{switch_prepared-chains}
use echo_ai_c.Branches.Fork.{original}
use echo_ai_c.Branches.Failure.{failure_keeps_rows}
use echo_ai_c.Branches.Return.{KeepsRows, switch_branch-fork_branch}
use echo_ai_c.Branches.Done.{switch_branch-returns}
use echo_ai_c.Branches.Info.{session_manager_branch_info, branch_group_chain_count}
use echo_ai_c.Branches.Count.{branch_group_chain_count-fork_prepared}

abbrev Sess : Type 0
Sess = Session Bytes ℕ

-- One row.
abbrev found_row : Option Sess → Bytes → Option Sess
found_row none id = none
found_row (some s) id = if bytes_eq s.id id then some s else none

abbrev reread : Sess → Sess
reread s = record s { messages = map (reloaded coded) s.messages }

abbrev row : Store (Option Sess) Bytes ℕ
row = record { load = found_row; save = λ db s. some (some (reread s)) }

found_id : (db : Option Sess) (id : Bytes) (s : Sess) → found_row db id ≡ some s → s.id ≡ id
found_id none id s h = absurd (ground (arith, h))
found_id (some t) id s h = elim (Bool-cases (bytes_eq t.id id)) [
  | inl same ↦
      let e : t ≡ s = ground (arith, h, same) in
      ap (λ (x : Sess). x.id) (sym e) ∙ (bytes_eq_iff t.id id).0 same
  | inr other ↦ absurd (ground (arith, h, other))
]

saved_is_loaded :
    (db db' : Option Sess) (s : Sess)
    → some (some (reread s)) ≡ some db'
    → found_row db' s.id ≡ some (reread s)
saved_is_loaded db none s h = absurd (ground (arith, h))
saved_is_loaded db (some t) s h =
    let e : reread s ≡ t = ground (arith, h) in
    ap (λ u. found_row (some u) s.id) (sym e) ∙ rw ((bytes_eq_iff s.id s.id).1 refl) refl

row-KeepsRows : KeepsRows coded row
row-KeepsRows = record { load_saved = saved_is_loaded; load_id = found_id }

abbrev env : Env
env = record {
  ok = λ step. true;
  random_id = λ n. some ((48 + n) ∷ []);
  now = λ n. some (codes "t2");
  nap = λ n. true;
}

abbrev talk : List (Message ℕ)
talk =
    message (some (codes "user")) (some (codes "hi")) [] 5
    ∷ record (message (some (codes "assistant")) (some (codes "ho")) [] 0) { id = none }
    ∷ []

abbrev old_record : BranchRecord Bytes
old_record = record {
  id = some (codes "br_9");
  created_at = some (codes "t0");
  messages = some (map (message_to_json coded) (message none none [] 0 ∷ []));
}

abbrev before : Sess
before = record {
  id = codes "s";
  created_at = some (codes "t1");
  messages = talk;
  branches = some record { active_created_at = none; list = some (old_record ∷ []) };
}

before-Recorded : Recorded (message_to_json coded) before
unfolding branch_list_ensure
before-Recorded = ((codes "t0", message none none [] 0 ∷ [], refl, refl), tt)

abbrev result : Option (Sess × ForkResult ℕ) → ForkResult ℕ
result none = record {
  branch_id = [];
  fork_message_id = [];
  fork_group_id = [];
  fork_message = message none none [] 0;
}
result (some p) = p.1

abbrev session : Option (Sess × ForkResult ℕ) → Sess
session none = before
session (some p) = p.0

abbrev forked : Option (Sess × ForkResult ℕ)
forked = fork_prepared coded env before 1 (some (codes "hey"))

fork_runs : forked ≡ some (session forked, result forked)
unfolding fork_prepared
fork_runs = refl

abbrev switched : Option (Option Sess) → Sess
switched (some (some s)) = s
switched _ = before

abbrev switch : Option (Option Sess)
switch = switch_prepared coded env before (codes "br_9")

switch_runs : switch ≡ some (some (switched switch))
unfolding switch_prepared first_item bytes_eq_nocase bytes_eq
switch_runs = refl

switch_prepared-chains_example :
    Perm (chains (message_to_json coded) (switched switch)) (chains (message_to_json coded) before)
switch_prepared-chains_example =
    switch_prepared-chains coded env coded-Lawful before (switched switch) (codes "br_9")
      before-Recorded switch_runs

branch_group_chain_count-fork_prepared_example :
    length (
      branch_group_chain_count coded
        (branch_list_ensure (session forked))
        (result forked).fork_group_id
        64)
    ≡ length (
        branch_group_chain_count coded (branch_list_ensure before) (result forked).fork_group_id 64)
      + 1
unfolding branch_group_chain_count first_item bytes_eq_nocase bytes_eq branch_list_ensure
    message_to_json
branch_group_chain_count-fork_prepared_example =
    (branch_group_chain_count-fork_prepared coded coded-Lawful env before (session forked)
      (result forked) 1 (some (codes "hey")) fork_runs (omega arith)).0

abbrev fork_call : Option Sess × Option (ForkResult ℕ)
fork_call =
    session_manager_fork_branch coded env row (some before) (codes "s") none (pos 1)
      (some (codes "hey"))

abbrev switch_call : Option Sess × Bool
switch_call =
    session_manager_switch_branch coded env row fork_call.0 (codes "s") (result forked).branch_id

fork_call_runs : fork_call ≡ (some (reread (session forked)), some (result forked))
unfolding session_manager_fork_branch first_item bytes_eq_nocase bytes_eq
fork_call_runs = refl

fork_call_ok : fork_call ≡ (fork_call.0, some (result forked))
unfolding session_manager_fork_branch first_item bytes_eq_nocase bytes_eq
fork_call_ok = refl

switch_call_runs : switch_call ≡ (switch_call.0, true)
unfolding session_manager_switch_branch session_manager_fork_branch first_item bytes_eq_nocase
    bytes_eq
switch_call_runs = refl

no_such_record : branch_record_find (branch_list_ensure before) (result forked).branch_id 0 ≡ none
unfolding branch_list_ensure branch_record_find fork_prepared bytes_eq
no_such_record = refl

switch_branch-fork_branch_example :
    (fi : ℕ) × (m : Message ℕ) × (t : Sess) × (branch_find_fork_index before none (pos 1) ≡ some fi)
    × (get_elem? talk fi ≡ some m)
    × (found_row switch_call.0 (codes "s") ≡ some t)
    × (map (message_to_json coded) t.messages
        ≡ map (message_to_json coded) (
            set talk fi (original (result forked).fork_message_id (result forked).fork_group_id m)))
unfolding bytes_eq
switch_branch-fork_branch_example =
    switch_branch-fork_branch coded row coded-Lawful row-KeepsRows env env (some before) fork_call.0
      switch_call.0 before (codes "s") none (pos 1) (some (codes "hey")) (result forked) refl
      before-Recorded no_such_record fork_call_ok switch_call_runs

switch_branch-returns_example :
    (db : Option Sess) × (session_manager_switch_branch coded env row
        (some before)
        (codes "s")
        (codes "br_9")
      ≡ (db, true))
unfolding bytes_eq branch_list_ensure branch_record_find
switch_branch-returns_example =
    switch_branch-returns coded env (λ step. refl) (codes "0") refl coded-Lawful row row-KeepsRows
      (λ db s. (some (reread s), refl)) (some before) before (codes "s") (codes "br_9")
      (0, old_record) (λ e. absurd (ground (arith, e))) refl before-Recorded refl

-- After the fork the client finds two chains at the fork point, the live one the second.
tells_of_the_fork :
    session_manager_branch_info coded (session forked)
    ≡ record { message_id = codes "m_0"; count = 2; active = 2; branch_ids = codes "br_2" ∷ [] }
      ∷ []
unfolding session_manager_branch_info first_item bytes_eq_nocase bytes_eq fork_prepared
    message_to_json
tells_of_the_fork = refl

failure_keeps_rows_example :
    ((session_manager_switch_branch coded env row (some before) (codes "s") (codes "br_7")).1
      ≡ true)
    ⊎ ((session_manager_switch_branch coded env row (some before) (codes "s") (codes "br_7")).0
        ≡ some before)
failure_keeps_rows_example =
    (failure_keeps_rows coded env row (some before) (codes "s") (codes "br_7") none (pos 9) none
      (codes "fg")).0

refuses_an_unknown_record :
    session_manager_switch_branch coded env row (some before) (codes "s") (codes "br_7")
    ≡ (some before, false)
unfolding session_manager_switch_branch bytes_eq
refuses_an_unknown_record = refl
