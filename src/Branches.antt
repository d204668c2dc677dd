-- ===== src/Branches.antt =====
-- src/session/session_branch.c: the fork, switch and tag operations on the chains of a session. The row
-- of a session in the database is an interface, `Store`; clock and random ids are an argument, `Env`,
-- which also says which allocations fail. A session's metadata is the two keys that the code reads.
mod Records
mod Chains
pub mod Switch
pub mod Keep
pub mod Failure
pub mod Clock
pub mod Fork
pub mod Return
pub mod Done
pub mod Info
pub mod Count
mod Tests
unfoldable pub use Records.*
use echo_ai_c.Base.{
  ℕ, suc, Bool, true, false, ◌&&◌, Option, none, some, List, [], ◌∷◌, ◌++◌, map, Bytes, codes,
  bytes_eq, ℤ, if◌then◌else◌, ◌>>=◌, length, get_elem?, set, take,
}
use echo_ai_c.Messages.{
  Json, Message, or_empty, message_to_json, session_serialize_messages_new,
  session_deserialize_messages,
}

module _ {J N : Type 0} (json : Json J N) (env : Env) where
  unfoldable pub branch_snapshot_messages : List (Message N) → List J
  branch_snapshot_messages msgs = map (message_to_json json) msgs

  unfoldable pub branch_record_snapshot_live :
      Session J N → List (BranchRecord J) → Option (List (BranchRecord J))
  unfolding branch_active_created_at branch_snapshot_messages branch_record_create
  branch_record_snapshot_live s list = do
    guard (env.ok created && env.ok snapshot)
    rec ←
        branch_record_create env 0 (branch_active_created_at s)
          (branch_snapshot_messages s.messages)
    guard (env.ok record_append)
    some (list ++ rec ∷ [])

  unfoldable pub fork_group : Option Bytes → Option Bytes
  unfolding branch_mint_id
  fork_group (some group) = if env.ok group_dup then some group else none
  fork_group none = branch_mint_id env (codes "fg_") 1

  unfoldable pub new_text : Option Bytes → Option Bytes → Option (Option Bytes)
  new_text none content = some content
  new_text (some text) content = if env.ok copy_content then some (some text) else none

  -- `field ? field : v`, where the copy of `v` may fail.
  unfoldable pub fill : Step → Option Bytes → Bytes → Option Bytes
  fill step (some s) v = some s
  fill step none v = if env.ok step then some v else none

  -- The message at the fork point as the old chain keeps it, that of the new chain, its id and its group.
  unfoldable pub fork_messages :
      Message N → Option Bytes → Option (Message N × Message N × Bytes × Bytes)
  unfolding fork_group new_text fill branch_mint_id
  fork_messages m new_content = do
    fork_message_id ← branch_mint_id env (codes "m_") 0
    fork_group_id ← fork_group m.fork_group_id
    guard (env.ok copy)
    content ← new_text new_content m.content
    guard (env.ok copy_id && env.ok copy_group)
    old_group_id ← fill old_group m.fork_group_id fork_group_id
    old_message_id ← fill old_id m.id fork_message_id
    let old : Message N = record m { fork_group_id = some old_group_id; id = some old_message_id }
    let fork_copy : Message N = record m {
      id = some fork_message_id;
      fork_group_id = some fork_group_id;
      content = content;
    }
    some (old, fork_copy, fork_message_id, fork_group_id)

  -- The fork up to the save: the session to be saved, and what the caller is given.
  unfoldable pub fork_prepared :
      Session J N → ℕ → Option Bytes → Option (Session J N × ForkResult N)
  unfolding fork_messages branch_list_ensure branch_snapshot_messages branch_active_created_at
      branch_record_create branch_next_created_at
  fork_prepared s fi new_content = do
    guard (env.ok list_ensure)
    m ← get_elem? s.messages fi
    made ← fork_messages m new_content
    let messages : List (Message N) = set s.messages fi made.0
    guard (env.ok snapshot && env.ok created)
    rec ←
        branch_record_create env 2 (branch_active_created_at s) (branch_snapshot_messages messages)
    guard (env.ok record_append)
    now ← branch_next_created_at env s
    guard (env.ok set_active)
    some (
      record s {
        messages = set (take (suc fi) messages) fi made.1;
        branches =
            some record {
              active_created_at = some now;
              list = some (branch_list_ensure s ++ rec ∷ []);
            };
      },
      record {
        branch_id = or_empty rec.id;
        fork_message_id = made.2;
        fork_group_id = made.3;
        fork_message = made.1;
      },
    )

  -- The switch up to the save: `some none` where the chain is live already.
  unfoldable pub switch_to : Session J N → ℕ → BranchRecord J → Bytes → Option (Session J N)
  unfolding branch_list_ensure branch_record_snapshot_live branch_next_created_at remove_at
      session_deserialize_messages
  switch_to s i rec snap_str = do
    list ← branch_record_snapshot_live s (branch_list_ensure s)
    guard (env.ok load_messages)
    messages ← session_deserialize_messages json snap_str
    born ← elim rec.created_at [ none ↦ branch_next_created_at env s | some c ↦ some c ]
    guard (env.ok set_active)
    some record s {
      messages = messages;
      branches = some record { active_created_at = some born; list = some (remove_at list i) };
    }

  abbrev pub to_save : Option (Session J N) → Option (Option (Session J N))
  to_save none = none
  to_save (some s) = some (some s)

  unfoldable pub switch_prepared : Session J N → Bytes → Option (Option (Session J N))
  unfolding branch_list_ensure branch_record_find switch_to session_serialize_messages_new
  switch_prepared s branch_id = do
    guard (env.ok list_ensure)
    found ← branch_record_find (branch_list_ensure s) branch_id 0
    snap ← found.1.messages
    guard (env.ok print_snapshot && env.ok snapshot && env.ok print_live)
    let snap_str : Bytes = json.print (json.array snap)
    if bytes_eq (session_serialize_messages_new json s.messages) snap_str
        then some none
        else to_save (switch_to s found.0 found.1 snap_str)

  unfoldable pub tag_prepared : Session J N → ℤ → Bytes → Option (Session J N × Bytes)
  unfolding branch_mint_id fill
  tag_prepared s index fork_group_id = do
    i ← index_in index (length s.messages)
    m ← get_elem? s.messages i
    id ← branch_mint_id env (codes "m_") 0
    group ← fill tag_group m.fork_group_id fork_group_id
    guard (env.ok tag_result)
    let tagged : Message N = record m { fork_group_id = some group; id = some id }
    some (record s { messages = set s.messages i tagged }, id)

  module _ {DB : Type 0} (store : Store DB J N) where
    unfoldable pub branch_do_fork : DB → Session J N → ℕ → Option Bytes → DB × Option (ForkResult N)
    unfolding fork_prepared session_manager_save_session_nolock
    branch_do_fork db s fi new_content = elim (fork_prepared s fi new_content) [
      | none ↦ (db, none)
      | some (s', result) ↦ elim (session_manager_save_session_nolock store db s') [
        | none ↦ (db, none)
        | some db' ↦
            (db', if env.ok result_dups && env.ok result_message then some result else none)
      ]
    ]

    unfoldable pub session_manager_fork_branch :
        DB → Bytes → Option Bytes → ℤ → Option Bytes → DB × Option (ForkResult N)
    unfolding branch_do_fork branch_find_fork_index session_manager_load_session_nolock
    session_manager_fork_branch db session_id message_id index new_content =
        elim (session_manager_load_session_nolock store db session_id) [
          | none ↦ (db, none)
          | some s ↦ elim (branch_find_fork_index s message_id index) [
            | none ↦ (db, none)
            | some fi ↦ branch_do_fork db s fi new_content
          ]
        ]

    -- Whether it returns 0.
    unfoldable pub session_manager_switch_branch : DB → Bytes → Bytes → DB × Bool
    unfolding switch_prepared session_manager_load_session_nolock
        session_manager_save_session_nolock
    session_manager_switch_branch db session_id branch_id =
        elim (session_manager_load_session_nolock store db session_id) [
          | none ↦ (db, false)
          | some s ↦ elim (switch_prepared s branch_id) [
            | none ↦ (db, false)
            | some none ↦ (db, true)
            | some (some s') ↦ elim (session_manager_save_session_nolock store db s') [
              | none ↦ (db, false)
              | some db' ↦ (db', true)
            ]
          ]
        ]

    unfoldable pub session_manager_tag_message_new : DB → Bytes → ℤ → Bytes → DB × Option Bytes
    unfolding tag_prepared session_manager_load_session_nolock session_manager_save_session_nolock
    session_manager_tag_message_new db session_id index fork_group_id =
        elim (session_manager_load_session_nolock store db session_id) [
          | none ↦ (db, none)
          | some s ↦ elim (tag_prepared s index fork_group_id) [
            | none ↦ (db, none)
            | some (s', id) ↦ elim (session_manager_save_session_nolock store db s') [
              | none ↦ (db, none)
              | some db' ↦ (db', some id)
            ]
          ]
        ]
