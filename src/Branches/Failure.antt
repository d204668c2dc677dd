-- ===== src/Branches/Failure.antt =====
-- What a failing operation leaves in the database.
use echo_ai_c.Base.{
  ◌≡◌, ◌⊎◌, arith, true, false, ◌&&◌, Option, none, some, Bytes, ℤ, Option-cases, Bool-cases, inl,
  inr,
}
use echo_ai_c.Messages.{Json}
use echo_ai_c.Branches.{
  ForkResult, Env, Step, Store, branch_find_fork_index, session_manager_load_session_nolock,
  session_manager_save_session_nolock, fork_prepared, branch_do_fork, session_manager_fork_branch,
  switch_prepared, session_manager_switch_branch, tag_prepared, session_manager_tag_message_new,
}

module _ {J N DB : Type 0} (json : Json J N) (env : Env) (store : Store DB J N) (db : DB)
    (session_id : Bytes) where
  failed_switch :
      (branch_id : Bytes)
      → (session_manager_switch_branch json env store db session_id branch_id).1 ≡ false
      → (session_manager_switch_branch json env store db session_id branch_id).0 ≡ db
  unfolding session_manager_switch_branch
  failed_switch branch_id h =
      elim (Option-cases (session_manager_load_session_nolock store db session_id)) [
        | inl e ↦ ground (arith, e)
        | inr (s, e) ↦ elim (Option-cases (switch_prepared json env s branch_id)) [
          | inl f ↦ ground (arith, e, f)
          | inr (none, f) ↦ ground (arith, e, f)
          | inr (some s', f) ↦
              elim (Option-cases (session_manager_save_session_nolock store db s')) [
                | inl k ↦ ground (arith, e, f, k)
                | inr (d, k) ↦ absurd (ground (arith, h, e, f, k))
              ]
        ]
      ]

  failed_tag :
      (index : ℤ) (group : Bytes)
      → (session_manager_tag_message_new json env store db session_id index group).1 ≡ none
      → (session_manager_tag_message_new json env store db session_id index group).0 ≡ db
  unfolding session_manager_tag_message_new
  failed_tag index group h =
      elim (Option-cases (session_manager_load_session_nolock store db session_id)) [
        | inl e ↦ ground (arith, e)
        | inr (s, e) ↦ elim (Option-cases (tag_prepared json env s index group)) [
          | inl f ↦ ground (arith, e, f)
          | inr ((s', id), f) ↦
              elim (Option-cases (session_manager_save_session_nolock store db s')) [
                | inl k ↦ ground (arith, e, f, k)
                | inr (d, k) ↦ absurd (ground (arith, h, e, f, k))
              ]
        ]
      ]

  failed_fork :
      (message_id : Option Bytes) (index : ℤ) (text : Option Bytes)
      → (session_manager_fork_branch json env store db session_id message_id index text).1 ≡ none
      → ((session_manager_fork_branch json env store db session_id message_id index text).0 ≡ db)
        ⊎ ((env.ok Step.result_dups && env.ok Step.result_message) ≡ false)
  unfolding session_manager_fork_branch branch_do_fork
  failed_fork message_id index text h =
      elim (Option-cases (session_manager_load_session_nolock store db session_id)) [
        | inl e ↦ inl (ground (arith, e))
        | inr (s, e) ↦ elim (Option-cases (branch_find_fork_index s message_id index)) [
          | inl f ↦ inl (ground (arith, e, f))
          | inr (fi, f) ↦ elim (Option-cases (fork_prepared json env s fi text)) [
            | inl g ↦ inl (ground (arith, e, f, g))
            | inr ((s', result), g) ↦
                elim (Option-cases (session_manager_save_session_nolock store db s')) [
                  | inl k ↦ inl (ground (arith, e, f, g, k))
                  | inr (d, k) ↦ inr (ground (arith, h, e, f, g, k))
                ]
          ]
        ]
      ]

  -- A switch and a tagging either succeed or leave the database as it is, and so does a fork, unless the
  -- copies for the caller, which are made after the save, are what fails.
  pub failure_keeps_rows :
      (branch_id : Bytes) (message_id : Option Bytes) (index : ℤ) (text : Option Bytes)
      (group : Bytes)
      → (((session_manager_switch_branch json env store db session_id branch_id).1 ≡ true)
          ⊎ ((session_manager_switch_branch json env store db session_id branch_id).0 ≡ db))
        × (((id : Bytes) × ((session_manager_tag_message_new json env store db session_id index
                  group).1
                ≡ some id))
            ⊎ ((session_manager_tag_message_new json env store db session_id index group).0 ≡ db))
        × (((r : ForkResult N) × ((session_manager_fork_branch json env store db session_id
                  message_id index text).1
                ≡ some r))
            ⊎ (((session_manager_fork_branch json env store db session_id message_id index text).0
                  ≡ db)
                ⊎ ((env.ok Step.result_dups && env.ok Step.result_message) ≡ false)))
  failure_keeps_rows branch_id message_id index text group = (
    elim (Bool-cases (session_manager_switch_branch json env store db session_id branch_id).1) [
      | inl t ↦ inl t
      | inr f ↦ inr (failed_switch branch_id f)
    ],
    elim (Option-cases
        (session_manager_tag_message_new json env store db session_id index group).1) [
          | inl n ↦ inr (failed_tag index group n)
          | inr t ↦ inl t
        ],
    elim (Option-cases
        (session_manager_fork_branch json env store db session_id message_id index text).1) [
          | inl n ↦ inr (failed_fork message_id index text n)
          | inr t ↦ inl t
        ],
  )
