-- ===== src/Branches/Fork.antt =====
-- A fork keeps every chain and adds one.
use mathlib.Core.Option.{some-injective}
use echo_ai_c.Base.{
  ℕ, zero, suc, ◌≡◌, refl, sym, ap, ◌∙◌, subst, arith, ◌&&◌, Option, none, some, List, [], ◌∷◌,
  ◌++◌, map, Bytes, codes, All, get_elem?, set, take,
}
use echo_ai_c.Messages.{Json, Message, or_empty, message_to_json}
use echo_ai_c.Branches.{
  BranchRecord, Session, ForkResult, Env, Step, branch_list_ensure, branch_active_created_at,
  branch_snapshot_messages, branch_record_create, branch_mint_id, branch_next_created_at,
  fork_group, new_text, fill, fork_messages, fork_prepared,
}
use echo_ai_c.Branches.Chains.{
  some_of_bind, some_of_guard, some_of_if, Recorded, IsRecorded, All-snoc,
}
use echo_ai_c.Branches.Clock.{Past, branch_next_created_at-Past}
use echo_ai_c.Branches.Switch.{branch_record_create-some, listed}

-- `field ? field : v`
abbrev pub filled : Option Bytes → Bytes → Bytes
filled none v = v
filled (some s) v = s

-- The text of the fork message.
abbrev pub text_or : Option Bytes → Option Bytes → Option Bytes
text_or none content = content
text_or (some text) content = some text

module _ {N : Type 0} where
  -- The message at the fork point as the old chain keeps it.
  abbrev pub original : Bytes → Bytes → Message N → Message N
  original id group m = record m { fork_group_id = some group; id = some (filled m.id id) }

  -- The message at the fork point of the new chain.
  abbrev pub edited : Bytes → Bytes → Option Bytes → Message N → Message N
  edited id group text m = record m {
    id = some id;
    fork_group_id = some group;
    content = text_or text m.content;
  }

  cut_and_put :
      (ms : List (Message N)) (fi : ℕ) (m old new : Message N)
      → get_elem? ms fi ≡ some m
      → set (take (suc fi) (set ms fi old)) fi new ≡ take fi ms ++ (new ∷ [])
  cut_and_put [] fi m old new h = absurd (ground (arith, h))
  cut_and_put (x ∷ ms) zero m old new h = refl
  cut_and_put (x ∷ ms) (suc fi) m old new h = ap (◌∷◌ x) (cut_and_put ms fi m old new h)

module _ {J N : Type 0} (json : Json J N) (env : Env) where
  abbrev stored : Message N → J
  stored = message_to_json json

  fill-filled :
      (step : Step) (o : Option Bytes) (v w : Bytes)
      → fill json env step o v ≡ some w
      → w ≡ filled o v
  unfolding fill
  fill-filled step none v w h = sym (some_of_if (env.ok step) v w h)
  fill-filled step (some s) v w h = ground (arith, h)

  new_text-text_or :
      (text content out : Option Bytes)
      → new_text json env text content ≡ some out
      → out ≡ text_or text content
  unfolding new_text
  new_text-text_or none content out h = sym (some-injective content out h)
  new_text-text_or (some t) content out h =
      sym (some_of_if (env.ok Step.copy_content) (some t) out h)

  -- A group that the message has is kept, and shared.
  filled_group : (o : Option Bytes) (g : Bytes) → fork_group json env o ≡ some g → filled o g ≡ g
  unfolding fork_group
  filled_group none g h = refl
  filled_group (some x) g h = some_of_if (env.ok Step.group_dup) x g h

  -- What a fork leaves. A group that the message has is the one that both chains get.
  pub record Shape (s s' : Session J N) (r : ForkResult N) (fi : ℕ) (text : Option Bytes)
      : Type 0 where
    pub m : Message N
    pub rec : BranchRecord J
    pub now : Bytes
    pub at : get_elem? s.messages fi ≡ some m
    pub recorded_chain : rec ≡ record {
      id = some r.branch_id;
      created_at = some (branch_active_created_at s);
      messages =
          some (map stored (set s.messages fi (original r.fork_message_id r.fork_group_id m)));
    }
    pub copy : r.fork_message ≡ edited r.fork_message_id r.fork_group_id text m
    pub live :
        s'.messages ≡ take fi s.messages ++ (edited r.fork_message_id r.fork_group_id text m ∷ [])
    pub left :
        s'.branches
        ≡ some record {
          active_created_at = some now;
          list = some (branch_list_ensure s ++ (rec ∷ []));
        }
    pub same_id : s'.id ≡ s.id
    pub birth : Past env (branch_active_created_at s) now
    pub joined : r.fork_group_id ≡ filled m.fork_group_id r.fork_group_id

  fork_messages-some :
      (m old new : Message N) (text : Option Bytes) (mid gid : Bytes)
      → fork_messages json env m text ≡ some (old, new, mid, gid)
      → (old ≡ original mid gid m)
        × (new ≡ edited mid gid text m)
        × (filled m.fork_group_id gid ≡ gid)
  unfolding fork_messages
  fork_messages-some m old new text mid gid h =
      let out : Message N × Message N × Bytes × Bytes = (old, new, mid, gid) in
      let (mid', e_mid, c) = some_of_bind (branch_mint_id env (codes "m_") 0) _ out h in
      let (gid', e_gid, d) = some_of_bind (fork_group json env m.fork_group_id) _ out c in
      let e = some_of_guard (env.ok Step.copy) _ out d in
      let (content, e_content, f) = some_of_bind (new_text json env text m.content) _ out e in
      let g = some_of_guard (env.ok Step.copy_id && env.ok Step.copy_group) _ out f in
      let (ogid, e_ogid, i) =
        some_of_bind (fill json env Step.old_group m.fork_group_id gid') _ out g in
      let (omid, e_omid, j) = some_of_bind (fill json env Step.old_id m.id mid') _ out i in
      let same_mid : mid' ≡ mid = ground (arith, j) in
      let same_gid : gid' ≡ gid = ground (arith, j) in
      let group : ogid ≡ gid' =
        fill-filled Step.old_group m.fork_group_id gid' ogid e_ogid
        ∙ filled_group m.fork_group_id gid' e_gid in
      let id : omid ≡ filled m.id mid' = fill-filled Step.old_id m.id mid' omid e_omid in
      let text_is : content ≡ text_or text m.content =
        new_text-text_or text m.content content e_content in
      let r =
        some-injective
          (
            record m { fork_group_id = some ogid; id = some omid },
            record m { id = some mid'; fork_group_id = some gid'; content = content },
            mid',
            gid',
          )
          out j in
      (
        sym (ap (λ (t : Message N × Message N × Bytes × Bytes). t.0) r) ∙ (λ k. record m {
          fork_group_id = some ((group ∙ same_gid) k);
          id = some ((id ∙ ap (filled m.id) same_mid) k);
        }),
        sym (ap (λ (t : Message N × Message N × Bytes × Bytes). t.1) r) ∙ (λ k. record m {
          id = some (same_mid k);
          fork_group_id = some (same_gid k);
          content = text_is k;
        }),
        subst (λ g. filled m.fork_group_id g ≡ g) same_gid
            (filled_group m.fork_group_id gid' e_gid),
      )

  pub fork_prepared-Shape :
      (s s' : Session J N) (r : ForkResult N) (fi : ℕ) (text : Option Bytes)
      → fork_prepared json env s fi text ≡ some (s', r)
      → Shape s s' r fi text
  unfolding fork_prepared branch_snapshot_messages
  fork_prepared-Shape s s' r fi text h =
      let out : Session J N × ForkResult N = (s', r) in
      let a = some_of_guard (env.ok Step.list_ensure) _ out h in
      let (m, at, b) = some_of_bind (get_elem? s.messages fi) _ out a in
      let ((old, new, mid, gid), e_made, c) =
        some_of_bind (fork_messages json env m text) _ out b in
      let d = some_of_guard (env.ok Step.snapshot && env.ok Step.created) _ out c in
      let shot : List J = map stored (set s.messages fi old) in
      let (rec, e_rec, e) =
        some_of_bind (branch_record_create env 2 (branch_active_created_at s) shot) _ out d in
      let f = some_of_guard (env.ok Step.record_append) _ out e in
      let (now, e_now, g) = some_of_bind (branch_next_created_at env s) _ out f in
      let made = some_of_guard (env.ok Step.set_active) _ out g in
      let (rid, e_rid, fields) =
        branch_record_create-some json env 2 (branch_active_created_at s) shot rec e_rec in
      let is = some-injective _ out made in
      let (e_old, e_new, joined) = fork_messages-some m old new text mid gid e_made in
      let result : (record {
        branch_id = or_empty rec.id;
        fork_message_id = mid;
        fork_group_id = gid;
        fork_message = new;
      })
          ≡ r =
        ap (λ (t : Session J N × ForkResult N). t.1) is in
      let same_mid : mid ≡ r.fork_message_id =
        ap (λ (t : ForkResult N). t.fork_message_id) result in
      let same_gid : gid ≡ r.fork_group_id = ap (λ (t : ForkResult N). t.fork_group_id) result in
      let rid_is : rid ≡ r.branch_id =
        ap (λ (t : BranchRecord J). or_empty t.id) (sym fields)
        ∙ ap (λ (t : ForkResult N). t.branch_id) result in
      let old_is : old ≡ original r.fork_message_id r.fork_group_id m =
        e_old ∙ (λ k. original (same_mid k) (same_gid k) m) in
      let new_is : new ≡ edited r.fork_message_id r.fork_group_id text m =
        e_new ∙ (λ k. edited (same_mid k) (same_gid k) text m) in
      record {
        m = m;
        rec = rec;
        now = now;
        at = at;
        recorded_chain = fields ∙ (λ k. record {
          id = some (rid_is k);
          created_at = some (branch_active_created_at s);
          messages = some (map stored (set s.messages fi (old_is k)));
        });
        copy = sym (ap (λ (t : ForkResult N). t.fork_message) result) ∙ new_is;
        live =
            sym (ap (λ (t : Session J N × ForkResult N). t.0.messages) is)
            ∙ (cut_and_put s.messages fi m old new at
                ∙ ap (λ x. take fi s.messages ++ (x ∷ [])) new_is);
        left = sym (ap (λ (t : Session J N × ForkResult N). t.0.branches) is);
        same_id = sym (ap (λ (t : Session J N × ForkResult N). t.0.id) is);
        birth = branch_next_created_at-Past env s now e_now;
        joined = sym (subst (λ g. filled m.fork_group_id g ≡ g) same_gid joined);
      }

  -- A fork leaves each record with a time of birth and with messages that were stored.
  pub fork_prepared-Recorded :
      (s s' : Session J N) (r : ForkResult N) (fi : ℕ) (text : Option Bytes)
      → Recorded stored s
      → fork_prepared json env s fi text ≡ some (s', r)
      → Recorded stored s'
  fork_prepared-Recorded s s' r fi text recorded h =
      let w = fork_prepared-Shape s s' r fi text h in
      let l : List (BranchRecord J) = branch_list_ensure s in
      subst (All (IsRecorded stored)) (sym (listed json env s' w.now (l ++ (w.rec ∷ [])) w.left)) (
        All-snoc (IsRecorded stored) l w.rec recorded (
          branch_active_created_at s,
          set s.messages fi (original r.fork_message_id r.fork_group_id w.m),
          ap (λ (t : BranchRecord J). t.created_at) w.recorded_chain,
          ap (λ (t : BranchRecord J). t.messages) w.recorded_chain,
        ))
