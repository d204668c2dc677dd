-- ===== src/ChangeTracker/Bounds.antt =====
-- The stacks stay within their arrays of 64 entries.
use echo_ai_c.Base.{
  ◌≤◌, ◌<◌, arith, List, [], ◌∷◌, length, length-take, Bytes, leb, Bool-cases, inl, inr,
}
use echo_ai_c.ChangeTracker.{
  Tracker, Entry, State, Outcome, Files, evict, ct_snapshot, ct_undo, undo_top, ct_redo, redo_top,
}

abbrev pub Fits : State → Type 0
Fits s = (length s.0.undo_stack ≤ 64) × (length s.0.redo_stack ≤ 64)

-- The three operations of a client.
pub data Op : Type 0 where
  snapshots : Bytes → Outcome → Op
  undoes redoes : Outcome → Op

pub apply : State → Op → State
apply s (snapshots path o) = (ct_snapshot s path o).1
apply s (undoes o) = (ct_undo s o).1
apply s (redoes o) = (ct_redo s o).1

pub apply_all : State → List Op → State
apply_all s [] = s
apply_all s (op ∷ ops) = apply_all (apply s op) ops

length-evict : (s : List Entry) → length s ≤ 64 → length (evict s) < 64
unfolding evict
length-evict s h = elim (Bool-cases (leb 64 (length s))) [
  | inl full ↦ rw full (omega (arith, length-take 63 s))
  | inr room ↦ rw room (ground arith)
]

ct_snapshot-Fits : (s : State) (path : Bytes) (o : Outcome) → Fits s → Fits (ct_snapshot s path o).1
unfolding ct_snapshot
ct_snapshot-Fits s path o v = ground (arith, length-evict s.0.undo_stack)

undo_top-Fits :
    (ct : Tracker) (fs : Files) (xs : List Entry) (o : Outcome)
    → length xs ≤ 64
    → Fits (ct, fs)
    → Fits (undo_top ct fs xs o).1
unfolding undo_top
undo_top-Fits ct fs [] o h v = v
undo_top-Fits ct fs (e ∷ xs) o h v = ground (arith, length-evict ct.redo_stack)

redo_top-Fits :
    (ct : Tracker) (fs : Files) (xs : List Entry) (o : Outcome)
    → length xs ≤ 64
    → Fits (ct, fs)
    → Fits (redo_top ct fs xs o).1
unfolding redo_top
redo_top-Fits ct fs [] o h v = v
redo_top-Fits ct fs (e ∷ xs) o h v = ground (arith, length-evict ct.undo_stack)

apply-Fits : (s : State) (op : Op) → Fits s → Fits (apply s op)
unfolding apply ct_undo ct_redo
apply-Fits s (snapshots path o) v = ct_snapshot-Fits s path o v
apply-Fits (ct, fs) (undoes o) v = undo_top-Fits ct fs ct.undo_stack o v.0 v
apply-Fits (ct, fs) (redoes o) v = redo_top-Fits ct fs ct.redo_stack o v.1 v

-- From stacks of at most 64 entries each, every sequence of snapshots, undos and redos, whatever
-- the environment answers, leaves at most 64 entries on each.
pub apply_all-Fits : (s : State) (ops : List Op) → Fits s → Fits (apply_all s ops)
unfolding apply_all
apply_all-Fits s [] v = v
apply_all-Fits s (op ∷ ops) v = apply_all-Fits (apply s op) ops (apply-Fits s op v)
