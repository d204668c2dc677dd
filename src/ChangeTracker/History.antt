-- ===== src/ChangeTracker/History.antt =====
-- What undo and redo restore, and what a failure leaves.
use echo_ai_c.Base.{
  ℕ, ◌<◌, ◌≡◌, ◌≢◌, refl, arith, true, List, [], ◌∷◌, length, Bytes, bytes_eq_iff, take_all, some,
  negsuc,
}
use echo_ai_c.ChangeTracker.{
  Tracker, Entry, State, Outcome, Files, failed, int_of, returned, entry_bytes, undo_top, redo_top,
  ct_undo, ct_redo, c_string,
}

undo_top-failed :
    (ct : Tracker) (fs : Files) (xs : List Entry) (o : Outcome)
    → ct.undo_stack ≡ xs
    → (undo_top ct fs xs o).0 ≡ failed
    → (undo_top ct fs xs o).1.0.undo_stack ≡ xs
unfolding undo_top
undo_top-failed ct fs [] o h e = h
undo_top-failed ct fs (x ∷ xs) o h e = ground arith

redo_top-failed :
    (ct : Tracker) (fs : Files) (xs : List Entry) (o : Outcome)
    → (redo_top ct fs xs o).0 ≡ failed
    → (redo_top ct fs xs o).1.0 ≡ ct
unfolding redo_top
redo_top-failed ct fs [] o e = refl
redo_top-failed ct fs (x ∷ xs) o e = ground arith

-- Whatever fails: a failed undo leaves the undo stack as it was, and a failed redo leaves both
-- stacks as they were.
pub failure_keeps_entry :
    (ct : Tracker) (fs : Files) (o : Outcome)
    → ((ct_undo (ct, fs) o).0 ≡ failed → (ct_undo (ct, fs) o).1.0.undo_stack ≡ ct.undo_stack)
      × ((ct_redo (ct, fs) o).0 ≡ failed → (ct_redo (ct, fs) o).1.0 ≡ ct)
unfolding ct_undo ct_redo
failure_keeps_entry ct fs o =
    (undo_top-failed ct fs ct.undo_stack o refl, redo_top-failed ct fs ct.redo_stack o)

-- An undo of a top entry that does not return -1, whatever the environment answered, returns the length of
-- the entry as an `int` (what it is modulo 2^32, less 2^32 from 2^31 on), has popped that entry, has left its
-- content in its file, and has changed no other file.
pub ct_undo-restores :
    (ct : Tracker) (fs : Files) (o : Outcome) (e : Entry) (rest : List Entry) (p : Bytes)
    → ct.undo_stack ≡ e ∷ rest
    → returned (ct_undo (ct, fs) o).0 ≢ negsuc 0
    → (returned (ct_undo (ct, fs) o).0 ≡ int_of e.content_len)
      × ((ct_undo (ct, fs) o).1.0.undo_stack ≡ rest)
      × ((ct_undo (ct, fs) o).1.1 e.file_path ≡ some (entry_bytes e e.content_len))
      × (p ≢ e.file_path → (ct_undo (ct, fs) o).1.1 p ≡ fs p)
unfolding ct_undo undo_top
ct_undo-restores ct fs o e rest p s d =
    ground (arith, bytes_eq_iff e.file_path e.file_path, bytes_eq_iff e.file_path p)

-- Every call of the environment succeeds, `fread` gets `n` bytes and `fwrite` takes `k`.
abbrev pub smooth : ℕ → ℕ → Outcome
smooth n k = record {
  seek = true;
  alloc_content = true;
  dup_path = true;
  open_write = true;
  read = n;
  written = k;
  close = true;
}

pub after_undo : Tracker → Files → Entry → ℕ → State
after_undo ct fs e n = (ct_undo (ct, fs) (smooth n e.content_len)).1

pub after_redo : Tracker → Files → Entry → ℕ → State
after_redo ct fs e n = (ct_redo (after_undo ct fs e n) (smooth n n)).1

-- Where nothing fails and the file holds bytes `c`, not empty and with no NUL among them, a redo
-- after an undo puts `c` back.
pub ct_redo-ct_undo :
    (ct : Tracker) (fs : Files) (e : Entry) (rest : List Entry) (c : Bytes)
    → ct.undo_stack ≡ e ∷ rest
    → fs e.file_path ≡ some c
    → 0 < length c
    → c_string c ≡ c
    → (after_redo ct fs e (length c)).1 e.file_path ≡ some c
unfolding after_redo after_undo ct_redo ct_undo undo_top redo_top
ct_redo-ct_undo ct fs e rest c s f h z =
    ground (arith, bytes_eq_iff e.file_path e.file_path, take_all c (length c))

-- An undo after that redo writes `c` once more: the content that the first undo restored is on
-- neither stack, and the file keeps the redone content.
pub undo_after_redo :
    (ct : Tracker) (fs : Files) (e : Entry) (rest : List Entry) (c : Bytes)
    → ct.undo_stack ≡ e ∷ rest
    → fs e.file_path ≡ some c
    → 0 < length c
    → c_string c ≡ c
    → (ct_undo (after_redo ct fs e (length c)) (smooth (length c) (length c))).1.1 e.file_path
      ≡ some c
unfolding after_redo after_undo ct_redo ct_undo undo_top redo_top
undo_after_redo ct fs e rest c s f h z =
    ground (arith, bytes_eq_iff e.file_path e.file_path, take_all c (length c))
