-- ===== src/ChangeTracker/Tests.antt =====
-- Runs of the tracker, and its theorems at concrete inputs.
use echo_ai_c.Base.{
  ◌≡◌, ◌≢◌, pos, negsuc, arith, ◌^◌, ◌-◌, refl, some, none, [], ◌∷◌, Bytes, codes, bytes_eq,
}
use echo_ai_c.ChangeTracker.{
  Tracker, Entry, Files, done, int_of, returned, ct_create, ct_snapshot, ct_undo, entry_bytes,
  write_file, snapshot_entry,
}
use echo_ai_c.ChangeTracker.History.{ct_undo-restores, smooth}

abbrev path : Bytes
path = codes "a.c"

abbrev old : Entry
old = snapshot_entry path (codes "old")

-- The file as it was snapshotted, and as it was written afterwards.
abbrev files_old : Files
files_old = write_file (λ q. none) path (codes "old")

abbrev files_new : Files
files_new = write_file (λ q. none) path (codes "new!")

abbrev tracker : Tracker
tracker = record { undo_stack = old ∷ []; redo_stack = [] }

snapshot_run : (ct_snapshot (ct_create, files_old) path (smooth 3 0)).1.0 ≡ tracker
unfolding ct_snapshot ct_create bytes_eq
snapshot_run = refl

undo_run : (ct_undo (tracker, files_new) (smooth 4 3)).0 ≡ done (pos 3)
unfolding ct_undo bytes_eq
undo_run = refl

redo_drops_after_nul :
    (ct_undo (tracker, write_file (λ q. none) path (1 ∷ 0 ∷ 2 ∷ [])) (smooth 4 3)).1.0.redo_stack
    ≡ record { file_path = path; previous_content = some (1 ∷ 0 ∷ 2 ∷ []); content_len = 1 } ∷ []
unfolding ct_undo bytes_eq
redo_drops_after_nul = refl

-- A content of 2^32 - 1 bytes is restored, and -1 is what the caller gets.
length_as_failure : int_of (2 ^ 32 - 1) ≡ negsuc 0
length_as_failure = refl

short_read :
    (ct_snapshot (ct_create, files_old) path (smooth 2 0)).1.0
    ≡ record { undo_stack = snapshot_entry path (codes "ol") ∷ []; redo_stack = [] }
unfolding ct_snapshot ct_create bytes_eq
short_read = refl

undo_succeeds : returned (ct_undo (tracker, files_new) (smooth 4 3)).0 ≢ negsuc 0
unfolding ct_undo bytes_eq
undo_succeeds e = absurd (ground (arith, e))

ct_undo-restores_example :
    (ct_undo (tracker, files_new) (smooth 4 3)).1.1 path ≡ some (entry_bytes old 3)
ct_undo-restores_example =
    (ct_undo-restores tracker files_new (smooth 4 3) old [] [] refl undo_succeeds).2
