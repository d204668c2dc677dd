-- ===== src/ChangeTracker.antt =====
-- src/change_tracker/change_tracker.c and .h: the undo and redo stacks over file contents.
-- A stack is a list, newest entry first (the array's last entry is the list's head), so the
-- entry that a full stack drops is the list's last. The file system is a function from paths to
-- contents, with the outcomes of the C library's calls as the fields of `Outcome`: an operation
-- takes one and reads of it what its path through the code reaches.
mod Tests
pub mod History
pub mod Bounds
use echo_ai_c.Base.{
  ℕ, suc, ◌+◌, ◌-◌, Bool, true, false, List, [], ◌∷◌, Option, none, some, ltb, leb, ◌==◌,
  if◌then◌else◌, Bytes, bytes_eq, length, take, ℤ, pos, negsuc, ◌%◌, ◌^◌,
}

abbrev pub max_stack : ℕ
max_stack = 64

-- `CTEntry`. `previous_content` is NULL where it could not be read; `content_len` is its length.
pub record Entry : Type 0 where
  pub file_path : Bytes
  pub previous_content : Option Bytes
  pub content_len : ℕ

pub record Tracker : Type 0 where
  pub undo_stack : List Entry
  pub redo_stack : List Entry

abbrev pub Files : Type 0
Files = Bytes → Option Bytes

abbrev pub write_file : Files → Bytes → Bytes → Files
write_file fs p c q = if bytes_eq p q then some c else fs q

-- What the environment answers: each flag says that the call succeeds.
pub record Outcome : Type 0 where
  pub seek : Bool
  pub alloc_content : Bool
  pub dup_path : Bool
  pub open_write : Bool
  -- how many bytes `fread` gets, at most those that are there
  pub read : ℕ
  -- how many bytes `fwrite` takes, and whether `fclose` succeeds
  pub written : ℕ
  pub close : Bool

-- `(int)n` on a machine with 32-bit integers.
abbrev pub int_of : ℕ → ℤ
int_of n = let m = n % 2 ^ 32 in if ltb m (2 ^ 31) then pos m else negsuc (2 ^ 32 - 1 - m)

-- How a call ends: at one of its `return -1`, or at its last `return` with this value.
pub data Reply : Type 0 where
  failed : Reply
  done : ℤ → Reply

-- What the caller gets.
abbrev pub returned : Reply → ℤ
returned failed = negsuc 0
returned (done n) = n

abbrev pub State : Type 0
State = Tracker × Files

pub ct_create : Tracker
ct_create = record { undo_stack = []; redo_stack = [] }

abbrev pub snapshot_entry : Bytes → Bytes → Entry
snapshot_entry path content = record {
  file_path = path;
  previous_content = some content;
  content_len = length content;
}

-- A full stack loses its oldest entry.
pub evict : List Entry → List Entry
evict s = if leb max_stack (length s) then take (max_stack - 1) s else s

-- The bytes before the first NUL, as `strlen` counts them.
pub c_string : Bytes → Bytes
c_string [] = []
c_string (b ∷ bs) = if b == 0 then [] else b ∷ c_string bs

-- The eviction, the path's copy (the flag), and the push that clears the redo stack.
push_snapshot : Tracker → Bytes → Bytes → Bool → Reply × Tracker
unfolding evict
push_snapshot ct path content dup_path =
    if dup_path
    then (
      done (pos 0),
      record { undo_stack = snapshot_entry path content ∷ evict ct.undo_stack; redo_stack = [] },
    )
    else (failed, record ct { undo_stack = evict ct.undo_stack })

pub snapshot_read : Tracker → Bytes → Bytes → Outcome → Reply × Tracker
unfolding push_snapshot
snapshot_read ct path content o =
    if o.seek
    then if o.alloc_content
      then push_snapshot ct path (take o.read content) o.dup_path
      else (failed, ct)
    else (failed, ct)

-- `fopen(path, "r")` fails where the file does not exist.
pub ct_snapshot : State → Bytes → Outcome → Reply × State
unfolding snapshot_read
ct_snapshot (ct, fs) path o = elim (fs path) [
  | none ↦ (failed, (ct, fs))
  | some content ↦ let (r, ct') = snapshot_read ct path content o in (r, (ct', fs))
]

-- The content that `ct_undo` keeps for the redo entry: NULL where the file is missing or empty, or
-- where it cannot be read.
pub current_content : Option Bytes → Outcome → Option Bytes
current_content none o = none
current_content (some c) o =
    if ltb 0 (length c)
    then if o.seek then if o.alloc_content then some (take o.read c) else none else none
    else none

-- `current ? strlen(current) : 0`
pub redo_len : Option Bytes → ℕ
unfolding c_string
redo_len none = 0
redo_len (some c) = length (c_string c)

-- The first `n` bytes of the entry, as `fwrite` gets them.
pub entry_bytes : Entry → ℕ → Bytes
entry_bytes e n = elim e.previous_content [ none ↦ [] | some c ↦ take n c ]

-- `written == content_len && fclose(f) == 0`; nothing is written where the length is 0.
pub restored : Entry → Outcome → Bool
restored e o =
    if e.content_len == 0 then o.close else if o.written == e.content_len then o.close else false

-- What stands in the file after `fopen(…, "w")` and the write.
pub rewrite_file : Files → Entry → Outcome → Files
unfolding entry_bytes
rewrite_file fs e o =
    write_file fs e.file_path (entry_bytes e (if e.content_len == 0 then 0 else o.written))

-- The redo entry: the content that the file had before the restore.
pub undone : Files → Entry → Outcome → Entry
unfolding current_content redo_len
undone fs e o =
    let current = current_content (fs e.file_path) o in
    record { file_path = e.file_path; previous_content = current; content_len = redo_len current }

undo_entry : Tracker → Files → Entry → List Entry → Outcome → Reply × State
unfolding rewrite_file restored undone evict
undo_entry ct fs e rest o =
    if o.open_write
    then if restored e o
      then if o.dup_path
        then (
          done (int_of e.content_len),
          (
            record { undo_stack = rest; redo_stack = undone fs e o ∷ evict ct.redo_stack },
            rewrite_file fs e o,
          ),
        )
        else (failed, (record ct { redo_stack = evict ct.redo_stack }, rewrite_file fs e o))
      else (failed, (ct, rewrite_file fs e o))
    else (failed, (ct, fs))

undo_top : Tracker → Files → List Entry → Outcome → Reply × State
unfolding undo_entry
undo_top ct fs [] o = (failed, (ct, fs))
undo_top ct fs (e ∷ rest) o = undo_entry ct fs e rest o

pub ct_undo : State → Outcome → Reply × State
unfolding undo_top
ct_undo (ct, fs) o = undo_top ct fs ct.undo_stack o

redo_entry : Tracker → Files → Entry → List Entry → Outcome → Reply × State
unfolding rewrite_file restored evict
redo_entry ct fs e rest o =
    if o.open_write
    then if restored e o
      then (
        done (int_of e.content_len),
        (record { undo_stack = e ∷ evict ct.undo_stack; redo_stack = rest }, rewrite_file fs e o),
      )
      else (failed, (ct, rewrite_file fs e o))
    else (failed, (ct, fs))

redo_top : Tracker → Files → List Entry → Outcome → Reply × State
unfolding redo_entry
redo_top ct fs [] o = (failed, (ct, fs))
redo_top ct fs (e ∷ rest) o = redo_entry ct fs e rest o

pub ct_redo : State → Outcome → Reply × State
unfolding redo_top
ct_redo (ct, fs) o = redo_top ct fs ct.redo_stack o
