-- ===== src/Edit/Execute.antt =====
-- `edit_execute`: the arguments, the file and the result. `cjson`, `realpath` and the outcomes of the C
-- library are parameters; the line diff that the answer carries is left out.
pub mod Content
pub mod Effects
use echo_ai_c.Base.{
  ℕ, zero, suc, ◌+◌, ◌⊎◌, inl, inr, Bool, true, false, not, ◌&&◌, ◌||◌, List, [], ◌∷◌, ◌++◌, Option,
  none, some, ltb, ◌==◌, if◌then◌else◌, Bytes, codes, bytes_eq, has_prefix, length, take, drop,
}
use echo_ai_c.Safety.{SafetyConfig, safety_check_path}
use echo_ai_c.Safety.Resolve.{Resolved, safety_resolve_path_alloc}
use echo_ai_c.Edit.{
  EditItem, EditError, invalid_json, missing_path, missing_edits, oom, bad_item, empty_old,
  rejected_path, unresolved_path, file_not_found, bad_size, short_read, no_change, cannot_write,
  write_failed, Memory, apply_edits, edit_detect_ending, edit_normalize_lf, edit_restore_endings,
}

-- The parsed arguments: the path if it is a string; the array of edits, with `none` for an element that is
-- no object with the two strings; the edit of the flat form, if both its strings are there.
pub record Args : Type 0 where
  pub path : Option Bytes
  pub edits : Option (List (Option EditItem))
  pub flat : Option EditItem

-- The file system: the content of each path that is there.
abbrev pub FileSystem : Type 0
FileSystem = Bytes → Option Bytes

pub record WriteOutcome : Type 0 where
  pub named : Bool
  pub opened : Bool
  pub wrote : ℕ
  pub closed : Bool
  pub renamed : Bool

pub record EditEnv : Type 0 where
  pub cjson : Bytes → Option Args
  pub realpath : Bytes → Resolved
  -- the process id in decimal, whether `fseek` and `fread` do what they are asked for, the writing
  pub pid : Bytes
  pub seek : Bool
  pub read_all : Bool
  pub write : WriteOutcome

pub set_file : Bytes → Option Bytes → FileSystem → FileSystem
unfolding bytes_eq
set_file path content files p = if bytes_eq p path then content else files p

pub tmp_path : Bytes → Bytes → Bytes
tmp_path pid resolved = resolved ++ (codes ".tmp." ++ pid)

pub data WriteStatus : Type 0 where
  written : ℕ → WriteStatus
  failed_write : WriteStatus
  no_temp : WriteStatus

-- The temporary file is removed on every failure after it was opened.
pub edit_write_atomic : WriteOutcome → Bytes → Bytes → Bytes → FileSystem → FileSystem × WriteStatus
unfolding set_file tmp_path
edit_write_atomic o pid resolved bytes files =
    if not o.named
    then (files, failed_write)
    else if not o.opened
    then (files, no_temp)
    else if not (o.wrote == length bytes) || (not o.closed || not o.renamed)
    then (set_file (tmp_path pid resolved) none files, failed_write)
    else (
      set_file resolved (some bytes) (set_file (tmp_path pid resolved) none files),
      written o.wrote,
    )

-- The edits: the array, or the flat form as one edit.
pub edits_of : Args → List (Option EditItem)
edits_of args = elim args.edits [
  | some items ↦ items
  | none ↦ elim args.flat [ some item ↦ some item ∷ [] | none ↦ [] ]
]

-- The shape of the edits, in order; then their copies, then the old texts that are empty.
pub shaped : ℕ → List (Option EditItem) → EditError ⊎ List EditItem
shaped i [] = inr []
shaped i (none ∷ items) = inl (bad_item i)
shaped i (some item ∷ items) = elim (shaped (suc i) items) [
  | inl e ↦ inl e
  | inr rest ↦ inr (item ∷ rest)
]

pub all_copied : (ℕ → Bool) → ℕ → List EditItem → Bool
all_copied strings i [] = true
all_copied strings i (item ∷ items) =
    let rest = all_copied strings (suc i) items in strings i && rest

pub first_empty : ℕ → List EditItem → Option ℕ
first_empty i [] = none
first_empty i (item ∷ items) =
    let rest = first_empty (suc i) items in if length item.old_str == 0 then some i else rest

pub check_items : Memory → List (Option EditItem) → EditError ⊎ List EditItem
unfolding shaped all_copied first_empty
check_items m given = elim (shaped 0 given) [
  | inl e ↦ inl e
  | inr items ↦
      if not (all_copied m.strings 0 items)
      then inl oom
      else elim (first_empty 0 items) [ some i ↦ inl (empty_old i) | none ↦ inr items ]
]

pub check_args : Memory → Args → EditError ⊎ (Bytes × List EditItem)
unfolding edits_of check_items
check_args m args = elim args.path [
  | none ↦ inl missing_path
  | some path ↦
      if length (edits_of args) == 0
      then inl missing_edits
      else if not m.path || not m.items
      then inl oom
      else elim (check_items m (edits_of args)) [ inl e ↦ inl e | inr items ↦ inr (path, items) ]
]

abbrev byte_order_mark : Bytes
byte_order_mark = 239 ∷ 187 ∷ 191 ∷ []

-- The bytes before the first NUL.
pub before_nul : Bytes → Bytes
before_nul [] = []
before_nul (c ∷ s) = let rest = before_nul s in if c == 0 then [] else c ∷ rest

-- The bytes that are written.
unfoldable pub new_content : Memory → List EditItem → Bytes → EditError ⊎ Bytes
unfolding before_nul has_prefix bytes_eq apply_edits edit_detect_ending edit_normalize_lf
    edit_restore_endings
new_content m items content =
    let bom = has_prefix content byte_order_mark in
    let text = before_nul (if bom then drop 3 content else content) in
    if not m.norm then inl oom else elim (apply_edits m items (edit_normalize_lf text)) [
      | inl e ↦ inl e
      | inr new_norm ↦
          let final =
            (if bom then byte_order_mark else [])
            ++ edit_restore_endings new_norm (edit_detect_ending text) in
          if not m.restored_text || not m.final
          then inl oom
          else if bytes_eq final content
          then inl no_change
          else inr final
    ]

-- The file before the edits.
pub read_content : EditEnv → Memory → SafetyConfig → FileSystem → Bytes → EditError ⊎ Bytes
read_content env m cfg files resolved = elim (files resolved) [
  | none ↦ inl file_not_found
  | some content ↦
      if length content == 0 || (ltb cfg.max_file_size (length content) || not env.seek)
      then inl bad_size
      else if not m.content
      then inl oom
      else if not env.read_all
      then inl short_read
      else inr content
]

pub find_file : EditEnv → SafetyConfig → Bytes → EditError ⊎ Bytes
unfolding safety_check_path safety_resolve_path_alloc
find_file env cfg path =
    if not (safety_check_path cfg path)
    then inl rejected_path
    else elim (safety_resolve_path_alloc env.realpath cfg path) [
      | none ↦ inl unresolved_path
      | some resolved ↦ inr resolved
    ]

-- The number of edits and of bytes written.
pub finish : ℕ → FileSystem × WriteStatus → FileSystem × (EditError ⊎ (ℕ × ℕ))
finish n (files, written count) = (files, inr (n, count))
finish n (files, failed_write) = (files, inl write_failed)
finish n (files, no_temp) = (files, inl cannot_write)

pub edit_file :
    EditEnv
    → Memory
    → SafetyConfig
    → FileSystem
    → Bytes
    → List EditItem
    → FileSystem × (EditError ⊎ (ℕ × ℕ))
unfolding find_file read_content new_content edit_write_atomic finish
edit_file env m cfg files path items = elim (find_file env cfg path) [
  | inl e ↦ (files, inl e)
  | inr resolved ↦ elim (read_content env m cfg files resolved) [
    | inl e ↦ (files, inl e)
    | inr content ↦ elim (new_content m items content) [
      | inl e ↦ (files, inl e)
      | inr final ↦ finish (length items) (edit_write_atomic env.write env.pid resolved final files)
    ]
  ]
]

unfoldable pub edit_execute :
    EditEnv → Memory → SafetyConfig → FileSystem → Bytes → FileSystem × (EditError ⊎ (ℕ × ℕ))
unfolding check_args edit_file
edit_execute env m cfg files args_json = elim (env.cjson args_json) [
  | none ↦ (files, inl invalid_json)
  | some args ↦ elim (check_args m args) [
    | inl e ↦ (files, inl e)
    | inr (path, items) ↦ edit_file env m cfg files path items
  ]
]
