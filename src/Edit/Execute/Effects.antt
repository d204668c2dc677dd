-- ===== src/Edit/Execute/Effects.antt =====
-- What a run of the edit tool leaves in the files.
use echo_ai_c.Base.{
  ℕ, suc, ap, ◌∙◌, [], ◌∷◌, map, ◌≡◌, ◌≢◌, ◌⊎◌, inl, inr, refl, sym, subst, arith, Bool, true,
  false, not, ◌||◌, List, Option, none, some, ◌==◌, if◌then◌else◌, Bytes, bytes_eq, bytes_eq_iff,
  length, Bool-cases,
}
use echo_ai_c.Safety.{SafetyConfig}
use echo_ai_c.Edit.{invalid_json, EditItem, EditError, Memory}
use echo_ai_c.Edit.Execute.{
  FileSystem, EditEnv, WriteOutcome, set_file, tmp_path, WriteStatus, written, failed_write,
  no_temp, edit_write_atomic, Args, edits_of, shaped, check_items, check_args, new_content,
  read_content, find_file, finish, edit_file, edit_execute,
}

same_file : (s : Bytes) → bytes_eq s s ≡ true
same_file s = (bytes_eq_iff s s).1 refl

other_file : (p q : Bytes) → p ≢ q → bytes_eq p q ≡ false
other_file p q n = elim (Bool-cases (bytes_eq p q)) [
  | inl t ↦ absurd (n ((bytes_eq_iff p q).0 t))
  | inr f ↦ f
]

-- What a run leaves: no change but to the temporary file, or the new bytes at one path besides.
abbrev pub Kept : FileSystem → Bytes → FileSystem → Type 0
Kept files temp files' = (p : Bytes) → p ≢ temp → files' p ≡ files p

abbrev pub Written : FileSystem → Bytes → Bytes → Bytes → FileSystem → Type 0
Written files temp path bytes files' =
    (files' path ≡ some bytes) × ((p : Bytes) → p ≢ temp → p ≢ path → files' p ≡ files p)

abbrev pub WriteEffect : FileSystem → Bytes → Bytes → Bytes → FileSystem × WriteStatus → Type 0
WriteEffect files temp path bytes (files', written n) =
    (n ≡ length bytes) × Written files temp path bytes files'
WriteEffect files temp path bytes (files', failed_write) = Kept files temp files'
WriteEffect files temp path bytes (files', no_temp) = Kept files temp files'

without_temp : (files : FileSystem) (temp : Bytes) → Kept files temp (set_file temp none files)
unfolding set_file
without_temp files temp p n = rw (other_file p temp n) refl

replaced_file :
    (files : FileSystem) (temp path bytes : Bytes)
    → Written files temp path bytes (set_file path (some bytes) (set_file temp none files))
unfolding set_file
replaced_file files temp path bytes =
    (rw (same_file path) refl, (λ p n m. rw (other_file p path m, other_file p temp n) refl))

edit_write_atomic-WriteEffect :
    (o : WriteOutcome) (pid resolved bytes : Bytes) (files : FileSystem)
    → WriteEffect files
        (tmp_path pid resolved)
        resolved
        bytes
        (edit_write_atomic o pid resolved bytes files)
unfolding edit_write_atomic
edit_write_atomic-WriteEffect o pid resolved bytes files =
    by_outcome o.named o.opened (o.wrote == length bytes) (not o.closed || not o.renamed) o.wrote
      (λ t. ground (arith, t))
  where
    by_outcome :
        (named opened all failed : Bool) (n : ℕ)
        → (all ≡ true → n ≡ length bytes)
        → WriteEffect files (tmp_path pid resolved) resolved bytes (
            if not named
            then (files, failed_write)
            else if not opened
            then (files, no_temp)
            else if not all || failed
            then (set_file (tmp_path pid resolved) none files, failed_write)
            else (
              set_file resolved (some bytes) (set_file (tmp_path pid resolved) none files),
              written n,
            ))
    by_outcome false opened all failed n h = λ p m. refl
    by_outcome true false all failed n h = λ p m. refl
    by_outcome true true false failed n h = without_temp files (tmp_path pid resolved)
    by_outcome true true true true n h = without_temp files (tmp_path pid resolved)
    by_outcome true true true false n h =
        (h refl, replaced_file files (tmp_path pid resolved) resolved bytes)

-- The parsed arguments name the path and hold these edits and no other.
abbrev pub Asked : EditEnv → Bytes → Bytes → List EditItem → Type 0
Asked env args_json path items =
    (args : Args) × (env.cjson args_json ≡ some args)
    × (args.path ≡ some path)
    × (edits_of args ≡ map some items)

abbrev pub Effect :
    EditEnv
    → Memory
    → SafetyConfig
    → FileSystem
    → Bytes
    → FileSystem × (EditError ⊎ (ℕ × ℕ))
    → Type 0
Effect env m cfg files args_json (files', inl e) =
    (resolved : Bytes) × Kept files (tmp_path env.pid resolved) files'
Effect env m cfg files args_json (files', inr (n, count)) =
    (path : Bytes) × ((items : List EditItem) × ((resolved : Bytes) × ((content : Bytes)
          × ((final : Bytes) × Asked env args_json path items
              × (find_file env cfg path ≡ inr resolved)
              × (read_content env m cfg files resolved ≡ inr content)
              × (new_content m items content ≡ inr final)
              × (n ≡ length items)
              × (count ≡ length final)
              × Written files (tmp_path env.pid resolved) resolved final files'))))

nothing_done :
    (env : EditEnv) (m : Memory) (cfg : SafetyConfig) (files : FileSystem) (args_json : Bytes)
    (e : EditError)
    → Effect env m cfg files args_json (files, inl e)
nothing_done env m cfg files args_json e = ([], λ p n. refl)

sum_cases : {A B : Type 0} (x : A ⊎ B) → ((a : A) × (x ≡ inl a)) ⊎ ((b : B) × (x ≡ inr b))
sum_cases (inl a) = inl (a, refl)
sum_cases (inr b) = inr (b, refl)

finish-Effect :
    (env : EditEnv) (m : Memory) (cfg : SafetyConfig) (files : FileSystem) (args_json path : Bytes)
    (items : List EditItem) (resolved content final : Bytes) (r : FileSystem × WriteStatus)
    → Asked env args_json path items
    → find_file env cfg path ≡ inr resolved
    → read_content env m cfg files resolved ≡ inr content
    → new_content m items content ≡ inr final
    → WriteEffect files (tmp_path env.pid resolved) resolved final r
    → Effect env m cfg files args_json (finish (length items) r)
unfolding finish
finish-Effect env m cfg files args_json path items resolved content final (files', written n) asked
      f g h e =
    (path, (items, (resolved, (content, (final, asked, f, g, h, refl, e.0, e.1)))))
finish-Effect env m cfg files args_json path items resolved content final (files', failed_write)
      asked f g h e =
    (resolved, e)
finish-Effect env m cfg files args_json path items resolved content final (files', no_temp) asked f
      g h e =
    (resolved, e)

edit_file-Effect :
    (env : EditEnv) (m : Memory) (cfg : SafetyConfig) (files : FileSystem) (args_json path : Bytes)
    (items : List EditItem)
    → Asked env args_json path items
    → Effect env m cfg files args_json (edit_file env m cfg files path items)
unfolding edit_file
edit_file-Effect env m cfg files args_json path items asked =
    let result : FileSystem × (EditError ⊎ (ℕ × ℕ)) = edit_file env m cfg files path items in
    let refused : (e : EditError)
        → result ≡ (files, inl e)
        → Effect env m cfg files args_json result =
      λ e same.
        subst (Effect env m cfg files args_json) (sym same)
          (nothing_done env m cfg files args_json e) in
    elim (sum_cases (find_file env cfg path)) [
      | inl (e, f) ↦ refused e (rw (f, edit_file) refl)
      | inr (resolved, f) ↦ elim (sum_cases (read_content env m cfg files resolved)) [
        | inl (e, g) ↦ refused e (rw (f, g, edit_file) refl)
        | inr (content, g) ↦ elim (sum_cases (new_content m items content)) [
          | inl (e, h) ↦ refused e (rw (f, g, h, edit_file) refl)
          | inr (final, h) ↦
              let last : FileSystem × WriteStatus =
                edit_write_atomic env.write env.pid resolved final files in
              let same : result ≡ finish (length items) last = rw (f, g, h, edit_file) refl in
              subst (Effect env m cfg files args_json) (sym same) (
                finish-Effect env m cfg files args_json path items resolved content final last asked
                  f g h (edit_write_atomic-WriteEffect env.write env.pid resolved final files))
        ]
      ]
    ]

option_cases : {A : Type 0} (o : Option A) → (o ≡ none) ⊎ ((a : A) × (o ≡ some a))
option_cases none = inl refl
option_cases (some a) = inr (a, refl)

shaped-map :
    (i : ℕ) (given : List (Option EditItem)) (items : List EditItem)
    → shaped i given ≡ inr items
    → given ≡ map some items
unfolding shaped
shaped-map i [] [] h = refl
shaped-map i [] (item ∷ items) h = absurd (ground (arith, h))
shaped-map i (none ∷ given) items h = absurd (ground (arith, h))
shaped-map i (some item ∷ given) items h = elim (sum_cases (shaped (suc i) given)) [
  | inl (e, f) ↦ absurd (ground (arith, h, f))
  | inr (rest, f) ↦
      let same : item ∷ rest ≡ items = ground (arith, h, f) in
      ap (◌∷◌ (some item)) (shaped-map (suc i) given rest f) ∙ ap (map some) same
]

check_items-map :
    (m : Memory) (given : List (Option EditItem)) (items : List EditItem)
    → check_items m given ≡ inr items
    → given ≡ map some items
unfolding check_items
check_items-map m given items h = elim (sum_cases (shaped 0 given)) [
  | inl (e, f) ↦ absurd (ground (arith, h, f))
  | inr (found, f) ↦
      let same : found ≡ items = ground (arith, h, f) in
      shaped-map 0 given found f ∙ ap (map some) same
]

-- Checked arguments are the path and the edits that were given.
check_args-asked :
    (m : Memory) (args : Args) (path : Bytes) (items : List EditItem)
    → check_args m args ≡ inr (path, items)
    → (args.path ≡ some path) × (edits_of args ≡ map some items)
unfolding check_args
check_args-asked m args path items h = elim (option_cases args.path) [
  | inl f ↦ absurd (ground (arith, h, f))
  | inr (p, f) ↦ elim (sum_cases (check_items m (edits_of args))) [
    | inl (e, g) ↦ absurd (ground (arith, h, f, g))
    | inr (found, g) ↦
        let same_path : p ≡ path = ground (arith, h, f, g) in
        let same : found ≡ items = ground (arith, h, f, g) in
        (f ∙ ap some same_path, check_items-map m (edits_of args) found g ∙ ap (map some) same)
  ]
]

-- A run that reports an error changes at most one path, the temporary file of some path. A run that reports
-- edits and bytes found and read the file whose path the parsed arguments name, computed new bytes from it
-- with the edits that they hold, wrote them all to it, and changed no other path but its temporary file; the
-- numbers are those of these edits and bytes.
pub edit_execute-Effect :
    (env : EditEnv) (m : Memory) (cfg : SafetyConfig) (files : FileSystem) (args_json : Bytes)
    → Effect env m cfg files args_json (edit_execute env m cfg files args_json)
unfolding edit_execute
edit_execute-Effect env m cfg files args_json =
    let result : FileSystem × (EditError ⊎ (ℕ × ℕ)) = edit_execute env m cfg files args_json in
    let refused : (e : EditError)
        → result ≡ (files, inl e)
        → Effect env m cfg files args_json result =
      λ e same.
        subst (Effect env m cfg files args_json) (sym same)
          (nothing_done env m cfg files args_json e) in
    elim (option_cases (env.cjson args_json)) [
      | inl f ↦ refused invalid_json (rw (f, edit_execute) refl)
      | inr (args, f) ↦ elim (sum_cases (check_args m args)) [
        | inl (e, g) ↦ refused e (rw (f, g, edit_execute) refl)
        | inr ((path, items), g) ↦
            let same : result ≡ edit_file env m cfg files path items =
              rw (f, g, edit_execute) refl in
            subst (Effect env m cfg files args_json) (sym same) (
              edit_file-Effect env m cfg files args_json path items (
                let (named, held) = check_args-asked m args path items g in (args, f, named, held)))
      ]
    ]
