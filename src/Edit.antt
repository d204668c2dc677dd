-- ===== src/Edit.antt =====
-- src/tools/edit.c: the edit tool on the text of a file. Texts are C strings, bytes without NUL; `Memory`
-- holds the outcomes of the allocations.
mod Tests
pub mod Endings
pub mod Lines
pub mod Matching
pub mod Sorting
pub mod Woven
pub mod Execute
use echo_ai_c.Base.{
  ℕ, zero, suc, ◌+◌, ◌-◌, ◌⊎◌, inl, inr, Bool, true, false, not, ◌&&◌, ◌||◌, List, [], ◌∷◌, ◌++◌,
  Option, none, some, map, ltb, leb, ◌==◌, if◌then◌else◌, Bytes, codes, has_prefix, length, get_or,
  take, drop,
}

pub record EditItem : Type 0 where
  pub old_str : Bytes
  pub new_str : Bytes

pub record EditMatch : Type 0 where
  pub index : ℕ
  pub length : ℕ
  pub new_len : ℕ
  pub edit_idx : ℕ

-- The errors of the tool; the numbers are those of the edits that the message names, and a count.
pub data EditError : Type 0 where
  invalid_json : EditError
  missing_path : EditError
  missing_edits : EditError
  oom : EditError
  bad_item : ℕ → EditError
  empty_old : ℕ → EditError
  rejected_path : EditError
  unresolved_path : EditError
  file_not_found : EditError
  bad_size : EditError
  short_read : EditError
  no_match : ℕ → EditError
  many_matches : ℕ → ℕ → EditError
  overlap : ℕ → ℕ → EditError
  no_change : EditError
  cannot_write : EditError
  write_failed : EditError

-- Whether each allocation succeeds; `strings`, `old_norm` and `replacement` answer for an edit.
pub record Memory : Type 0 where
  pub path : Bool
  pub items : Bool
  pub strings : ℕ → Bool
  pub content : Bool
  pub norm : Bool
  pub matches : Bool
  pub old_norm : ℕ → Bool
  pub new_norm : Bool
  pub replacement : ℕ → Bool
  pub restored_text : Bool
  pub final : Bool

-- `strstr`, as an offset.
pub strstr : Bytes → Bytes → Option ℕ
unfolding has_prefix
strstr [] p = if has_prefix [] p then some 0 else none
strstr (c ∷ s) p =
    let rest = strstr s p in
    if has_prefix (c ∷ s) p then some 0 else elim rest [ none ↦ none | some i ↦ some (suc i) ]

-- The loop of the count; each round takes the needle, so the text's length and one more is fuel enough.
pub count_from : ℕ → Bytes → Bytes → ℕ
unfolding strstr
count_from zero p needle = 0
count_from (suc fuel) p needle = elim (strstr p needle) [
  | none ↦ 0
  | some i ↦ 1 + count_from fuel (drop (i + length needle) p) needle
]

-- `none` for an empty needle.
pub edit_count_occurrences : Bytes → Bytes → Option ℕ
unfolding count_from
edit_count_occurrences haystack needle =
    if length needle == 0 then none else some (count_from (length haystack + 1) haystack needle)

unfoldable pub edit_detect_ending : Bytes → Bool
unfolding strstr
edit_detect_ending text = elim (strstr text (b'\n' ∷ [])) [
  | none ↦ false
  | some lf ↦ elim (strstr text (b'\r' ∷ b'\n' ∷ [])) [ none ↦ false | some crlf ↦ ltb crlf lf ]
]

unfoldable pub edit_normalize_lf : Bytes → Bytes
edit_normalize_lf [] = []
edit_normalize_lf (c ∷ []) = (if c == b'\r' then b'\n' else c) ∷ []
edit_normalize_lf (c ∷ d ∷ s) = elim (c == b'\r' && d == b'\n') [
  | true ↦ b'\n' ∷ edit_normalize_lf s
  | false ↦ (if c == b'\r' then b'\n' else c) ∷ edit_normalize_lf (d ∷ s)
]

pub expand_lf : Bytes → Bytes
expand_lf [] = []
expand_lf (c ∷ s) = let rest = expand_lf s in if c == b'\n' then b'\r' ∷ b'\n' ∷ rest else c ∷ rest

unfoldable pub edit_restore_endings : Bytes → Bool → Bytes
unfolding expand_lf
edit_restore_endings text crlf = if crlf then expand_lf text else text

pub edit_line_norm_len : Bytes → ℕ
edit_line_norm_len [] = 0
edit_line_norm_len (c ∷ []) = 1
edit_line_norm_len (c ∷ d ∷ s) = elim (c == b'\r' && d == b'\n') [
  | true ↦ suc (edit_line_norm_len s)
  | false ↦ suc (edit_line_norm_len (d ∷ s))
]

-- One round of the matching.
pub find_edit : Memory → Bytes → ℕ → EditItem → EditError ⊎ EditMatch
unfolding edit_count_occurrences edit_line_norm_len strstr edit_normalize_lf
find_edit m norm i item =
    let norm_old : Bytes = edit_normalize_lf item.old_str in
    if not (m.old_norm i) then inl oom else elim (edit_count_occurrences norm norm_old) [
      | none ↦ inl oom
      | some count ↦
          if count == 0
          then inl (no_match i)
          else if ltb 1 count
          then inl (many_matches i count)
          else elim (strstr norm norm_old) [
            | none ↦ inl (no_match i)
            | some index ↦ inr (record {
              index = index;
              length = length norm_old;
              new_len = edit_line_norm_len item.new_str;
              edit_idx = i;
            })
          ]
    ]

pub match_edits : Memory → Bytes → ℕ → List EditItem → EditError ⊎ List EditMatch
unfolding find_edit
match_edits m norm i [] = inr []
match_edits m norm i (item ∷ items) = elim (find_edit m norm i item) [
  | inl e ↦ inl e
  | inr k ↦ elim (match_edits m norm (suc i) items) [ inl e ↦ inl e | inr ks ↦ inr (k ∷ ks) ]
]

-- The sorted part of the array, from its end to its start, with a match put in.
pub insert_match : EditMatch → List EditMatch → List EditMatch
insert_match m [] = m ∷ []
insert_match m (x ∷ xs) =
    let rest = insert_match m xs in if ltb m.index x.index then x ∷ rest else m ∷ x ∷ xs

-- The insertion sort; the result goes from the end of the array to its start.
pub sort_matches : List EditMatch → List EditMatch → List EditMatch
unfolding insert_match
sort_matches sorted [] = sorted
sort_matches sorted (m ∷ ms) = sort_matches (insert_match m sorted) ms

-- The first overlap in the order of the positions, for the sorted array from its end.
pub first_overlap : List EditMatch → Option (ℕ × ℕ)
first_overlap [] = none
first_overlap (m ∷ []) = none
first_overlap (m ∷ k ∷ ms) = elim (first_overlap (k ∷ ms)) [
  | some pair ↦ some pair
  | none ↦ if ltb m.index (k.index + k.length) then some (k.edit_idx, m.edit_idx) else none
]

abbrev pub no_item : EditItem
no_item = record { old_str = []; new_str = [] }

-- One replacement in the text.
pub replace_match : List EditItem → EditMatch → Bytes → Bytes
unfolding edit_normalize_lf
replace_match items m new_norm =
    take m.index new_norm
    ++ (edit_normalize_lf (get_or items m.edit_idx no_item).new_str
        ++ drop (m.index + m.length) new_norm)

-- The replacements, in the reverse order of the positions.
pub replace_all : Memory → List EditItem → Bytes → List EditMatch → EditError ⊎ Bytes
unfolding replace_match
replace_all m items new_norm [] = inr new_norm
replace_all m items new_norm (k ∷ ks) = elim (m.replacement k.edit_idx) [
  | true ↦ replace_all m items (replace_match items k new_norm) ks
  | false ↦ inl oom
]

-- The part of `edit_execute` between the normalized text and the new one.
unfoldable pub apply_edits : Memory → List EditItem → Bytes → EditError ⊎ Bytes
unfolding match_edits sort_matches first_overlap replace_all
apply_edits m items norm = if not m.matches then inl oom else elim (match_edits m norm 0 items) [
  | inl e ↦ inl e
  | inr ks ↦ elim (first_overlap (sort_matches [] ks)) [
    | some (i, j) ↦ inl (overlap i j)
    | none ↦ if m.new_norm then replace_all m items norm (sort_matches [] ks) else inl oom
  ]
]
