-- ===== src/Edit/Tests.antt =====
-- Runs of the edit tool, and its theorems at concrete inputs.
use echo_ai_c.Base.{
  arith, ◌≡◌, ◌≢◌, inl, inr, refl, true, none, some, List, [], ◌∷◌, ◌++◌, Bytes, codes, bytes_eq,
  has_byte, if◌then◌else◌,
}
use echo_ai_c.Safety.{SafetyConfig, safety_config_create}
use echo_ai_c.Safety.Resolve.{found}
use echo_ai_c.Edit.{
  EditItem, overlap, Memory, edit_count_occurrences, edit_normalize_lf, edit_restore_endings,
  apply_edits,
}
use echo_ai_c.Edit.Lines.{Holds, edit_norm_line_of, edit_norm_line_of-Holds}
use echo_ai_c.Edit.Endings.{edit_restore_endings-edit_normalize_lf}
use echo_ai_c.Edit.Execute.{Args, EditEnv, FileSystem, new_content, edit_execute}
use echo_ai_c.Edit.Execute.Content.{new_content-weave}
use echo_ai_c.Edit.Execute.Effects.{Effect, edit_execute-Effect}

abbrev plenty : Memory
plenty = record {
  path = true;
  items = true;
  strings = λ i. true;
  content = true;
  norm = true;
  matches = true;
  old_norm = λ i. true;
  new_norm = true;
  replacement = λ i. true;
  restored_text = true;
  final = true;
}

abbrev change : Bytes → Bytes → EditItem
change old new = record { old_str = old; new_str = new }

abbrev two_changes : List EditItem
two_changes = change (codes "c") (codes "C") ∷ change (codes "a\n") (codes "AA\n") ∷ []

abbrev before_edit : Bytes
before_edit = codes "a\r\nb\r\nc"

abbrev after_edit : Bytes
after_edit = codes "AA\r\nb\r\nC"

two_run : new_content plenty two_changes before_edit ≡ inr after_edit
unfolding new_content
two_run = refl

-- Occurrences that overlap are counted once.
overlapping_count : edit_count_occurrences (codes "aaa") (codes "aa") ≡ some 1
unfolding edit_count_occurrences
overlapping_count = refl

-- A file with a NUL is cut there by any edit.
nul_cuts :
    new_content plenty (change (codes "a") (codes "b") ∷ []) (codes "xa" ++ (0 ∷ codes "rest"))
    ≡ inr (codes "xb")
unfolding new_content
nul_cuts = refl

-- A line that ends in a line feed in a file whose first line ends in a pair gets a pair.
mixed_endings :
    new_content plenty (change (codes "a") (codes "b") ∷ []) (codes "a\r\nc\nd")
    ≡ inr (codes "b\r\nc\r\nd")
unfolding new_content
mixed_endings = refl

overlaps_refused :
    apply_edits plenty (change (codes "bc") [] ∷ change (codes "ab") [] ∷ []) (codes "abc")
    ≡ inl (overlap 1 0)
unfolding apply_edits
overlaps_refused = refl

new_content-weave_example : after_edit ≢ before_edit
new_content-weave_example = (new_content-weave plenty two_changes before_edit after_edit two_run).5

edit_restore_endings-edit_normalize_lf_example :
    edit_normalize_lf (edit_restore_endings (codes "a\nb") true) ≡ codes "a\nb"
unfolding has_byte
edit_restore_endings-edit_normalize_lf_example =
    (edit_restore_endings-edit_normalize_lf (codes "a\nb") true refl).0

abbrev config : SafetyConfig
config = record safety_config_create { workspace = some (codes "/w") }

abbrev files : FileSystem
files p = if bytes_eq p (codes "/w/f") then some before_edit else none

abbrev args : Args
args = record {
  path = some (codes "f");
  edits = none;
  flat = some (change (codes "b") (codes "B"));
}

abbrev env : EditEnv
env = record {
  cjson = λ s. some args;
  realpath = found;
  pid = codes "7";
  seek = true;
  read_all = true;
  write = record { named = true; opened = true; wrote = 7; closed = true; renamed = true };
}

edit_run : (edit_execute env plenty config files []).1 ≡ inr (1, 7)
unfolding edit_execute
edit_run = refl

edit_execute-Effect_example :
    Effect env plenty config files [] (edit_execute env plenty config files [])
edit_execute-Effect_example = edit_execute-Effect env plenty config files []

edit_norm_line_of-Holds_example :
    Holds (0 ∷ 3 ∷ 5 ∷ 9 ∷ []) 6 3 (edit_norm_line_of (0 ∷ 3 ∷ 5 ∷ 9 ∷ []) 3 6)
edit_norm_line_of-Holds_example =
    (edit_norm_line_of-Holds (0 ∷ 3 ∷ 5 ∷ 9 ∷ []) 3 6 7 (omega arith) (omega arith) (omega arith)).0
