-- ===== src/Context.antt =====
-- src/agent/context.c: selecting and trimming the messages that go to the model.
-- Messages are values in a list, oldest first. `qsort` is a parameter; the outcomes of the
-- allocations and of `message_copy` are fields of `Env`. A result `none` of `array_read`, and so
-- of `apply_context_window`, is a read beyond the end of an array.
mod Tests
pub mod Trim
pub mod Pairs
pub mod Window
use Prim.Native.String.{String}
use text.Mathlib.Text.{◌==◌ as str_eq}
use echo_ai_c.Base.{
  ℕ, zero, suc, ◌+◌, ◌-◌, ◌*◌, ◌/◌, ◌%◌, ◌^◌, Bool, true, false, not, ◌&&◌, ◌||◌, List, [], ◌∷◌,
  Option, none, some, ltb, leb, ◌==◌, if◌then◌else◌, length, get_or, set, replicate, take, Bytes,
  min, map,
}
use mathlib.Core.List.{reverse}

-- `body` stands for the fields that this file only moves.
pub record Message : Type 0 where
  pub role : String
  pub content : Option Bytes
  pub body : ℕ

abbrev no_message : Message
no_message = record { role = ""; content = none; body = 0 }

pub is_system : Message → Bool
is_system m = str_eq m.role "system"

pub is_tool : Message → Bool
is_tool m = str_eq m.role "tool"

pub is_assistant : Message → Bool
is_assistant m = str_eq m.role "assistant"

pub record MsgScore : Type 0 where
  pub orig_index : ℕ
  pub priority_group : ℕ
  pub score : ℕ

-- Each flag says that the allocation succeeds; `copies m` that `message_copy` of `m` does.
pub record Env : Type 0 where
  pub calloc_copy : Bool
  pub calloc_scores : Bool
  pub calloc_flags : Bool
  pub calloc_selected : Bool
  pub calloc_keep : Bool
  pub calloc_trimmed : Bool
  pub copies : Message → Bool

-- `(int)(keep_count * 0.4)`, and 1 at least
pub recent_budget : ℕ → ℕ
recent_budget keep_count = let b = keep_count * 2 / 5 in if ltb b 1 then 1 else b

pub score_message : ℕ → ℕ → ℕ → Message → MsgScore
unfolding is_system is_tool
score_message count budget i m =
    if is_system m
    then record { orig_index = i; priority_group = 1; score = 0 }
    else if is_tool m
    then record { orig_index = i; priority_group = 2; score = i }
    else if leb count (i + budget)
    then record { orig_index = i; priority_group = 3; score = i + budget - count }
    else record { orig_index = i; priority_group = 4; score = i }

-- The first loop, from index `i` on.
pub score_from : ℕ → ℕ → ℕ → List Message → List MsgScore
unfolding score_message
score_from count budget i [] = []
score_from count budget i (m ∷ ms) =
    score_message count budget i m ∷ score_from count budget (i + 1) ms

pub record Selection : Type 0 where
  pub flags : List Bool
  pub selected_count : ℕ

-- `!selected_flags[idx - 1]`, a tool at `idx` and an assistant before it
keeps_pair : List Message → List Bool → ℕ → Bool
unfolding is_tool is_assistant
keeps_pair msgs flags idx =
    is_tool (get_or msgs idx no_message)
    && ltb 0 idx
    && not (get_or flags (idx - 1) false)
    && is_assistant (get_or msgs (idx - 1) no_message)

pub select_one : List Message → ℕ → Selection → Selection
unfolding keeps_pair
select_one msgs idx s =
    let flags = set s.flags idx true in
    if keeps_pair msgs flags idx
    then record { flags = set flags (idx - 1) true; selected_count = s.selected_count + 2 }
    else record { flags = flags; selected_count = s.selected_count + 1 }

-- Pass 1: the scores in sorted order, while fewer than `keep_count` are counted.
pub pass_one : List Message → ℕ → List MsgScore → Selection → Selection
unfolding select_one
pass_one msgs keep_count [] s = s
pass_one msgs keep_count (x ∷ xs) s =
    pass_one msgs keep_count xs
      (if ltb s.selected_count keep_count then select_one msgs x.orig_index s else s)

pub zip_flags : List Message → List Bool → List (Message × Bool)
zip_flags [] fs = []
zip_flags (m ∷ ms) [] = (m, false) ∷ zip_flags ms []
zip_flags (m ∷ ms) (f ∷ fs) = (m, f) ∷ zip_flags ms fs

-- Pass 2, and the same loop of `trim_messages_by_tokens_new`, at an index whose message follows
-- `(p, kp)`: a kept tool keeps the assistant before it, and a kept assistant the tool after it.
-- `owed` says that the message before the list is a kept assistant that the loop has visited.
pub repair_after : Message → Bool → Bool → List (Message × Bool) → List (Message × Bool)
unfolding is_tool is_assistant
repair_after p kp owed [] = (p, kp) ∷ []
repair_after p kp owed ((m, k) ∷ rest) =
    let k' = k || (owed && is_tool m) in
    (p, kp || (is_tool m && k' && is_assistant p)) ∷ repair_after m k' (is_assistant m && k') rest

-- The loop starts at index 1.
pub repair_pairs : List (Message × Bool) → List (Message × Bool)
unfolding repair_after
repair_pairs [] = []
repair_pairs ((m, k) ∷ rest) = repair_after m k false rest

pub kept : List (Message × Bool) → List Message
kept [] = []
kept ((m, k) ∷ rest) = let more = kept rest in if k then m ∷ more else more

-- The messages copied in order; NULL where one copy fails.
pub copy_all : Env → List Message → Option (List Message)
copy_all env [] = some []
copy_all env (m ∷ ms) =
    if env.copies m
    then (elim (copy_all env ms) [ none ↦ none | some copies ↦ some (m ∷ copies) ])
    else none

-- The flags after both passes.
pub marked : (List MsgScore → List MsgScore) → List Message → ℕ → List (Message × Bool)
unfolding recent_budget score_from pass_one zip_flags repair_pairs
marked qsort msgs keep_count =
    let count = length msgs in
    let scores = qsort (score_from count (recent_budget keep_count) 0 msgs) in
    let start : Selection = record { flags = replicate count false; selected_count = 0 } in
    repair_pairs (zip_flags msgs (pass_one msgs keep_count scores start).flags)

-- At most `keep_count` of the kept messages, the first ones; NULL if there is none.
copy_kept : Env → List Message → ℕ → Option (List Message)
unfolding copy_all
copy_kept env ms keep_count =
    let result_count = min (length ms) keep_count in
    if result_count == 0
    then none
    else if env.calloc_selected
    then copy_all env (take result_count ms)
    else none

pub smart_select : (List MsgScore → List MsgScore) → Env → List Message → ℕ → Option (List Message)
unfolding copy_all marked kept copy_kept
smart_select qsort env msgs keep_count =
    if leb (length msgs) keep_count
    then if env.calloc_copy then copy_all env msgs else none
    else if env.calloc_scores && env.calloc_flags
    then copy_kept env (kept (marked qsort msgs keep_count)) keep_count
    else none

pub estimate_tokens : Option Bytes → ℕ
estimate_tokens none = 0
estimate_tokens (some text) = length text / 4 + 1

pub total_tokens : List Message → ℕ
unfolding estimate_tokens
total_tokens [] = 0
total_tokens (m ∷ ms) = estimate_tokens m.content + total_tokens ms

-- The flags of a list whose newest message comes first: system messages are kept, and others
-- from the newest on while the budget lasts; the loop ends at the first that does not fit.
pub mark_recent : Bool → ℕ → List Message → List (Message × Bool)
unfolding estimate_tokens is_system
mark_recent ended budget [] = []
mark_recent ended budget (m ∷ ms) =
    let t = estimate_tokens m.content in
    let fits = not ended && not (is_system m) && leb t budget in
    (m, is_system m || fits)
    ∷ mark_recent (ended || (not (is_system m) && not fits)) (if fits then budget - t else budget)
        ms

-- The messages with their flags before the pairs are repaired, oldest first.
pub mark_budget : List Message → ℕ → List (Message × Bool)
unfolding mark_recent
mark_budget msgs max_tokens = reverse (mark_recent false max_tokens (reverse msgs))

-- The messages with their flags in `keep` when it is used.
pub trim_marks : List Message → ℕ → List (Message × Bool)
unfolding mark_budget repair_pairs
trim_marks msgs max_tokens = repair_pairs (mark_budget msgs max_tokens)

-- `trim_messages_by_tokens_new` on an array of `*count` messages.
pub trim_messages : Env → List Message → ℕ → List Message
unfolding total_tokens trim_marks kept
trim_messages env msgs max_tokens =
    if leb (total_tokens msgs) max_tokens
    then msgs
    else if env.calloc_keep && env.calloc_trimmed
    then kept (trim_marks msgs max_tokens)
    else msgs

-- The first `count` elements of an array; `none` if it has fewer.
pub array_read : List Message → ℕ → Option (List Message)
array_read msgs count = if leb count (length msgs) then some (take count msgs) else none

-- The loop of `apply_context_window` over the contents, with `size_t` arithmetic: `none` if it
-- sets `over`, and the total otherwise.
pub count_chars : ℕ → ℕ → List Message → Option ℕ
count_chars max_chars total [] = some total
count_chars max_chars total (m ∷ ms) = elim m.content [
  | none ↦ count_chars max_chars total ms
  | some text ↦ elim (ltb ((max_chars + 2 ^ 64 - length text) % 2 ^ 64) total) [
    | true ↦ none
    | false ↦ count_chars max_chars ((total + length text) % 2 ^ 64) ms
  ]
]

pub window_fits : List Message → ℕ → ℕ → Bool
unfolding count_chars
window_fits msgs max_messages max_chars =
    leb (length msgs) max_messages
    && (elim (count_chars max_chars 0 msgs) [ none ↦ false | some total ↦ leb total max_chars ])

pub apply_context_window :
    (List MsgScore → List MsgScore) → Env → List Message → ℕ → ℕ → Option (List Message)
unfolding window_fits smart_select trim_messages array_read
apply_context_window qsort env msgs max_messages max_chars =
    if window_fits msgs max_messages max_chars
    then some msgs
    else (elim (smart_select qsort env msgs max_messages) [
      | none ↦ some msgs
      | some selected ↦
          let tokens = if ltb (max_chars / 4) 1 then 1 else max_chars / 4 in
          let new_count = if ltb (length msgs) max_messages then length msgs else max_messages in
          elim (array_read selected new_count) [
            | none ↦ none
            | some read ↦ some (trim_messages env read tokens)
          ]
    ])
