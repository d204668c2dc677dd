-- ===== src/TuiInput/History.antt =====
-- The circular history of src/tui/tui_input.c, and the bounded list that it stands for.
use echo_ai_c.Base.{
  ℕ, ◌+◌, ◌-◌, ◌%◌, Bool, List, Option, none, some, ltb, ◌==◌, if◌then◌else◌, Bytes, bytes_eq,
  get_or, set, replicate,
}

pub record HistoryRing : Type 0 where
  pub history_cap : ℕ
  pub history_count : ℕ
  pub history_head : ℕ
  pub history : List (Option Bytes)

unfoldable pub empty_history : ℕ → HistoryRing
empty_history cap = record {
  history_cap = cap;
  history_count = 0;
  history_head = 0;
  history = replicate cap none;
}

-- `history[i % history_cap]`
abbrev pub slot : HistoryRing → ℕ → Option Bytes
slot h i = get_or h.history (i % h.history_cap) none

-- The write of the new entry after the last one, and over the oldest one.
abbrev pub add_slot : HistoryRing → Option Bytes → HistoryRing
add_slot h copy = record h {
  history_count = h.history_count + 1;
  history = set h.history ((h.history_head + h.history_count) % h.history_cap) copy;
}

abbrev pub replace_slot : HistoryRing → Option Bytes → HistoryRing
replace_slot h copy = record h {
  history_head = (h.history_head + 1) % h.history_cap;
  history = set h.history h.history_head copy;
}

-- NULL is stored where the copy fails.
abbrev pub store : Bool → HistoryRing → Bytes → HistoryRing
store dup h line =
    let copy : Option Bytes = if dup then some line else none in
    if ltb h.history_count h.history_cap then add_slot h copy else replace_slot h copy

-- `none` where `strcmp` is given the NULL of an entry whose copy failed.
unfoldable pub push_history : Bool → HistoryRing → Bytes → Option HistoryRing
unfolding bytes_eq
push_history dup h line =
    if h.history_cap == 0
    then some h
    else if ltb 0 h.history_count
    then (elim (slot h (h.history_head + h.history_count - 1)) [
      | none ↦ none
      | some last ↦ if bytes_eq last line then some h else some (store dup h line)
    ])
    else some (store dup h line)
