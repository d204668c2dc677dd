-- ===== src/TuiInput/Tests.antt =====
-- Runs of the line editor on small texts.
use echo_ai_c.Base.{
  ◌≡◌, refl, arith, true, false, List, [], ◌∷◌, ◌++◌, none, some, map, codes, bytes_eq, has_byte,
  negsuc,
}
use echo_ai_c.TuiInput.{Editor, Alloc, tui_input_insert}
use echo_ai_c.TuiInput.History.{HistoryRing, empty_history, push_history}
use echo_ai_c.TuiInput.Slots.{RingInv, entries}
use echo_ai_c.TuiInput.Refine.{bounded_push, push_history-bounded_push}
use echo_ai_c.TuiInput.Inv.{EditorInv}
use echo_ai_c.TuiInput.Calls.{
  Call, insert, backspace, submit, history_back, history_forward, move, delete_word, apply_all,
  apply_all-EditorInv,
}

abbrev works : Alloc
works = record { grow = true; norm = true; dup = true }

abbrev start : Editor
start = record {
  text = codes "ab";
  cap = 64;
  cursor = 1;
  ring = empty_history 2;
  history_walk = 0;
  walking = false;
  draft = none;
}

-- A ring of two whose head has moved on.
abbrev two_lines : HistoryRing
two_lines = record {
  history_cap = 2;
  history_count = 2;
  history_head = 1;
  history = some (codes "new") ∷ some (codes "old") ∷ [];
}

two_lines-RingInv : RingInv two_lines
two_lines-RingInv = record { allocated = refl; head_in = omega arith; count_in = omega arith }

push_history-bounded_push_example :
    (h' : HistoryRing) × (push_history true two_lines (codes "x") ≡ some h')
    × RingInv h'
    × (entries h' ≡ map some (bounded_push 2 (codes "old" ∷ codes "new" ∷ []) (codes "x")))
push_history-bounded_push_example =
    push_history-bounded_push two_lines (codes "old" ∷ codes "new" ∷ []) (codes "x")
      two_lines-RingInv refl

abbrev calls : List Call
calls =
    insert works (codes "xy")
    ∷ backspace
    ∷ submit true true
    ∷ history_back works
    ∷ history_forward works
    ∷ insert works (codes "z w")
    ∷ move (negsuc 0)
    ∷ delete_word
    ∷ []

abbrev ended : Editor
ended = record {
  text = codes "w";
  cap = 64;
  cursor = 0;
  ring = record {
    history_cap = 2;
    history_count = 1;
    history_head = 0;
    history = some (codes "axb") ∷ none ∷ [];
  };
  history_walk = 0;
  walking = false;
  draft = some [];
}

calls_end : apply_all calls start ≡ some ended
unfolding apply_all has_byte bytes_eq empty_history
calls_end = refl

apply_all-EditorInv_example : EditorInv ended
apply_all-EditorInv_example =
    apply_all-EditorInv calls start ended (omega arith, omega arith) calls_end

abbrev at_one : Editor
at_one = record start { cursor = 1 }

abbrev accented : Editor
accented = record start { text = codes "a" ++ (195 ∷ 169 ∷ codes "b"); cursor = 3 }

put_accent : tui_input_insert works start (195 ∷ 169 ∷ []) ≡ some accented
unfolding tui_input_insert has_byte
put_accent = refl

abbrev pasted : Editor
pasted = record start { text = codes "ax\ny\nb"; cursor = 5 }

paste : tui_input_insert works start (codes "x\r\ny\r") ≡ some pasted
unfolding tui_input_insert has_byte
paste = refl
