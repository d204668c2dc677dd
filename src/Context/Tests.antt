-- ===== src/Context/Tests.antt =====
-- Runs of the window, and its theorems at concrete inputs.
use Prim.Native.String.{String}
use echo_ai_c.Base.{
  ◌≡◌, refl, true, some, [], ◌∷◌, List, codes, Bool, ltb, ◌==◌, if◌then◌else◌, ◌||◌, ◌&&◌,
}
use echo_ai_c.Context.{
  Message, MsgScore, Env, marked, kept, trim_marks, trim_messages, smart_select,
}
use echo_ai_c.Context.Trim.{systems, trim_messages-keeps}
use echo_ai_c.Context.Pairs.{Paired, marks-Paired}
use echo_ai_c.Context.Window.{Plenty}

abbrev message : String → String → Message
message role text = record { role = role; content = some (codes text); body = 0 }

-- Insertion by `score_cmp`: a sort that C's `qsort` may be.
abbrev before : MsgScore → MsgScore → Bool
before a b =
    ltb a.priority_group b.priority_group
    || (a.priority_group == b.priority_group && ltb b.score a.score)

insert_score : MsgScore → List MsgScore → List MsgScore
insert_score a [] = a ∷ []
insert_score a (b ∷ bs) =
    let rest = insert_score a bs in if before b a then b ∷ rest else a ∷ b ∷ bs

sort_scores : List MsgScore → List MsgScore
unfolding insert_score
sort_scores [] = []
sort_scores (a ∷ as') = insert_score a (sort_scores as')

abbrev env : Env
env = record {
  calloc_copy = true;
  calloc_scores = true;
  calloc_flags = true;
  calloc_selected = true;
  calloc_keep = true;
  calloc_trimmed = true;
  copies = λ m. true;
}

env-Plenty : Plenty env
env-Plenty = record { scores_ok = refl; flags_ok = refl; selected_ok = refl; copies_ok = λ m. refl }

-- The end of a turn that called one tool.
abbrev turn : List Message
turn = message "user" "a" ∷ message "user" "b" ∷ message "assistant" "c" ∷ message "tool" "d" ∷ []

turn_short : kept (marked sort_scores turn 3) ≡ message "assistant" "c" ∷ message "tool" "d" ∷ []
unfolding marked kept sort_scores
turn_short = refl

trim_run :
    trim_messages env turn 3
    ≡ message "user" "b" ∷ message "assistant" "c" ∷ message "tool" "d" ∷ []
unfolding trim_messages
trim_run = refl

trim_messages-keeps_example : systems (trim_messages env turn 2) ≡ systems turn
trim_messages-keeps_example = (trim_messages-keeps env turn 2).0

marks-Paired_example : Paired (trim_marks turn 1)
marks-Paired_example = (marks-Paired sort_scores turn 1).1

select_run : smart_select sort_scores env turn 4 ≡ some turn
unfolding smart_select
select_run = refl
