-- ===== src/Context/Pairs.antt =====
-- Tool results and the assistant messages that called the tools.
use text.Mathlib.TextEquality.{eq_iff}
use echo_ai_c.Base.{ℕ, ◌+◌, ◌≤◌, ◌<◌, ◌≡◌, arith, Bool, true, false, List, [], ◌∷◌}
use echo_ai_c.Context.{
  Message, is_system, is_tool, is_assistant, repair_after, repair_pairs, kept, estimate_tokens,
  mark_recent, mark_budget, trim_marks, marked, MsgScore,
}
use echo_ai_c.Context.Trim.{Marks}

-- Wherever an assistant message stands directly before a tool message: if the tool message is kept,
-- so is the assistant.
pub data Paired : Marks → Type 0 where
  end : Paired []
  one : {x : Message × Bool} → Paired (x ∷ [])
  more :
      {x y : Message × Bool} {xs : Marks}
      → (is_assistant x.0 ≡ true → is_tool y.0 ≡ true → y.1 ≡ true → x.1 ≡ true)
      → Paired (y ∷ xs)
      → Paired (x ∷ y ∷ xs)

one_role : (m : Message) → is_tool m ≡ true → is_assistant m ≡ false
unfolding is_tool is_assistant
one_role m h =
    ground (arith, eq_iff m.role "tool", eq_iff m.role "assistant", eq_iff "tool" "assistant")

no_system : (m : Message) → is_tool m ≡ true → is_system m ≡ false
unfolding is_tool is_system
no_system m h = ground (arith, eq_iff m.role "tool", eq_iff m.role "system", eq_iff "tool" "system")

assistant_no_system :
    (m : Message) → is_assistant m ≡ true → (is_system m ≡ false) × (is_tool m ≡ false)
unfolding is_assistant is_system is_tool
assistant_no_system m h = ground (
  arith,
  eq_iff m.role "assistant",
  eq_iff m.role "system",
  eq_iff m.role "tool",
  eq_iff "assistant" "system",
  eq_iff "assistant" "tool",
)

repair_after-Paired :
    (p : Message) (kp owed : Bool) (xs : Marks) → Paired (repair_after p kp owed xs)
unfolding repair_after
repair_after-Paired p kp owed [] = one
repair_after-Paired p kp owed ((m, k) ∷ []) = more (λ a t h. ground arith) one
repair_after-Paired p kp owed ((m, k) ∷ (n, l) ∷ xs) =
    more (λ a t h. ground (arith, one_role m)) (repair_after-Paired m _ _ ((n, l) ∷ xs))

repair_pairs-Paired : (xs : Marks) → Paired (repair_pairs xs)
unfolding repair_pairs
repair_pairs-Paired [] = end
repair_pairs-Paired ((m, k) ∷ xs) = repair_after-Paired m k false xs

-- Both ways of dropping messages, the selection by priority and the trimming by tokens, keep an
-- assistant message whenever they keep a tool message directly behind it.
pub marks-Paired :
    (qsort : List MsgScore → List MsgScore) (ms : List Message) (n : ℕ)
    → Paired (marked qsort ms n) × Paired (trim_marks ms n)
unfolding marked trim_marks
marks-Paired qsort ms n = (repair_pairs-Paired _, repair_pairs-Paired (mark_budget ms n))

-- A second tool result of the same assistant message is not covered: if the budget holds the
-- last result and not the one before, the last result is all that is kept.
pub second_result_orphaned :
    (a t u : Message) (b : ℕ)
    → is_assistant a ≡ true
    → is_tool t ≡ true
    → is_tool u ≡ true
    → estimate_tokens u.content ≤ b
    → b < estimate_tokens u.content + estimate_tokens t.content
    → kept (trim_marks (a ∷ t ∷ u ∷ []) b) ≡ u ∷ []
unfolding trim_marks mark_budget repair_pairs repair_after mark_recent kept
second_result_orphaned a t u b ha ht hu fits over =
    ground (arith, one_role t, one_role u, no_system t, no_system u, assistant_no_system a)
