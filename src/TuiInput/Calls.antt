-- ===== src/TuiInput/Calls.antt =====
-- Sequences of calls on one editor: the cursor and the text stay in bounds through all of them.
use echo_ai_c.Base.{
  ◌≡◌, refl, arith, Bool, List, [], ◌∷◌, Option, none, some, Bytes, ◌>>=◌, Option-cases, inl, inr,
  ℤ,
}
use echo_ai_c.TuiInput.{
  Editor, Alloc, tui_input_insert, tui_input_backspace, tui_input_delete, tui_input_move,
  tui_input_home, tui_input_end, tui_input_clear, tui_input_delete_word, tui_input_set_text,
  tui_input_submit, tui_input_history_back, tui_input_history_forward, tui_input_reset_history_walk,
}
use echo_ai_c.TuiInput.Inv.{EditorInv, insert-EditorInv, set_text-EditorInv}
use echo_ai_c.TuiInput.Keeps.{
  backspace-EditorInv, delete-EditorInv, delete_word-EditorInv, move-EditorInv, back-EditorInv,
  forward-EditorInv, submit-EditorInv, kept-EditorInv,
}

-- A call, with the outcomes of its allocations.
pub data Call : Type 0 where
  insert : Alloc → Bytes → Call
  backspace : Call
  delete : Call
  delete_word : Call
  move : ℤ → Call
  home : Call
  end_key : Call
  clear : Call
  set_text : Alloc → Option Bytes → Call
  submit : Bool → Bool → Call
  history_back : Alloc → Call
  history_forward : Alloc → Call
  reset_walk : Call

abbrev or_same : Editor → Option Editor → Editor
or_same e none = e
or_same e (some e') = e'

-- The editor after a call; a call that answers -1 leaves it as it was, and `none` is a NULL given
-- to `strcmp`.
unfoldable pub apply : Call → Editor → Option Editor
unfolding tui_input_insert tui_input_backspace tui_input_delete tui_input_delete_word tui_input_move
    tui_input_home tui_input_end tui_input_clear tui_input_set_text tui_input_submit
    tui_input_history_back tui_input_history_forward tui_input_reset_history_walk
apply (insert a t) e = some (or_same e (tui_input_insert a e t))
apply backspace e = some (tui_input_backspace e).0
apply delete e = some (tui_input_delete e).0
apply delete_word e = some (tui_input_delete_word e).0
apply (move n) e = some (tui_input_move e n)
apply home e = some (tui_input_home e)
apply end_key e = some (tui_input_end e)
apply clear e = some (tui_input_clear e)
apply (set_text a t) e = some (or_same e (tui_input_set_text a e t))
apply (submit out line) e = tui_input_submit out line e >>= λ r. some r.1
apply (history_back a) e = some (tui_input_history_back a e).1
apply (history_forward a) e = some (tui_input_history_forward a e).1
apply reset_walk e = some (tui_input_reset_history_walk e)

unfoldable pub apply_all : List Call → Editor → Option Editor
unfolding apply
apply_all [] e = some e
apply_all (c ∷ cs) e = apply c e >>= λ e'. apply_all cs e'

or_same-EditorInv :
    (e : Editor) (o : Option Editor)
    → EditorInv e
    → ((e' : Editor) → o ≡ some e' → EditorInv e')
    → EditorInv (or_same e o)
or_same-EditorInv e none inv h = inv
or_same-EditorInv e (some e') inv h = h e' refl

-- A call keeps the cursor in the text and the text in the buffer.
pub apply-EditorInv : (c : Call) (e e' : Editor) → EditorInv e → apply c e ≡ some e' → EditorInv e'
unfolding apply
apply-EditorInv (insert a t) e e' inv h =
    kept-EditorInv (or_same e (tui_input_insert a e t)) e'
      (or_same-EditorInv e (tui_input_insert a e t) inv (λ e' h. insert-EditorInv a e e' t inv h)) h
apply-EditorInv backspace e e' inv h =
    kept-EditorInv (tui_input_backspace e).0 e' (backspace-EditorInv e inv) h
apply-EditorInv delete e e' inv h =
    kept-EditorInv (tui_input_delete e).0 e' (delete-EditorInv e inv) h
apply-EditorInv delete_word e e' inv h =
    kept-EditorInv (tui_input_delete_word e).0 e' (delete_word-EditorInv e inv) h
apply-EditorInv (move n) e e' inv h =
    kept-EditorInv (tui_input_move e n) e' (move-EditorInv e n inv) h
apply-EditorInv home e e' inv h = kept-EditorInv (tui_input_home e) e' (omega arith, inv.1) h
apply-EditorInv end_key e e' inv h = kept-EditorInv (tui_input_end e) e' (omega arith, inv.1) h
apply-EditorInv clear e e' inv h =
    kept-EditorInv (tui_input_clear e) e' (omega arith, omega (arith, inv.1)) h
apply-EditorInv (set_text a t) e e' inv h =
    kept-EditorInv (or_same e (tui_input_set_text a e t)) e'
      (or_same-EditorInv e (tui_input_set_text a e t) inv (λ e' h. set_text-EditorInv a e e' t h)) h
apply-EditorInv (submit out line) e e' inv h = submit-EditorInv out line e e' inv h
apply-EditorInv (history_back a) e e' inv h =
    kept-EditorInv (tui_input_history_back a e).1 e' (back-EditorInv a e inv) h
apply-EditorInv (history_forward a) e e' inv h =
    kept-EditorInv (tui_input_history_forward a e).1 e' (forward-EditorInv a e inv) h
apply-EditorInv reset_walk e e' inv h = kept-EditorInv (tui_input_reset_history_walk e) e' inv h

-- After every sequence of calls on an editor in bounds that does not fault, the cursor is in the
-- text, and the text with its NUL fits the buffer.
pub apply_all-EditorInv :
    (cs : List Call) (e e' : Editor) → EditorInv e → apply_all cs e ≡ some e' → EditorInv e'
unfolding apply_all
apply_all-EditorInv [] e e' inv h = kept-EditorInv e e' inv h
apply_all-EditorInv (c ∷ cs) e e' inv h = elim (Option-cases (apply c e)) [
  | inl n ↦ absurd (ground (arith, n, h))
  | inr next ↦
      apply_all-EditorInv cs next.0 e' (apply-EditorInv c e next.0 inv next.1)
        (ground (arith, next.1, h))
]
