-- ===== src/TuiInput/Keeps.antt =====
-- Each operation of the line editor keeps the cursor in the text and the text in the buffer.
use mathlib.Core.Option.{some-injective}
use echo_ai_c.Base.{
  ℕ, zero, suc, ◌+◌, ◌-◌, ◌≤◌, ◌≡◌, refl, subst, arith, Bool, true, false, not, [], Option, none,
  some, leb, ◌==◌, if◌then◌else◌, Bytes, length, ◌>>=◌, ℤ, pos, negsuc,
}
use echo_ai_c.TuiInput.{
  Editor, Alloc, cursor_left_cp, cursor_right_cp, cut, tui_input_backspace, tui_input_delete,
  repeat, tui_input_move, back_while, is_space_or_boundary, tui_input_delete_word,
  tui_input_set_text, tui_input_submit, show_entry, tui_input_history_back,
  tui_input_history_forward, walked,
}
use echo_ai_c.TuiInput.History.{HistoryRing, push_history}
use echo_ai_c.TuiInput.Inv.{
  EditorInv, set_text-EditorInv, cursor_left_cp-EditorInv, cursor_right_cp-EditorInv, cut-EditorInv,
  left_from-le, right_from-bounds, back_while-le,
}

cut_if-EditorInv :
    (none_left : Bool) (e : Editor) (from upto n : ℕ)
    → EditorInv e
    → from ≤ upto
    → upto ≤ length e.text
    → let r : Editor × ℕ =
        if none_left
        then (e, 0)
        else (record e { text = cut e.text from upto; cursor = from }, n) in
      EditorInv r.0
cut_if-EditorInv true e from upto n inv l m = inv
cut_if-EditorInv false e from upto n inv l m = cut-EditorInv e from upto inv l m

left-le : (e : Editor) → (cursor_left_cp e).cursor ≤ e.cursor
unfolding cursor_left_cp
left-le e = ground (arith, left_from-le e.text (e.cursor - 1))

right-le :
    (e : Editor)
    → EditorInv e
    → (e.cursor ≤ (cursor_right_cp e).cursor) × ((cursor_right_cp e).cursor ≤ length e.text)
unfolding cursor_right_cp
right-le e inv =
    ground (arith, right_from-bounds (length e.text - (e.cursor + 1)) e.text (e.cursor + 1))

pub backspace-EditorInv : (e : Editor) → EditorInv e → EditorInv (tui_input_backspace e).0
unfolding tui_input_backspace
backspace-EditorInv e inv =
    cut_if-EditorInv (e.cursor == 0) e (cursor_left_cp e).cursor e.cursor
      (e.cursor - (cursor_left_cp e).cursor) inv (left-le e) inv.0

right_cut-EditorInv :
    (none_left : Bool) (e : Editor) (upto n : ℕ)
    → EditorInv e
    → e.cursor ≤ upto
    → upto ≤ length e.text
    → let r : Editor × ℕ =
        if none_left then (e, 0) else (record e { text = cut e.text e.cursor upto }, n) in
      EditorInv r.0
right_cut-EditorInv none_left e upto n inv l m =
    cut_if-EditorInv none_left e e.cursor upto n inv l m

pub delete-EditorInv : (e : Editor) → EditorInv e → EditorInv (tui_input_delete e).0
unfolding tui_input_delete
delete-EditorInv e inv =
    right_cut-EditorInv (leb (length e.text) e.cursor) e (cursor_right_cp e).cursor
      ((cursor_right_cp e).cursor - e.cursor) inv (right-le e inv).0 (right-le e inv).1

pub delete_word-EditorInv : (e : Editor) → EditorInv e → EditorInv (tui_input_delete_word e).0
unfolding tui_input_delete_word
delete_word-EditorInv e inv =
    let blank : ℕ = back_while is_space_or_boundary e.text e.cursor in
    let word : ℕ = back_while (λ c. not (is_space_or_boundary c)) e.text blank in
    let low : word ≤ e.cursor = omega (
      arith,
      back_while-le is_space_or_boundary e.text e.cursor,
      back_while-le (λ c. not (is_space_or_boundary c)) e.text blank,
    ) in
    cut_if-EditorInv (e.cursor - word == 0) e word e.cursor (e.cursor - word) inv low inv.0

repeat-EditorInv :
    (f : Editor → Editor) (n : ℕ) (e : Editor)
    → ((e : Editor) → EditorInv e → EditorInv (f e))
    → EditorInv e
    → EditorInv (repeat f n e)
unfolding repeat
repeat-EditorInv f zero e h inv = inv
repeat-EditorInv f (suc n) e h inv = repeat-EditorInv f n (f e) h (h e inv)

pub move-EditorInv : (e : Editor) (n : ℤ) → EditorInv e → EditorInv (tui_input_move e n)
unfolding tui_input_move
move-EditorInv e (pos n) inv = repeat-EditorInv cursor_right_cp n e cursor_right_cp-EditorInv inv
move-EditorInv e (negsuc n) inv =
    repeat-EditorInv cursor_left_cp (suc n) e cursor_left_cp-EditorInv inv

shown-EditorInv :
    (e : Editor) (o : Option Editor)
    → EditorInv e
    → ((e' : Editor) → o ≡ some e' → EditorInv e')
    → EditorInv
        (elim o as (λ _. Option Bytes × Editor) [
          | none ↦ (none, e)
          | some e' ↦ (some e'.text, e')
        ]).1
shown-EditorInv e none inv h = inv
shown-EditorInv e (some e') inv h = h e' refl

walk_over-EditorInv :
    (e : Editor) (o : Option Editor)
    → EditorInv e
    → ((e' : Editor) → o ≡ some e' → EditorInv e')
    → EditorInv
        (elim o as (λ _. Option Bytes × Editor) [
          | none ↦ (none, e)
          | some e' ↦ (some e'.text, record e' { walking = false })
        ]).1
walk_over-EditorInv e none inv h = inv
walk_over-EditorInv e (some e') inv h = h e' refl

show_entry-EditorInv : (a : Alloc) (e : Editor) → EditorInv e → EditorInv (show_entry a e).1
unfolding show_entry
show_entry-EditorInv a e inv =
    shown-EditorInv e (tui_input_set_text a e (walked e e.history_walk)) inv
      (λ e' h. set_text-EditorInv a e e' (walked e e.history_walk) h)

if-EditorInv :
    (b : Bool) (x y : Option Bytes × Editor)
    → EditorInv x.1
    → EditorInv y.1
    → EditorInv (if b then x else y).1
if-EditorInv true x y h k = h
if-EditorInv false x y h k = k

pub back-EditorInv :
    (a : Alloc) (e : Editor) → EditorInv e → EditorInv (tui_input_history_back a e).1
unfolding tui_input_history_back
back-EditorInv a e inv =
    let first : Editor = record e {
      draft = if a.dup then some e.text else none;
      walking = true;
      history_walk = 0;
    } in
    let older : Editor = record e { history_walk = e.history_walk + 1 } in
    if-EditorInv (e.ring.history_count == 0) (none, e)
      (if not e.walking
        then show_entry a first
        else if leb (e.ring.history_count - 1) e.history_walk
        then (none, e)
        else show_entry a older)
      inv
      (if-EditorInv (not e.walking) (show_entry a first)
        (if leb (e.ring.history_count - 1) e.history_walk then (none, e) else show_entry a older)
        (show_entry-EditorInv a first inv)
        (if-EditorInv (leb (e.ring.history_count - 1) e.history_walk) (none, e) (show_entry a older)
          inv (show_entry-EditorInv a older inv)))

pub forward-EditorInv :
    (a : Alloc) (e : Editor) → EditorInv e → EditorInv (tui_input_history_forward a e).1
unfolding tui_input_history_forward
forward-EditorInv a e inv =
    let newer : Editor = record e { history_walk = e.history_walk - 1 } in
    let live : Option Bytes × Editor =
      elim (tui_input_set_text a e e.draft) as (λ _. Option Bytes × Editor) [
        | none ↦ (none, e)
        | some e' ↦ (some e'.text, record e' { walking = false })
      ] in
    if-EditorInv (not e.walking) (none, e)
      (if e.history_walk == 0 then live else show_entry a newer) inv
      (if-EditorInv (e.history_walk == 0) live (show_entry a newer)
        (walk_over-EditorInv e (tui_input_set_text a e e.draft) inv
          (λ e' h. set_text-EditorInv a e e' e.draft h))
        (show_entry-EditorInv a newer inv))

submitted-EditorInv :
    (e e' : Editor) (o : Option HistoryRing)
    → EditorInv e
    → let r : Option (Option Bytes × Editor) = o >>= λ ring. some (
      some e.text,
      record e { text = []; cursor = 0; ring = ring; walking = false; draft = none },
    ) in
      (r >>= λ r. some r.1) ≡ some e' → EditorInv e'
submitted-EditorInv e e' none inv h = absurd (ground (arith, h))
submitted-EditorInv e e' (some ring) inv h =
    let same : record e { text = []; cursor = 0; ring = ring; walking = false; draft = none } ≡ e' =
      some-injective _ _ h in
    subst EditorInv same (omega arith, omega (arith, inv.1))

pub kept-EditorInv : (e e' : Editor) → EditorInv e → some e ≡ some e' → EditorInv e'
kept-EditorInv e e' inv h = subst EditorInv (some-injective e e' h) inv

guarded-EditorInv :
    (empty out : Bool) (e e' : Editor) (full : Option (Option Bytes × Editor))
    → EditorInv e
    → ((full >>= λ r. some r.1) ≡ some e' → EditorInv e')
    → let r : Option (Option Bytes × Editor) =
        if empty then some (none, e) else if out then full else some (none, e) in
      (r >>= λ r. some r.1) ≡ some e' → EditorInv e'
guarded-EditorInv true out e e' full inv k h = kept-EditorInv e e' inv h
guarded-EditorInv false true e e' full inv k h = k h
guarded-EditorInv false false e e' full inv k h = kept-EditorInv e e' inv h

pub submit-EditorInv :
    (out line : Bool) (e e' : Editor)
    → EditorInv e
    → (tui_input_submit out line e >>= λ r. some r.1) ≡ some e'
    → EditorInv e'
unfolding tui_input_submit
submit-EditorInv out line e e' inv h =
    let pushed : Option HistoryRing = push_history line e.ring e.text in
    guarded-EditorInv (length e.text == 0) out e e'
      (pushed >>= λ ring. some (
        some e.text,
        record e { text = []; cursor = 0; ring = ring; walking = false; draft = none },
      ))
      inv (λ k. submitted-EditorInv e e' pushed inv k) h
