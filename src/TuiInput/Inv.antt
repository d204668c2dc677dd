-- ===== src/TuiInput/Inv.antt =====
-- The cursor stays in the text, and the text with its NUL stays in the buffer.
use native.Mathlib.Nat.{mul-le-mul_right}
use echo_ai_c.Base.{
  ℕ, zero, suc, ◌+◌, ◌-◌, ◌*◌, ◌^◌, ◌<◌, ◌≤◌, min, ◌≡◌, refl, ◌∙◌, subst, arith, Bool, [], ◌++◌,
  Option, none, some, ◌==◌, if◌then◌else◌, Bytes, length, take, drop, length-take, length-drop,
  length-append, Option-cases, inl, inr, ◌>>=◌,
}
use echo_ai_c.TuiInput.{
  Editor, Alloc, grow_cap, grow_buffer, left_from, right_from, cursor_left_cp, cursor_right_cp,
  normalize_eols, put_text, insert_text, tui_input_insert, cut, back_while, tui_input_set_text,
}

abbrev pub EditorInv : Editor → Type 0
EditorInv e = (e.cursor ≤ length e.text) × (length e.text < e.cap)

lt_two_pow : (n : ℕ) → n < 2 ^ n
lt_two_pow zero = omega arith
lt_two_pow (suc n) = ground (arith, lt_two_pow n)

grow_cap-enough :
    (fuel room needed : ℕ) → needed ≤ room * 2 ^ fuel → needed ≤ grow_cap fuel room needed
unfolding grow_cap
grow_cap-enough zero room needed h = ground (arith, h)
grow_cap-enough (suc fuel) room needed h =
    let double : room * 2 * 2 ^ fuel ≡ room * 2 ^ suc fuel = grind arith in
    ground (arith, grow_cap-enough fuel (room * 2) needed (rw double h))

-- A growth that succeeds gives room for what is needed, and never takes room away.
pub grow_buffer-enough :
    (alloc : Bool) (room needed new : ℕ) → grow_buffer alloc room needed ≡ some new → needed ≤ new
unfolding grow_buffer
grow_buffer-enough alloc room needed new h =
    let start : ℕ = if room == 0 then 64 else room in
    let big : 1 ≤ start = ground arith in
    let enough : needed ≤ start * 2 ^ needed =
      grind (arith, lt_two_pow needed, mul-le-mul_right (2 ^ needed) big) in
    ground (arith, h, grow_cap-enough needed start needed enough)

pub left_from-le : (s : Bytes) (i : ℕ) → left_from s i ≤ i
unfolding left_from
left_from-le s zero = omega arith
left_from-le s (suc i) = ground (arith, left_from-le s i)

pub right_from-bounds :
    (rounds : ℕ) (s : Bytes) (i : ℕ)
    → (i ≤ right_from rounds s i) × (right_from rounds s i ≤ i + rounds)
unfolding right_from
right_from-bounds zero s i = ground arith
right_from-bounds (suc rounds) s i = ground (arith, right_from-bounds rounds s (i + 1))

pub back_while-le : (test : ℕ → Bool) (s : Bytes) (p : ℕ) → back_while test s p ≤ p
unfolding back_while
back_while-le test s zero = omega arith
back_while-le test s (suc p) = ground (arith, back_while-le test s p)

length-cut :
    (s : Bytes) (from upto : ℕ) → length (cut s from upto) ≡ min from (length s) + (length s - upto)
length-cut s from upto =
    length-append (take from s) (drop upto s) ∙ rw (length-take from s, length-drop upto s) refl

put_text-EditorInv :
    (e : Editor) (text : Bytes) (room : ℕ)
    → EditorInv e
    → length e.text + length text + 1 ≤ room
    → EditorInv (put_text e text room)
put_text-EditorInv e text room inv h =
    let long : length (put_text e text room).text ≡ length e.text + length text =
      length-append (take e.cursor e.text) (text ++ drop e.cursor e.text)
      ∙ rw
          (
            length-append text (drop e.cursor e.text),
            length-take e.cursor e.text,
            length-drop e.cursor e.text,
          )
          (omega (arith, inv.0)) in
    (omega (arith, long, inv.0), omega (arith, long, h))

pub cut-EditorInv :
    (e : Editor) (from upto : ℕ)
    → EditorInv e
    → from ≤ upto
    → upto ≤ length e.text
    → EditorInv (record e { text = cut e.text from upto; cursor = from })
cut-EditorInv e from upto inv l m = (
  omega (arith, length-cut e.text from upto, l, m),
  omega (arith, length-cut e.text from upto, l, m, inv.1),
)

-- A growth that succeeds, in the place where an operation waits for it.
after_growth :
    (alloc : Bool) (room needed : ℕ) (k : ℕ → Editor) (e' : Editor)
    → ((new : ℕ) → needed ≤ new → EditorInv (k new))
    → (grow_buffer alloc room needed >>= λ new. some (k new)) ≡ some e'
    → EditorInv e'
after_growth alloc room needed k e' good h = elim (Option-cases (grow_buffer alloc room needed)) [
  | inl n ↦ absurd (ground (arith, h, n))
  | inr found ↦
      let same : k found.0 ≡ e' = ground (arith, h, found.1) in
      subst EditorInv same (good found.0 (grow_buffer-enough alloc room needed found.0 found.1))
]

insert_text-EditorInv :
    (a : Alloc) (e e' : Editor) (t : Bytes)
    → EditorInv e
    → insert_text a e t ≡ some e'
    → EditorInv e'
unfolding insert_text
insert_text-EditorInv a e e' t inv h =
    after_growth a.grow e.cap (length e.text + length t + 1) (put_text e t) e'
      (λ new l. put_text-EditorInv e t new inv l) h

pub insert-EditorInv :
    (a : Alloc) (e e' : Editor) (t : Bytes)
    → EditorInv e
    → tui_input_insert a e t ≡ some e'
    → EditorInv e'
unfolding tui_input_insert
insert-EditorInv a e e' t inv h = ground (
  arith,
  h,
  insert_text-EditorInv a e e' t inv,
  insert_text-EditorInv a e e' (normalize_eols t) inv,
)

pub set_text-EditorInv :
    (a : Alloc) (e e' : Editor) (t : Option Bytes)
    → tui_input_set_text a e t ≡ some e'
    → EditorInv e'
unfolding tui_input_set_text
set_text-EditorInv a e e' none h =
    after_growth a.grow e.cap 1 (λ new. record e { text = []; cap = new; cursor = 0 }) e'
      (λ new l. (omega arith, omega (arith, l))) h
set_text-EditorInv a e e' (some s) h =
    after_growth a.grow e.cap (length s + 1)
      (λ new. record e { text = s; cap = new; cursor = length s }) e'
      (λ new l. (omega arith, omega (arith, l))) h

pub cursor_left_cp-EditorInv : (e : Editor) → EditorInv e → EditorInv (cursor_left_cp e)
unfolding cursor_left_cp
cursor_left_cp-EditorInv e inv = ground (arith, left_from-le e.text (e.cursor - 1))

pub cursor_right_cp-EditorInv : (e : Editor) → EditorInv e → EditorInv (cursor_right_cp e)
unfolding cursor_right_cp
cursor_right_cp-EditorInv e inv =
    ground (arith, right_from-bounds (length e.text - (e.cursor + 1)) e.text (e.cursor + 1))
