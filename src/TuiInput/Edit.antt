-- ===== src/TuiInput/Edit.antt =====
-- What an insertion puts in the buffer, and that backspace takes a whole character out again.
use echo_ai_c.Base.{
  ℕ, zero, suc, ◌+◌, ◌-◌, ◌/◌, ◌%◌, ◌<◌, ◌≤◌, ◌≡◌, ◌≢◌, refl, sym, ap, ◌∙◌, subst, arith, Bool,
  true, false, [], ◌∷◌, ◌++◌, Option, none, some, ◌==◌, if◌then◌else◌, Bytes, length, get_or, take,
  drop, All, has_byte, length-append, length-take, take-append, drop-append, take-append-drop,
  append_assoc, Option-cases, Bool-cases, inl, inr,
}
use echo_ai_c.TuiInput.{
  Editor, Alloc, grow_buffer, is_continuation, left_from, cursor_left_cp, normalize_eols,
  insert_text, put_text, tui_input_insert, cut, tui_input_backspace,
}

normalize_eols-clean : (t : Bytes) → has_byte (normalize_eols t) b'\r' ≡ false
unfolding normalize_eols has_byte
normalize_eols-clean [] = refl
normalize_eols-clean (c ∷ []) = ground arith
normalize_eols-clean (c ∷ d ∷ cs) =
    ground (arith, normalize_eols-clean cs, normalize_eols-clean (d ∷ cs))

normalize_eols_same : (t : Bytes) → has_byte t b'\r' ≡ false → normalize_eols t ≡ t
unfolding normalize_eols has_byte
normalize_eols_same [] h = refl
normalize_eols_same (c ∷ []) h = ground (arith, h)
normalize_eols_same (c ∷ d ∷ cs) h =
    let tail : has_byte (d ∷ cs) b'\r' ≡ false = ground (arith, h) in
    ground (arith, h, normalize_eols_same (d ∷ cs) tail)

insert_text_lem :
    (a : Alloc) (e e' : Editor) (t : Bytes)
    → insert_text a e t ≡ some e'
    → (e'.text ≡ take e.cursor e.text ++ (t ++ drop e.cursor e.text))
      × (e'.cursor ≡ e.cursor + length t)
unfolding insert_text
insert_text_lem a e e' t h =
    elim (Option-cases (grow_buffer a.grow e.cap (length e.text + length t + 1))) [
      | inl n ↦ absurd (ground (arith, h, n))
      | inr found ↦
          let same : put_text e t found.0 ≡ e' = ground (arith, h, found.1) in
          subst
            (λ x.
              (x.text ≡ take e.cursor e.text ++ (t ++ drop e.cursor e.text))
              × (x.cursor ≡ e.cursor + length t))
            same (refl, refl)
    ]

append_nothing : (n : ℕ) (s : Bytes) → take n s ++ ([] ++ drop n s) ≡ s
append_nothing n s = take-append-drop n s

plain :
    (a : Alloc) (e e' : Editor) (t : Bytes)
    → tui_input_insert a e t ≡ some e'
    → has_byte t b'\r' ≡ false
    → (e'.text ≡ take e.cursor e.text ++ (t ++ drop e.cursor e.text))
      × (e'.cursor ≡ e.cursor + length t)
      × (has_byte t b'\r' ≡ false)
unfolding tui_input_insert
plain a e e' [] h c =
    let same : e ≡ e' = ground (arith, h) in
    subst
      (λ x.
        (x.text ≡ take e.cursor e.text ++ ([] ++ drop e.cursor e.text))
        × (x.cursor ≡ e.cursor + 0)
        × (has_byte [] b'\r' ≡ false))
      same (sym (append_nothing e.cursor e.text), omega arith, c)
plain a e e' (x ∷ t) h c =
    let put = insert_text_lem a e e' (x ∷ t) (ground (arith, h, c)) in (put.0, put.1, c)

guarded :
    {empty cr : Bool} (norm : Bool) (same x y : Option Editor) (e' : Editor)
    → empty ≡ false
    → cr ≡ true
    → (if empty then same else if cr then if norm then x else none else y) ≡ some e'
    → x ≡ some e'
guarded norm same x y e' f c h = ground (arith, f, c, h)

has_byte_nothing : (t : Bytes) → has_byte t b'\r' ≡ true → length t == 0 ≡ true → ⊥
unfolding has_byte
has_byte_nothing [] h l = ground (arith, h)
has_byte_nothing (x ∷ t) h l = ground (arith, l)

normalizing :
    (a : Alloc) (e e' : Editor) (t : Bytes)
    → has_byte t b'\r' ≡ true
    → tui_input_insert a e t ≡ some e'
    → insert_text a e (normalize_eols t) ≡ some e'
unfolding tui_input_insert
normalizing a e e' t c h = elim (Bool-cases (length t == 0)) [
  | inl empty ↦ absurd (has_byte_nothing t c empty)
  | inr more ↦
      guarded a.norm (some e) (insert_text a e (normalize_eols t)) (insert_text a e t) e' more c h
]

nothing_clean : has_byte [] b'\r' ≡ false
unfolding has_byte
nothing_clean = refl

-- An insertion that succeeds puts the text at the cursor, each CRLF and each other CR as one LF,
-- and leaves the cursor after it; the text put there has no CR.
pub tui_input_insert-normalize_eols :
    (a : Alloc) (e e' : Editor) (t : Bytes)
    → tui_input_insert a e t ≡ some e'
    → (e'.text ≡ take e.cursor e.text ++ (normalize_eols t ++ drop e.cursor e.text))
      × (e'.cursor ≡ e.cursor + length (normalize_eols t))
      × (has_byte (normalize_eols t) b'\r' ≡ false)
unfolding tui_input_insert
tui_input_insert-normalize_eols a e e' [] h = plain a e e' [] h nothing_clean
tui_input_insert-normalize_eols a e e' (x ∷ t) h = elim (Bool-cases (has_byte (x ∷ t) b'\r')) [
  | inl c ↦
      let put = insert_text_lem a e e' (normalize_eols (x ∷ t)) (normalizing a e e' (x ∷ t) c h) in
      (put.0, put.1, normalize_eols-clean (x ∷ t))
  | inr c ↦ rw (normalize_eols_same (x ∷ t) c) (plain a e e' (x ∷ t) h c)
]

left_from_reach :
    (s : Bytes) (n i : ℕ)
    → ((j : ℕ) → j < n → is_continuation s (i + suc j) ≡ true)
    → is_continuation s i ≡ false
    → left_from s (i + n) ≡ i
unfolding left_from
left_from_reach s zero zero h k = refl
left_from_reach s zero (suc i) h k = let same : suc i + 0 ≡ suc i = omega arith in rw (same, k) refl
left_from_reach s (suc n) i h k =
    let same : i + suc n ≡ suc (i + n) = omega arith in
    let last : is_continuation s (suc (i + n)) ≡ true = rw (sym same) (h n (omega arith)) in
    rw (same, last) (left_from_reach s n i (λ j l. h j (omega (arith, l))) k)

-- 10xxxxxx
abbrev pub IsContinuation : ℕ → Type 0
IsContinuation b = b / 64 % 4 ≡ 2

get_or-append_right : (a b : Bytes) (i : ℕ) → get_or (a ++ b) (length a + i) 0 ≡ get_or b i 0
get_or-append_right [] b i = let same : 0 + i ≡ i = omega arith in rw same refl
get_or-append_right (x ∷ a) b i =
    let same : length (x ∷ a) + i ≡ suc (length a + i) = omega arith in
    rw same (get_or-append_right a b i)

get_or-All :
    (cs b : Bytes) (j : ℕ)
    → All IsContinuation cs
    → j < length cs
    → IsContinuation (get_or (cs ++ b) j 0)
get_or-All [] b j h l = absurd (omega (arith, l))
get_or-All (c ∷ cs) b zero h l = h.0
get_or-All (c ∷ cs) b (suc j) h l = get_or-All cs b j h.1 (omega (arith, l))

left_over :
    (before after cs : Bytes) (c : ℕ)
    → c / 64 % 4 ≢ 2
    → All IsContinuation cs
    → left_from (before ++ ((c ∷ cs) ++ after)) (length before + length cs) ≡ length before
left_over before after cs c h k =
    let text : Bytes = before ++ ((c ∷ cs) ++ after) in
    let at : (i : ℕ) → get_or text (length before + i) 0 ≡ get_or ((c ∷ cs) ++ after) i 0 =
      get_or-append_right before ((c ∷ cs) ++ after) in
    let first : get_or text (length before) 0 ≡ c =
      ap (λ i. get_or text i 0) (omega arith) ∙ at 0 in
    left_from_reach text (length cs) (length before)
      (λ j l. ground (arith, at (suc j), get_or-All cs after j k l)) (ground (arith, first, h))

split_around : (s : Bytes) (k : ℕ) → k ≤ length s → length (take k s) ≡ k
split_around s k l = length-take k s ∙ omega (arith, l)

cut_out :
    (s t : Bytes) (k : ℕ) → k ≤ length s → cut (take k s ++ (t ++ drop k s)) k (k + length t) ≡ s
cut_out s t k l =
    let before : Bytes = take k s in
    let long : k + length t ≡ length (before ++ t) =
      sym (length-append before t ∙ ap (λ n. n + length t) (split_around s k l)) in
    rw (take-append before (t ++ drop k s) k (sym (split_around s k l))) (
      ap (λ r. before ++ drop (k + length t) r) (sym (append_assoc before t (drop k s)))
      ∙ ap (◌++◌ before) (drop-append (before ++ t) (drop k s) (k + length t) long)
      ∙ take-append-drop k s)

-- Inserting one character, a byte that starts it and its continuation bytes, and then deleting
-- backwards gives the text and the cursor back, with the character's length as the count.
pub backspace-insert :
    (a : Alloc) (e e' : Editor) (c : ℕ) (cs : Bytes)
    → e.cursor ≤ length e.text
    → c / 64 % 4 ≢ 2
    → All IsContinuation cs
    → has_byte (c ∷ cs) b'\r' ≡ false
    → tui_input_insert a e (c ∷ cs) ≡ some e'
    → let b : Editor × ℕ = tui_input_backspace e' in
      (b.0.text ≡ e.text) × (b.0.cursor ≡ e.cursor) × (b.1 ≡ suc (length cs))
unfolding tui_input_backspace cursor_left_cp
backspace-insert a e e' c cs l h k clean put =
    let done = plain a e e' (c ∷ cs) put clean in
    let after : e'.cursor - 1 ≡ length (take e.cursor e.text) + length cs =
      omega (arith, done.1, split_around e.text e.cursor l) in
    let left : left_from e'.text (e'.cursor - 1) ≡ e.cursor =
      ap (left_from e'.text) after
      ∙ ap (λ s. left_from s (length (take e.cursor e.text) + length cs)) done.0
      ∙ left_over (take e.cursor e.text) (drop e.cursor e.text) cs c h k
      ∙ split_around e.text e.cursor l in
    let some_before : (e'.cursor == 0) ≡ false = ground (arith, done.1) in
    rw (some_before, left)
      (rw (done.0, done.1) (cut_out e.text (c ∷ cs) e.cursor l), refl, omega (arith, done.1))
