-- ===== src/TuiInput/Refine.antt =====
-- The circular history is a bounded list of lines, the oldest first.
use echo_ai_c.Base.{
  get_or-window, length-window, ℕ, zero, suc, ◌+◌, ◌-◌, ◌<◌, ◌≡◌, refl, sym, ap, ◌∙◌, arith, Bool,
  true, false, List, [], ◌∷◌, ◌++◌, map, none, some, ltb, ◌==◌, if◌then◌else◌, Bytes, bytes_eq,
  length, get_or, drop, Bool-cases, inl, inr,
}
use echo_ai_c.TuiInput.History.{HistoryRing, slot, add_slot, replace_slot, store, push_history}
use echo_ai_c.TuiInput.Slots.{
  RingInv, entries, entries-add_slot, entries-replace_slot, RingInv-store,
}

-- The bounded list: a line equal to the last one is not repeated, and where the list is full
-- its first line goes.
abbrev pub ends_with : List Bytes → Bytes → Bool
unfolding bytes_eq
ends_with [] line = false
ends_with (x ∷ []) line = bytes_eq x line
ends_with (x ∷ y ∷ xs) line = ends_with (y ∷ xs) line

abbrev pub bounded_push : ℕ → List Bytes → Bytes → List Bytes
bounded_push cap lines line =
    if ends_with lines line
    then lines
    else if ltb (length lines) cap
    then lines ++ (line ∷ [])
    else drop 1 lines ++ (line ∷ [])

map-some-append : (a b : List Bytes) → map some (a ++ b) ≡ map some a ++ map some b
map-some-append [] b = refl
map-some-append (x ∷ a) b = ap (◌∷◌ (some x)) (map-some-append a b)

map-some-drop : (a : List Bytes) → map some (drop 1 a) ≡ drop 1 (map some a)
map-some-drop [] = refl
map-some-drop (x ∷ a) = refl

length-map-some : (a : List Bytes) → length (map some a) ≡ length a
length-map-some [] = refl
length-map-some (x ∷ a) = ap suc (length-map-some a)

ends_with-last :
    (lines : List Bytes) (n : ℕ) (last line : Bytes)
    → length lines ≡ suc n
    → get_or (map some lines) n none ≡ some last
    → ends_with lines line ≡ bytes_eq last line
unfolding ends_with bytes_eq
ends_with-last [] n last line l e = absurd (omega (arith, l))
ends_with-last (x ∷ []) zero last line l e =
    ap (λ o. elim o as (λ _. Bool) [ none ↦ false | some v ↦ bytes_eq v line ]) e
ends_with-last (x ∷ []) (suc n) last line l e = absurd (omega (arith, l))
ends_with-last (x ∷ y ∷ lines) zero last line l e = absurd (omega (arith, l))
ends_with-last (x ∷ y ∷ lines) (suc n) last line l e =
    ends_with-last (y ∷ lines) n last line (omega (arith, l)) e

count_lines :
    (h : HistoryRing) (lines : List Bytes)
    → entries h ≡ map some lines
    → h.history_count ≡ length lines
count_lines h lines e =
    sym (length-window h.history_count (λ i. slot h (h.history_head + i)))
    ∙ ap length e
    ∙ length-map-some lines

entries-store_room :
    (h : HistoryRing) (lines : List Bytes) (line : Bytes)
    → RingInv h
    → entries h ≡ map some lines
    → h.history_count < h.history_cap
    → entries (add_slot h (some line)) ≡ map some (lines ++ (line ∷ []))
entries-store_room h lines line inv e room =
    entries-add_slot h (some line) inv room ∙ rw e (sym (map-some-append lines (line ∷ [])))

entries-store_full :
    (h : HistoryRing) (lines : List Bytes) (line : Bytes)
    → RingInv h
    → entries h ≡ map some lines
    → h.history_count ≡ h.history_cap
    → entries (replace_slot h (some line)) ≡ map some (drop 1 lines ++ (line ∷ []))
entries-store_full h lines line inv e full =
    entries-replace_slot (h.history_cap - 1) h (some line) inv (omega (arith, inv.head_in))
      (omega (arith, inv.head_in))
    ∙ rw (e, sym (map-some-drop lines)) (sym (map-some-append (drop 1 lines) (line ∷ [])))

store_lem :
    (h : HistoryRing) (lines : List Bytes) (line : Bytes)
    → RingInv h
    → entries h ≡ map some lines
    → entries (store true h line)
      ≡ map some (
          if ltb (length lines) h.history_cap
          then lines ++ (line ∷ [])
          else drop 1 lines ++ (line ∷ []))
store_lem h lines line inv e =
    rw (sym (count_lines h lines e)) (elim (Bool-cases (ltb h.history_count h.history_cap)) [
      | inl t ↦ rw t (entries-store_room h lines line inv e (ground (arith, t)))
      | inr f ↦ rw f (entries-store_full h lines line inv e (ground (arith, f, inv.count_in)))
    ])

newest :
    (h : HistoryRing) (lines : List Bytes) (last line : Bytes)
    → entries h ≡ map some lines
    → 0 < h.history_count
    → slot h (h.history_head + h.history_count - 1) ≡ some last
    → ends_with lines line ≡ bytes_eq last line
newest h lines last line e some_lines l =
    let n : ℕ = h.history_count - 1 in
    let same : h.history_head + h.history_count - 1 ≡ h.history_head + n =
      omega (arith, some_lines) in
    ends_with-last lines n last line (sym (count_lines h lines e) ∙ omega (arith, some_lines)) (
      ap (λ es. get_or es n none) (sym e)
      ∙ get_or-window h.history_count n (λ i. slot h (h.history_head + i)) none
          (omega (arith, some_lines))
      ∙ sym (ap (slot h) same)
      ∙ l)

get_or-map-some :
    (lines : List Bytes) (n : ℕ)
    → n < length lines
    → (v : Bytes) × (get_or (map some lines) n none ≡ some v)
get_or-map-some [] n l = absurd (omega (arith, l))
get_or-map-some (x ∷ lines) zero l = (x, refl)
get_or-map-some (x ∷ lines) (suc n) l = get_or-map-some lines n (omega (arith, l))

newest_some :
    (h : HistoryRing) (lines : List Bytes)
    → entries h ≡ map some lines
    → 0 < h.history_count
    → (last : Bytes) × (slot h (h.history_head + h.history_count - 1) ≡ some last)
newest_some h lines e some_lines =
    let n : ℕ = h.history_count - 1 in
    let same : h.history_head + h.history_count - 1 ≡ h.history_head + n =
      omega (arith, some_lines) in
    let found = get_or-map-some lines n (omega (arith, some_lines, count_lines h lines e)) in
    (
      found.0,
      ap (slot h) same
          ∙ sym (
              get_or-window h.history_count n (λ i. slot h (h.history_head + i)) none
                (omega (arith, some_lines)))
          ∙ ap (λ es. get_or es n none) e
          ∙ found.1,
    )

no_lines : (lines : List Bytes) (line : Bytes) → length lines ≡ 0 → ends_with lines line ≡ false
unfolding ends_with
no_lines [] line l = refl
no_lines (x ∷ lines) line l = absurd (omega (arith, l))

branch_push :
    (h : HistoryRing) (line last : Bytes) (ends : Bool)
    → h.history_cap == 0 ≡ false
    → ltb 0 h.history_count ≡ true
    → slot h (h.history_head + h.history_count - 1) ≡ some last
    → ends ≡ bytes_eq last line
    → push_history true h line ≡ some (if ends then h else store true h line)
unfolding push_history
branch_push h line last ends c t l e =
    rw (c, t, l, sym e)
      (elim ends
        as (λ b.
          (if b then some h else some (store true h line))
          ≡ some (if b then h else store true h line)) [ true ↦ refl | false ↦ refl ])

push_history_lem :
    (h : HistoryRing) (lines : List Bytes) (line : Bytes)
    → RingInv h
    → entries h ≡ map some lines
    → push_history true h line ≡ some (if ends_with lines line then h else store true h line)
unfolding push_history
push_history_lem h lines line inv e =
    let room : h.history_cap == 0 ≡ false = ground (arith, inv.head_in) in
    elim (Bool-cases (ltb 0 h.history_count)) [
      | inl t ↦
          let last = newest_some h lines e (ground (arith, t)) in
          branch_push h line last.0 (ends_with lines line) room t last.1
            (newest h lines last.0 line e (ground (arith, t)) last.1)
      | inr f ↦
          rw (no_lines lines line (sym (count_lines h lines e) ∙ ground (arith, f)), room, f) refl
    ]

-- A push, its copy made, onto a ring in bounds whose entries are all copies is the push onto the
-- bounded list of its lines, and leaves the ring in bounds.
pub push_history-bounded_push :
    (h : HistoryRing) (lines : List Bytes) (line : Bytes)
    → RingInv h
    → entries h ≡ map some lines
    → (h' : HistoryRing) × (push_history true h line ≡ some h')
      × RingInv h'
      × (entries h' ≡ map some (bounded_push h.history_cap lines line))
push_history-bounded_push h lines line inv e = elim (Bool-cases (ends_with lines line)) [
  | inl t ↦ (h, push_history_lem h lines line inv e ∙ rw t refl, inv, rw t e)
  | inr f ↦ (
    store true h line,
    push_history_lem h lines line inv e ∙ rw f refl,
    RingInv-store true h line inv,
    rw f (store_lem h lines line inv e),
  )
]
