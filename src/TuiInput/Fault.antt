-- ===== src/TuiInput/Fault.antt =====
-- What a failed copy of a history entry leads to.
use echo_ai_c.Base.{
  wrap_low, wrap_high, ℕ, ◌+◌, ◌-◌, ◌%◌, ◌<◌, ◌≡◌, refl, ◌∙◌, arith, Bool, true, false, none, some,
  ltb, ◌==◌, Bytes, bytes_eq, get_or-set_self, ◌>>=◌, Bool-cases, inl, inr,
}
use native.Mathlib.Nat.{mod-lt}
use echo_ai_c.TuiInput.History.{HistoryRing, slot, add_slot, replace_slot, store, push_history}
use echo_ai_c.TuiInput.Slots.{RingInv, around}

added_null :
    (h : HistoryRing)
    → RingInv h
    → slot (add_slot h none) (h.history_head + (h.history_count + 1) - 1) ≡ none
added_null h inv =
    let same : h.history_head + (h.history_count + 1) - 1 ≡ h.history_head + h.history_count =
      omega arith in
    rw same (
      get_or-set_self h.history ((h.history_head + h.history_count) % h.history_cap) none none
        (grind (arith, mod-lt, inv.allocated, inv.head_in)))

before_next : (head room : ℕ) → head < room → ((head + 1) % room + room - 1) % room ≡ head
before_next head room h = elim (Bool-cases (ltb (head + 1) room)) [
  | inl t ↦
      let low : (head + 1) % room ≡ head + 1 = wrap_low (head + 1) room (ground (arith, t)) in
      let same : head + 1 + room - 1 ≡ head + room = omega arith in
      rw (low, same) (around head room room h refl)
  | inr f ↦
      let high : (head + 1) % room ≡ 0 =
        wrap_high (head + 1) room (ground (arith, f)) (omega (arith, h)) ∙ ground (arith, f, h) in
      rw high (wrap_low (0 + room - 1) room (omega (arith, h)) ∙ ground (arith, f, h))
]

replaced_null :
    (h : HistoryRing)
    → RingInv h
    → h.history_count ≡ h.history_cap
    → slot (replace_slot h none) ((h.history_head + 1) % h.history_cap + h.history_count - 1) ≡ none
replaced_null h inv full =
    rw (full, before_next h.history_head h.history_cap inv.head_in)
      (get_or-set_self h.history h.history_head none none
        (omega (arith, inv.allocated, inv.head_in)))

newest_null :
    (h : HistoryRing) (line : Bytes)
    → RingInv h
    → 0 < h.history_count
    → let s : HistoryRing = store false h line in
      (slot s (s.history_head + s.history_count - 1) ≡ none)
      × (0 < s.history_count)
      × (s.history_cap ≡ h.history_cap)
newest_null h line inv l = elim (Bool-cases (ltb h.history_count h.history_cap)) [
  | inl t ↦ rw t (added_null h inv, omega arith, refl)
  | inr f ↦ rw f (replaced_null h inv (ground (arith, f, inv.count_in)), l, refl)
]

push_onto_null :
    (s : HistoryRing) (dup : Bool) (next : Bytes)
    → 0 < s.history_cap
    → 0 < s.history_count
    → slot s (s.history_head + s.history_count - 1) ≡ none
    → push_history dup s next ≡ none
unfolding push_history
push_onto_null s dup next c l e =
    let room : (s.history_cap == 0) ≡ false = ground (arith, c) in
    let held : ltb 0 s.history_count ≡ true = ground (arith, l) in rw (room, held, e) refl

stores :
    (h : HistoryRing) (last line : Bytes)
    → RingInv h
    → 0 < h.history_count
    → slot h (h.history_head + h.history_count - 1) ≡ some last
    → bytes_eq last line ≡ false
    → push_history false h line ≡ some (store false h line)
unfolding push_history
stores h last line inv l e d =
    let room : (h.history_cap == 0) ≡ false = ground (arith, inv.head_in) in
    let held : ltb 0 h.history_count ≡ true = ground (arith, l) in rw (room, held, e, d) refl

-- A line that is pushed when its copy fails is counted as a NULL entry, so that the next push, of
-- whatever line, gives this NULL to `strcmp`.
pub failed_copy_faults :
    (h : HistoryRing) (last line next : Bytes) (dup : Bool)
    → RingInv h
    → 0 < h.history_count
    → slot h (h.history_head + h.history_count - 1) ≡ some last
    → bytes_eq last line ≡ false
    → (push_history false h line >>= λ h'. push_history dup h' next) ≡ none
failed_copy_faults h last line next dup inv l e d =
    let null = newest_null h line inv l in
    rw (stores h last line inv l e d) (
      push_onto_null (store false h line) dup next (rw null.2 (omega (arith, inv.head_in))) null.1
        null.0)
