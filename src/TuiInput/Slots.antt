-- ===== src/TuiInput/Slots.antt =====
-- The slots of the circular history in their order, and what a push does to them.
use native.Mathlib.Nat.{mod-lt}
use echo_ai_c.Base.{
  wrap_low, wrap_high, other_slot, window, window-cong, window-snoc, window-shift, next_slot, ℕ,
  suc, ◌+◌, ◌%◌, ◌<◌, ◌≤◌, ◌≡◌, ◌≢◌, refl, sym, ◌∙◌, arith, Bool, List, [], ◌∷◌, ◌++◌, Option, none,
  some, ltb, if◌then◌else◌, Bytes, length, drop, get_or-set_self, get_or-set_ne, length-set,
  Bool-cases, inl, inr,
}
use echo_ai_c.TuiInput.History.{HistoryRing, slot, add_slot, replace_slot, store}

pub record RingInv (h : HistoryRing) : Type 0 where
  pub allocated : length h.history ≡ h.history_cap
  pub head_in : h.history_head < h.history_cap
  pub count_in : h.history_count ≤ h.history_cap

-- The entries, the oldest first.
abbrev pub entries : HistoryRing → List (Option Bytes)
entries h = window (λ i. slot h (h.history_head + i)) h.history_count

pub entries-add_slot :
    (h : HistoryRing) (copy : Option Bytes)
    → RingInv h
    → h.history_count < h.history_cap
    → entries (add_slot h copy) ≡ entries h ++ (copy ∷ [])
entries-add_slot h copy inv room =
    let same : (i : ℕ)
        → i < h.history_count
        → slot (add_slot h copy) (h.history_head + i) ≡ slot h (h.history_head + i) =
      λ i l.
        get_or-set_ne h.history ((h.history_head + h.history_count) % h.history_cap)
          ((h.history_head + i) % h.history_cap) copy none
          (λ e.
            other_slot h.history_head i h.history_count h.history_cap inv.head_in l room (sym e)) in
    let new : slot (add_slot h copy) (h.history_head + h.history_count) ≡ copy =
      get_or-set_self h.history ((h.history_head + h.history_count) % h.history_cap) copy none
        (grind (arith, mod-lt, inv.allocated)) in
    window-snoc h.history_count (λ i. slot (add_slot h copy) (h.history_head + i))
    ∙ rw
        (
          window-cong h.history_count (λ i. slot (add_slot h copy) (h.history_head + i))
              (λ i. slot h (h.history_head + i)) same,
          new,
        )
        refl

pub around : (head n room : ℕ) → head < room → room ≡ n → (head + n) % room ≡ head
around head n room h e = grind (arith, wrap_high (head + n) room)

not_around : (head n room : ℕ) → head < room → 0 < n → n < room → head ≢ (head + n) % room
not_around head n room h l m = grind (arith, wrap_high (head + n) room, wrap_low (head + n) room)

pub entries-replace_slot :
    (n : ℕ) (h : HistoryRing) (copy : Option Bytes)
    → RingInv h
    → h.history_count ≡ suc n
    → h.history_cap ≡ suc n
    → entries (replace_slot h copy) ≡ drop 1 (entries h) ++ (copy ∷ [])
entries-replace_slot n h copy inv count full =
    let g : ℕ → Option Bytes =
      λ i. slot (replace_slot h copy) ((replace_slot h copy).history_head + i) in
    let kept : (i : ℕ) → i < n → g i ≡ slot h (h.history_head + suc i) = λ i l.
      rw (next_slot h.history_head i h.history_cap) (
        get_or-set_ne h.history h.history_head ((h.history_head + suc i) % h.history_cap) copy none
          (not_around h.history_head (suc i) h.history_cap inv.head_in (omega arith)
            (omega arith))) in
    let last : g n ≡ copy = rw (next_slot h.history_head n h.history_cap) (
      rw (around h.history_head (suc n) h.history_cap inv.head_in full) (
        get_or-set_self h.history h.history_head copy none
          (omega (arith, inv.allocated, inv.head_in)))) in
    rw count (window-shift n (λ i. slot h (h.history_head + i)) g copy kept last)

RingInv-add_slot :
    (h : HistoryRing) (copy : Option Bytes)
    → RingInv h
    → h.history_count < h.history_cap
    → RingInv (add_slot h copy)
RingInv-add_slot h copy inv room = record {
  allocated =
      length-set h.history ((h.history_head + h.history_count) % h.history_cap) copy
      ∙ inv.allocated;
  head_in = inv.head_in;
  count_in = omega arith;
}

RingInv-replace_slot :
    (h : HistoryRing) (copy : Option Bytes) → RingInv h → RingInv (replace_slot h copy)
RingInv-replace_slot h copy inv = record {
  allocated = length-set h.history h.history_head copy ∙ inv.allocated;
  head_in = grind (arith, mod-lt, inv.head_in);
  count_in = inv.count_in;
}

pub RingInv-store :
    (dup : Bool) (h : HistoryRing) (line : Bytes) → RingInv h → RingInv (store dup h line)
RingInv-store dup h line inv = elim (Bool-cases (ltb h.history_count h.history_cap)) [
  | inl t ↦ rw t (RingInv-add_slot h (if dup then some line else none) inv (ground (arith, t)))
  | inr f ↦ rw f (RingInv-replace_slot h (if dup then some line else none) inv)
]
