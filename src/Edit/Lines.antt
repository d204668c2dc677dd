-- ===== src/Edit/Lines.antt =====
-- The lines of a text in the diff of an edit: which line holds an offset.
use echo_ai_c.Base.{
  ℕ, zero, suc, ◌+◌, ◌-◌, ◌/◌, ◌<◌, ◌≤◌, ◌≡◌, ◌⊎◌, inl, inr, refl, sym, ◌∙◌, subst, arith, true,
  false, List, ltb, leb, get_or, Bool-cases,
}

-- The binary search; each round brings `lo` and `hi` closer, so as many rounds as lines are enough.
pub norm_line_from : ℕ → List ℕ → ℕ → ℕ → ℕ → ℕ
norm_line_from zero starts p lo hi = lo
norm_line_from (suc fuel) starts p lo hi = elim (ltb (lo + 1) hi) [
  | true ↦ elim (leb (get_or starts (lo + (hi - lo) / 2) 0) p) [
    | true ↦ norm_line_from fuel starts p (lo + (hi - lo) / 2) hi
    | false ↦ norm_line_from fuel starts p lo (lo + (hi - lo) / 2)
  ]
  | false ↦ lo
]

pub edit_norm_line_of : List ℕ → ℕ → ℕ → ℕ
unfolding norm_line_from
edit_norm_line_of starts count p = norm_line_from count starts p 0 count

-- A line that holds an offset, among the lines before `n`.
abbrev pub Holds : List ℕ → ℕ → ℕ → ℕ → Type 0
Holds starts p n r =
    (r < n) × (get_or starts r 0 ≤ p) × ((r + 1 ≡ n) ⊎ (p < get_or starts (r + 1) 0))

abbrev Between : List ℕ → ℕ → ℕ → ℕ → ℕ → Type 0
Between starts p n lo hi =
    (lo < hi) × (hi ≤ n) × (get_or starts lo 0 ≤ p) × ((hi ≡ n) ⊎ (p < get_or starts hi 0))

found_line :
    (starts : List ℕ) (p n lo hi : ℕ)
    → Between starts p n lo hi
    → ltb (lo + 1) hi ≡ false
    → Holds starts p n lo
found_line starts p n lo hi (l, m, h, inl e) f =
    (omega (arith, l, m), h, inl (ground (arith, l, m, e, f)))
found_line starts p n lo hi (l, m, h, inr k) f =
    let next : lo + 1 ≡ hi = ground (arith, l, f) in (omega (arith, l, m), h, inr (rw next k))

-- One round.
module _ (fuel : ℕ) (starts : List ℕ) (p lo hi : ℕ) where
  abbrev mid : ℕ
  mid = lo + (hi - lo) / 2

  round_narrow : ltb (lo + 1) hi ≡ false → norm_line_from (suc fuel) starts p lo hi ≡ lo
  unfolding norm_line_from
  round_narrow n = rw (n, norm_line_from) refl

  round_low :
      ltb (lo + 1) hi ≡ true
      → leb (get_or starts mid 0) p ≡ true
      → norm_line_from (suc fuel) starts p lo hi ≡ norm_line_from fuel starts p mid hi
  unfolding norm_line_from
  round_low w l = rw (w, l, norm_line_from) refl

  round_high :
      ltb (lo + 1) hi ≡ true
      → leb (get_or starts mid 0) p ≡ false
      → norm_line_from (suc fuel) starts p lo hi ≡ norm_line_from fuel starts p lo mid
  unfolding norm_line_from
  round_high w h = rw (w, h, norm_line_from) refl

  mid_inside : ltb (lo + 1) hi ≡ true → (lo < mid) × (mid < hi)
  mid_inside w = ground (arith, w)

norm_line_from-Holds :
    (fuel : ℕ) (starts : List ℕ) (p n lo hi : ℕ)
    → hi ≤ lo + 1 + fuel
    → Between starts p n lo hi
    → Holds starts p n (norm_line_from fuel starts p lo hi)
norm_line_from-Holds zero starts p n lo hi f b =
    unfold norm_line_from in found_line starts p n lo hi b (ground (arith, f))
norm_line_from-Holds (suc fuel) starts p n lo hi f b = elim (Bool-cases (ltb (lo + 1) hi)) [
  | inl wide ↦
      let m : ℕ = mid fuel starts p lo hi in
      let inside : (lo < m) × (m < hi) = mid_inside fuel starts p lo hi wide in
      elim (Bool-cases (leb (get_or starts m 0) p)) [
        | inl low ↦ subst (Holds starts p n) (sym (round_low fuel starts p lo hi wide low)) (
            norm_line_from-Holds fuel starts p n m hi (omega (arith, f, inside.0))
              (inside.1, b.1, ground (arith, low), b.3))
        | inr high ↦ subst (Holds starts p n) (sym (round_high fuel starts p lo hi wide high)) (
            norm_line_from-Holds fuel starts p n lo m (omega (arith, f, inside.1))
              (inside.0, omega (arith, inside.1, b.1), b.2, inr (ground (arith, high))))
      ]
  | inr narrow ↦
      subst (Holds starts p n) (sym (round_narrow fuel starts p lo hi narrow))
        (found_line starts p n lo hi b narrow)
]

settled :
    (fuel : ℕ) (starts : List ℕ) (p lo hi : ℕ)
    → ltb (lo + 1) hi ≡ false
    → norm_line_from fuel starts p lo hi ≡ lo
settled zero starts p lo hi n = unfold norm_line_from in refl
settled (suc fuel) starts p lo hi n = round_narrow fuel starts p lo hi n

more_rounds :
    (fuel k : ℕ) (starts : List ℕ) (p lo hi : ℕ)
    → hi ≤ lo + 1 + fuel
    → fuel ≤ k
    → norm_line_from k starts p lo hi ≡ norm_line_from fuel starts p lo hi
more_rounds zero k starts p lo hi f l =
    settled k starts p lo hi (ground (arith, f))
    ∙ sym (settled zero starts p lo hi (ground (arith, f)))
more_rounds (suc fuel) zero starts p lo hi f l = absurd (omega (arith, l))
more_rounds (suc fuel) (suc k) starts p lo hi f l = elim (Bool-cases (ltb (lo + 1) hi)) [
  | inl wide ↦
      let m : ℕ = mid fuel starts p lo hi in
      let inside : (lo < m) × (m < hi) = mid_inside fuel starts p lo hi wide in
      elim (Bool-cases (leb (get_or starts m 0) p)) [
        | inl low ↦
            round_low k starts p lo hi wide low
            ∙ more_rounds fuel k starts p m hi (omega (arith, f, inside.0)) (omega (arith, l))
            ∙ sym (round_low fuel starts p lo hi wide low)
        | inr high ↦
            round_high k starts p lo hi wide high
            ∙ more_rounds fuel k starts p lo m (omega (arith, f, inside.1)) (omega (arith, l))
            ∙ sym (round_high fuel starts p lo hi wide high)
      ]
  | inr narrow ↦
      round_narrow k starts p lo hi narrow ∙ sym (round_narrow fuel starts p lo hi narrow)
]

-- For an offset not before the start of the first of the lines, the search ends within as many rounds as there
-- are lines, more change nothing, and it finds a line that starts no later than the offset and is
-- the last one or is followed by a line that starts behind it.
pub edit_norm_line_of-Holds :
    (starts : List ℕ) (count p k : ℕ)
    → 0 < count
    → get_or starts 0 0 ≤ p
    → count ≤ k
    → Holds starts p count (edit_norm_line_of starts count p)
      × (norm_line_from k starts p 0 count ≡ edit_norm_line_of starts count p)
unfolding edit_norm_line_of
edit_norm_line_of-Holds starts count p k l h m = (
  norm_line_from-Holds count starts p count 0 count (omega arith) (l, omega arith, h, inl refl),
  more_rounds count k starts p 0 count (omega arith) m,
)
