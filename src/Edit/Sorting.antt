-- ===== src/Edit/Sorting.antt =====
-- The sorted matches and the check for overlaps.
use echo_ai_c.Base.{
  ℕ, ◌+◌, ◌≤◌, ◌≡◌, inl, inr, refl, arith, Bool, true, false, List, [], ◌∷◌, ◌++◌, Option, none,
  some, map, ltb, if◌then◌else◌, All, Bool-cases,
}
use mathlib.Core.List.{Perm, perm_middle}
use mathlib.Core.List.Perm
use echo_ai_c.Edit.{EditItem, EditMatch, insert_match, sort_matches, first_overlap}

-- Matches from the end of a text, each before the one above it.
abbrev pub Chain : ℕ → List EditMatch → Type 0
Chain n [] = Unit
Chain n (k ∷ ks) = (k.index + k.length ≤ n) × Chain k.index ks

-- Sorting keeps the matches.
insert_match-Perm :
    (f : EditMatch → EditItem) (m : EditMatch) (xs : List EditMatch)
    → Perm (map f (insert_match m xs)) (f m ∷ map f xs)
unfolding insert_match
insert_match-Perm f m [] = Perm.refl (f m ∷ [])
insert_match-Perm f m (x ∷ xs) = elim (Bool-cases (ltb m.index x.index)) [
  | inl t ↦
      rw t
        (Perm.trans (Perm.cons (f x) (insert_match-Perm f m xs)) (Perm.swap (f m) (f x) (map f xs)))
  | inr n ↦ rw n (Perm.refl (f m ∷ f x ∷ map f xs))
]

pub sort_matches-Perm :
    (f : EditMatch → EditItem) (sorted ms : List EditMatch)
    → Perm (map f (sort_matches sorted ms)) (map f ms ++ map f sorted)
unfolding sort_matches
sort_matches-Perm f sorted [] = Perm.refl (map f sorted)
sort_matches-Perm f sorted (m ∷ ms) = Perm.trans (sort_matches-Perm f (insert_match m sorted) ms) (
    Perm.trans (Perm.append_left (map f ms) (insert_match-Perm f m sorted))
      (perm_middle (map f ms) (map f sorted)))

All-insert_match :
    (P : EditMatch → Type 0) (m : EditMatch) (xs : List EditMatch)
    → P m
    → All P xs
    → All P (insert_match m xs)
unfolding insert_match
All-insert_match P m [] p h = (p, tt)
All-insert_match P m (x ∷ xs) p h = elim (Bool-cases (ltb m.index x.index)) [
  | inl t ↦ rw t (h.0, All-insert_match P m xs p h.1)
  | inr n ↦ rw n (p, h)
]

pub All-sort_matches :
    (P : EditMatch → Type 0) (sorted ms : List EditMatch)
    → All P sorted
    → All P ms
    → All P (sort_matches sorted ms)
unfolding sort_matches
All-sort_matches P sorted [] s h = s
All-sort_matches P sorted (m ∷ ms) s h =
    All-sort_matches P (insert_match m sorted) ms (All-insert_match P m sorted h.0 s) h.1

-- Where no overlap is reported, each match ends before the one above it.
no_overlap :
    (o : Option (ℕ × ℕ)) (b : Bool) (pair : ℕ × ℕ)
    → elim o as (λ _. Option (ℕ × ℕ)) [ some p ↦ some p | none ↦ if b then some pair else none ]
      ≡ none
    → (o ≡ none) × (b ≡ false)
no_overlap none false pair h = (refl, refl)
no_overlap none true pair h = absurd (ground (arith, h))
no_overlap (some p) b pair h = absurd (ground (arith, h))

pub first_overlap-Chain :
    (m : EditMatch) (ks : List EditMatch) → first_overlap (m ∷ ks) ≡ none → Chain m.index ks
unfolding first_overlap
first_overlap-Chain m [] h = tt
first_overlap-Chain m (k ∷ ks) h =
    let parts =
      no_overlap (first_overlap (k ∷ ks)) (ltb m.index (k.index + k.length))
        (k.edit_idx, m.edit_idx) h in
    (ground (arith, parts.1), first_overlap-Chain k ks parts.0)
