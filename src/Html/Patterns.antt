-- ===== src/Html/Patterns.antt =====
-- The scan for boilerplate names against the search for a substring.
use echo_ai_c.Base.{
  suc, ◌<◌, ◌≡◌, refl, sym, ap, ◌∙◌, arith, false, ◌&&◌, ◌||◌, List, [], ◌∷◌, map, Bytes, to_lower,
  has_prefix, has_substring, ltb, ◌==◌, length, any, Bool-cases, inl, inr,
}
use echo_ai_c.Html.{neg_patterns, matches_at, matches_in, some_pattern, has_neg_pattern}

matches_at-has_prefix : (s p : Bytes) → matches_at s p ≡ has_prefix (map to_lower s) p
unfolding matches_at has_prefix
matches_at-has_prefix s [] = refl
matches_at-has_prefix [] (y ∷ p) = refl
matches_at-has_prefix (x ∷ s) (y ∷ p) = ap (λ b. to_lower x == y && b) (matches_at-has_prefix s p)

prefix_fits : (s p : Bytes) → length s < length p → has_prefix s p ≡ false
unfolding has_prefix
prefix_fits s [] h = elim h [ ]
prefix_fits [] (y ∷ p) h = refl
prefix_fits (x ∷ s) (y ∷ p) h = ground (arith, prefix_fits s p (omega arith))

length-map : (s : Bytes) → length (map to_lower s) ≡ length s
length-map [] = refl
length-map (x ∷ s) = ap suc (length-map s)

substring_fits : (s p : Bytes) → length s < length p → has_substring s p ≡ false
unfolding has_substring
substring_fits [] p h = prefix_fits [] p h
substring_fits (x ∷ s) p h =
    ground (arith, prefix_fits (x ∷ s) p h, substring_fits s p (omega arith))

matches_in-has_substring : (s p : Bytes) → matches_in s p ≡ has_substring (map to_lower s) p
unfolding matches_in has_substring
matches_in-has_substring [] [] = refl
matches_in-has_substring [] (y ∷ p) = ground arith
matches_in-has_substring (x ∷ s) p = elim (Bool-cases (ltb (suc (length s)) (length p))) [
  | inl t ↦
      let short : length (map to_lower (x ∷ s)) < length p =
        ground (arith, length-map (x ∷ s), t) in
      rw t (sym (substring_fits (map to_lower (x ∷ s)) p short))
  | inr f ↦ rw f (λ i. matches_at-has_prefix (x ∷ s) p i || matches_in-has_substring s p i)
]

some_pattern-any :
    (ps : List Bytes) (s : Bytes)
    → some_pattern ps s ≡ any (λ p. has_substring (map to_lower s) p) ps
unfolding some_pattern
some_pattern-any [] s = refl
some_pattern-any (p ∷ ps) s = elim (Bool-cases (ltb (length s) (length p))) [
  | inl t ↦
      let short : length (map to_lower s) < length p = ground (arith, length-map s, t) in
      rw t (
        some_pattern-any ps s
        ∙ ap (λ b. b || any (λ q. has_substring (map to_lower s) q) ps)
            (sym (substring_fits (map to_lower s) p short)))
  | inr f ↦ rw f (λ i. matches_in-has_substring s p i || some_pattern-any ps s i)
]

-- A class or id is taken for boilerplate exactly if, in lower case, one of the ten patterns is a part of it.
pub has_neg_pattern-any :
    (s : Bytes) → has_neg_pattern s ≡ any (λ p. has_substring (map to_lower s) p) neg_patterns
unfolding has_neg_pattern
has_neg_pattern-any s = some_pattern-any neg_patterns s
