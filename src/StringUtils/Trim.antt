-- ===== src/StringUtils/Trim.antt =====
-- Trimming takes no text away that begins and ends with other bytes than space.
use echo_ai_c.Base.{
  ℕ, ◌≡◌, ◌≢◌, refl, sym, ap, ◌∙◌, arith, Bool, true, false, ◌||◌, ◌&&◌, [], ◌∷◌, if◌then◌else◌,
  Bytes, has_prefix, has_substring, Bool-cases, inl, inr,
}
use echo_ai_c.StringUtils.{is_space, skip_space, drop_space_end, str_trim}

-- Whether the first and the last byte are no space; a text without bytes does not count.
abbrev pub starts_solid : Bytes → Bool
starts_solid [] = false
starts_solid (c ∷ s) = if is_space c then false else true

abbrev pub ends_solid : Bytes → Bool
ends_solid [] = false
ends_solid (c ∷ []) = if is_space c then false else true
ends_solid (c ∷ d ∷ s) = ends_solid (d ∷ s)

not_at_space :
    (c : ℕ) (s p : Bytes) → is_space c ≡ true → starts_solid p ≡ true → has_prefix (c ∷ s) p ≡ false
unfolding has_prefix
not_at_space c s [] t h = absurd (ground (arith, h))
not_at_space c s (y ∷ p) t h = ground (arith, t, h)

has_substring-skip_space :
    (s p : Bytes) → starts_solid p ≡ true → has_substring (skip_space s) p ≡ has_substring s p
unfolding skip_space has_substring
has_substring-skip_space [] p h = refl
has_substring-skip_space (c ∷ s) p h = elim (Bool-cases (is_space c)) [
  | inl t ↦ rw t (has_substring-skip_space s p h ∙ ground (arith, not_at_space c s p t h))
  | inr f ↦ rw f refl
]

abbrev is_nil : Bytes → Bool
is_nil [] = true
is_nil (c ∷ s) = false

by_rest :
    (c : ℕ) (r : Bytes)
    → elim r as (λ _. Bytes) [ [] ↦ if is_space c then [] else c ∷ [] | d ∷ t ↦ c ∷ d ∷ t ]
      ≡ (if is_space c && is_nil r then [] else c ∷ r)
by_rest c [] = ground arith
by_rest c (d ∷ t) = ground arith

nothing_dropped : drop_space_end [] ≡ []
unfolding drop_space_end
nothing_dropped = refl

solid_rest :
    (c y : ℕ) (s p : Bytes) (space : Bool) (r : Bytes)
    → p ≢ []
    → has_prefix r p ≡ has_prefix s p
    → has_prefix (if space && is_nil r then [] else c ∷ r) (y ∷ p) ≡ has_prefix (c ∷ s) (y ∷ p)
unfolding has_prefix
solid_rest c y s [] space r n h = absurd (n refl)
solid_rest c y s (z ∷ p) true [] n h = ground (arith, h)
solid_rest c y s (z ∷ p) false [] n h = ground (arith, h)
solid_rest c y s (z ∷ p) true (d ∷ r) n h = ground (arith, h)
solid_rest c y s (z ∷ p) false (d ∷ r) n h = ground (arith, h)

drop_space_end-cons :
    (c : ℕ) (s : Bytes)
    → drop_space_end (c ∷ s)
      ≡ (if is_space c && is_nil (drop_space_end s) then [] else c ∷ drop_space_end s)
unfolding drop_space_end
drop_space_end-cons c s = by_rest c (drop_space_end s)

has_prefix-drop_space_end :
    (s p : Bytes) → ends_solid p ≡ true → has_prefix (drop_space_end s) p ≡ has_prefix s p
unfolding has_prefix
has_prefix-drop_space_end s [] h = absurd (ground (arith, h))
has_prefix-drop_space_end [] (y ∷ p) h = ap (λ s. has_prefix s (y ∷ p)) nothing_dropped
has_prefix-drop_space_end (c ∷ s) (y ∷ []) h = rw (drop_space_end-cons c s) (ground (arith, h))
has_prefix-drop_space_end (c ∷ s) (y ∷ z ∷ p) h = rw (drop_space_end-cons c s) (
    solid_rest c y s (z ∷ p) (is_space c) (drop_space_end s) (λ e. absurd (ground (arith, e)))
      (has_prefix-drop_space_end s (z ∷ p) h))

nil_of_and : (space : Bool) (r : Bytes) → (space && is_nil r) ≡ true → r ≡ []
nil_of_and space [] h = refl
nil_of_and space (c ∷ r) h = absurd (ground (arith, h))

substring_step :
    (c : ℕ) (r s p : Bytes) (b : Bool)
    → (b ≡ true → r ≡ [])
    → has_prefix (if b then [] else c ∷ r) p ≡ has_prefix (c ∷ s) p
    → has_substring r p ≡ has_substring s p
    → has_substring (if b then [] else c ∷ r) p ≡ (has_prefix (c ∷ s) p || has_substring s p)
unfolding has_substring
substring_step c r s p true n h k =
    let rest : has_prefix [] p ≡ has_substring s p =
      ap (λ t. has_substring t p) (sym (n refl)) ∙ k in
    ground (arith, h, rest)
substring_step c r s p false n h k = ground (arith, h, k)

has_substring-drop_space_end :
    (s p : Bytes) → ends_solid p ≡ true → has_substring (drop_space_end s) p ≡ has_substring s p
unfolding has_substring
has_substring-drop_space_end [] p h = ap (λ s. has_substring s p) nothing_dropped
has_substring-drop_space_end (c ∷ s) p h =
    let r : Bytes = drop_space_end s in
    let b : Bool = is_space c && is_nil r in
    let prefix : has_prefix (if b then [] else c ∷ r) p ≡ has_prefix (c ∷ s) p =
      ap (λ t. has_prefix t p) (sym (drop_space_end-cons c s))
      ∙ has_prefix-drop_space_end (c ∷ s) p h in
    ap (λ t. has_substring t p) (drop_space_end-cons c s)
    ∙ substring_step c r s p b (nil_of_and (is_space c) r) prefix
        (has_substring-drop_space_end s p h)

-- A text that begins and ends with bytes that are no space is found in a text exactly if it is found after
-- trimming.
pub has_substring-str_trim :
    (s p : Bytes)
    → starts_solid p ≡ true
    → ends_solid p ≡ true
    → has_substring (str_trim s) p ≡ has_substring s p
unfolding str_trim
has_substring-str_trim s p h k =
    has_substring-drop_space_end (skip_space s) p k ∙ has_substring-skip_space s p h

-- Whatever is found after trimming was there before.
cut_prefix :
    (b : Bool) (c y : ℕ) (r s p : Bytes)
    → (has_prefix r p ≡ true → has_prefix s p ≡ true)
    → has_prefix (if b then [] else c ∷ r) (y ∷ p) ≡ true
    → has_prefix (c ∷ s) (y ∷ p) ≡ true
unfolding has_prefix
cut_prefix true c y r s p h k = absurd (ground (arith, k))
cut_prefix false c y r s p h k = ground (arith, h, k)

has_prefix-drop_space_end_only :
    (s p : Bytes) → has_prefix (drop_space_end s) p ≡ true → has_prefix s p ≡ true
unfolding has_prefix
has_prefix-drop_space_end_only s [] h = refl
has_prefix-drop_space_end_only [] (y ∷ p) h =
    ap (λ s. has_prefix s (y ∷ p)) (sym nothing_dropped) ∙ h
has_prefix-drop_space_end_only (c ∷ s) (y ∷ p) h =
    cut_prefix (is_space c && is_nil (drop_space_end s)) c y (drop_space_end s) s p
      (has_prefix-drop_space_end_only s p)
      (ap (λ t. has_prefix t (y ∷ p)) (sym (drop_space_end-cons c s)) ∙ h)

same_front :
    (c : ℕ) (r s p : Bytes)
    → ((q : Bytes) → has_prefix r q ≡ true → has_prefix s q ≡ true)
    → has_prefix (c ∷ r) p ≡ true
    → has_prefix (c ∷ s) p ≡ true
unfolding has_prefix
same_front c r s [] h k = refl
same_front c r s (y ∷ p) h k = ground (arith, k, h p)

cut_substring :
    (b : Bool) (c : ℕ) (r s p : Bytes)
    → (has_prefix (c ∷ r) p ≡ true → has_prefix (c ∷ s) p ≡ true)
    → (has_substring r p ≡ true → has_substring s p ≡ true)
    → has_substring (if b then [] else c ∷ r) p ≡ true
    → (has_prefix (c ∷ s) p || has_substring s p) ≡ true
unfolding has_substring has_prefix
cut_substring true c r s [] h k l = ground arith
cut_substring true c r s (y ∷ p) h k l = absurd (ground (arith, l))
cut_substring false c r s p h k l = ground (arith, h, k, l)

has_substring-drop_space_end_only :
    (s p : Bytes) → has_substring (drop_space_end s) p ≡ true → has_substring s p ≡ true
unfolding has_substring
has_substring-drop_space_end_only [] p h = ap (λ s. has_substring s p) (sym nothing_dropped) ∙ h
has_substring-drop_space_end_only (c ∷ s) p h =
    cut_substring (is_space c && is_nil (drop_space_end s)) c (drop_space_end s) s p
      (same_front c (drop_space_end s) s p (λ q. has_prefix-drop_space_end_only s q))
      (has_substring-drop_space_end_only s p)
      (ap (λ t. has_substring t p) (sym (drop_space_end-cons c s)) ∙ h)

has_substring-skip_space_only :
    (s p : Bytes) → has_substring (skip_space s) p ≡ true → has_substring s p ≡ true
unfolding skip_space has_substring
has_substring-skip_space_only [] p h = h
has_substring-skip_space_only (c ∷ s) p h = elim (Bool-cases (is_space c)) [
  | inl t ↦
      let later : has_substring s p ≡ true =
        has_substring-skip_space_only s p (sym (rw t refl) ∙ h) in
      ground (arith, later)
  | inr f ↦ sym (rw f refl) ∙ h
]

pub has_substring-str_trim_only :
    (s p : Bytes) → has_substring (str_trim s) p ≡ true → has_substring s p ≡ true
unfolding str_trim
has_substring-str_trim_only s p h =
    has_substring-skip_space_only s p (has_substring-drop_space_end_only (skip_space s) p h)
