-- ===== src/Edit/Endings.antt =====
-- Line endings: a text with uniform endings gets them back.
use echo_ai_c.Base.{
  ℕ, suc, ◌≡◌, inl, inr, refl, sym, ap, ◌∙◌, arith, Bool, true, false, ◌&&◌, [], ◌∷◌, Option, none,
  some, ltb, ◌==◌, if◌then◌else◌, Bytes, has_prefix, has_byte, Bool-cases,
}
use echo_ai_c.Edit.{strstr, edit_detect_ending, edit_normalize_lf, expand_lf, edit_restore_endings}

abbrev lf : Bytes
lf = b'\n' ∷ []

abbrev crlf : Bytes
crlf = b'\r' ∷ b'\n' ∷ []

plain_byte :
    (c : ℕ) (s : Bytes) → (c == b'\r') ≡ false → edit_normalize_lf (c ∷ s) ≡ c ∷ edit_normalize_lf s
unfolding edit_normalize_lf
plain_byte c [] f = rw f refl
plain_byte c (d ∷ s) f = ground (arith, f)

free_tail :
    (c : ℕ) (s : Bytes)
    → has_byte (c ∷ s) b'\r' ≡ false
    → ((c == b'\r') ≡ false) × (has_byte s b'\r' ≡ false)
unfolding has_byte
free_tail c s h = ground (arith, h)

edit_normalize_lf_plain : (u : Bytes) → has_byte u b'\r' ≡ false → edit_normalize_lf u ≡ u
edit_normalize_lf_plain [] h = unfold edit_normalize_lf in refl
edit_normalize_lf_plain (c ∷ u) h =
    let parts = free_tail c u h in
    plain_byte c u parts.0 ∙ ap (◌∷◌ c) (edit_normalize_lf_plain u parts.1)

pair_byte : (s : Bytes) → edit_normalize_lf (b'\r' ∷ b'\n' ∷ s) ≡ b'\n' ∷ edit_normalize_lf s
unfolding edit_normalize_lf
pair_byte s = refl

edit_normalize_lf-expand_lf :
    (u : Bytes) → has_byte u b'\r' ≡ false → edit_normalize_lf (expand_lf u) ≡ u
unfolding expand_lf
edit_normalize_lf-expand_lf [] h = unfold edit_normalize_lf in refl
edit_normalize_lf-expand_lf (c ∷ u) h =
    let parts = free_tail c u h in
    let rest : edit_normalize_lf (expand_lf u) ≡ u = edit_normalize_lf-expand_lf u parts.1 in
    elim (Bool-cases (c == b'\n')) [
      | inl t ↦ rw t (pair_byte (expand_lf u) ∙ ground (arith, t, rest))
      | inr f ↦ rw f (plain_byte c (expand_lf u) parts.0 ∙ ap (◌∷◌ c) rest)
    ]

expand_lf_plain : (u : Bytes) → has_byte u b'\n' ≡ false → expand_lf u ≡ u
unfolding expand_lf has_byte
expand_lf_plain [] h = refl
expand_lf_plain (c ∷ u) h = ground (arith, h, expand_lf_plain u (ground (arith, h)))

-- Where the first line ends.
abbrev later : Option ℕ → Option ℕ
later none = none
later (some i) = some (suc i)

strstr-cons :
    (c : ℕ) (s p : Bytes)
    → strstr (c ∷ s) p ≡ (if has_prefix (c ∷ s) p then some 0 else later (strstr s p))
unfolding strstr
strstr-cons c s p = ap (λ x. if has_prefix (c ∷ s) p then some 0 else x) (by_option (strstr s p))
  where
    by_option :
        (o : Option ℕ) → elim o as (λ _. Option ℕ) [ none ↦ none | some i ↦ some (suc i) ] ≡ later o
    by_option none = refl
    by_option (some i) = refl

no_crlf : (u : Bytes) → has_byte u b'\r' ≡ false → strstr u crlf ≡ none
no_crlf [] h = unfold strstr has_prefix in refl
no_crlf (c ∷ u) h =
    let parts = free_tail c u h in
    let miss : has_prefix (c ∷ u) crlf ≡ false = unfold has_prefix in rw (parts.0) refl in
    strstr-cons c u crlf ∙ rw (miss, no_crlf u parts.1) refl

expand_lf-step :
    (c : ℕ) (u : Bytes)
    → expand_lf (c ∷ u) ≡ (if c == b'\n' then b'\r' ∷ b'\n' ∷ expand_lf u else c ∷ expand_lf u)
unfolding expand_lf
expand_lf-step c u = refl

at_lf : (c : ℕ) (u : Bytes) → has_prefix (c ∷ u) lf ≡ (c == b'\n')
unfolding has_prefix
at_lf c u = ground arith

at_crlf : (u : Bytes) → has_prefix (b'\r' ∷ b'\n' ∷ u) crlf ≡ true
unfolding has_prefix
at_crlf u = refl

not_at_crlf : (c : ℕ) (u : Bytes) → (c == b'\r') ≡ false → has_prefix (c ∷ u) crlf ≡ false
unfolding has_prefix
not_at_crlf c u f = rw f refl

first_crlf : (u : Bytes) → has_byte u b'\r' ≡ false → strstr (expand_lf u) crlf ≡ strstr u lf
first_crlf [] h = unfold strstr has_prefix expand_lf in refl
first_crlf (c ∷ u) h =
    let parts = free_tail c u h in
    elim (Bool-cases (c == b'\n')) [
      | inl t ↦
          rw
            (
              expand_lf-step c u,
              t,
              strstr-cons b'\r' (b'\n' ∷ expand_lf u) crlf,
              at_crlf (expand_lf u),
              strstr-cons c u lf,
              at_lf c u,
              t,
            )
            refl
      | inr f ↦
          rw
            (
              expand_lf-step c u,
              f,
              strstr-cons c (expand_lf u) crlf,
              not_at_crlf c (expand_lf u) parts.0,
              first_crlf u parts.1,
              strstr-cons c u lf,
              at_lf c u,
              f,
            )
            refl
    ]

first_lf : (u : Bytes) → has_byte u b'\r' ≡ false → strstr (expand_lf u) lf ≡ later (strstr u lf)
first_lf [] h = unfold strstr has_prefix expand_lf in refl
first_lf (c ∷ u) h =
    let parts = free_tail c u h in
    elim (Bool-cases (c == b'\n')) [
      | inl t ↦
          rw
            (
              expand_lf-step c u,
              t,
              strstr-cons b'\r' (b'\n' ∷ expand_lf u) lf,
              at_lf b'\r' (b'\n' ∷ expand_lf u),
              strstr-cons b'\n' (expand_lf u) lf,
              at_lf b'\n' (expand_lf u),
              strstr-cons c u lf,
              at_lf c u,
              t,
            )
            refl
      | inr f ↦
          rw
            (
              expand_lf-step c u,
              f,
              strstr-cons c (expand_lf u) lf,
              at_lf c (expand_lf u),
              f,
              first_lf u parts.1,
              strstr-cons c u lf,
              at_lf c u,
              f,
            )
            refl
    ]

abbrev is_some : Option ℕ → Bool
is_some none = false
is_some (some i) = true

is_some-later : (o : Option ℕ) → is_some (later o) ≡ is_some o
is_some-later none = refl
is_some-later (some i) = refl

has_lf : (u : Bytes) → is_some (strstr u lf) ≡ has_byte u b'\n'
has_lf [] = unfold strstr has_prefix has_byte in refl
has_lf (c ∷ u) = elim (Bool-cases (c == b'\n')) [
  | inl t ↦ rw (strstr-cons c u lf, at_lf c u, t) (unfold has_byte in ground (arith, t))
  | inr f ↦
      rw (strstr-cons c u lf, at_lf c u, f)
        (is_some-later (strstr u lf) ∙ has_lf u ∙ (unfold has_byte in ground (arith, f)))
]

-- What the positions of the first line feed and of the first pair decide.
abbrev order : Option ℕ → Option ℕ → Bool
order none q = false
order (some i) none = false
order (some i) (some j) = ltb j i

by_order :
    (p q : Option ℕ)
    → elim p as (λ _. Bool) [
      | none ↦ false
      | some i ↦ elim q as (λ _. Bool) [ none ↦ false | some j ↦ ltb j i ]
    ]
      ≡ order p q
by_order none q = refl
by_order (some i) none = refl
by_order (some i) (some j) = refl

edit_detect_ending-order : (t : Bytes) → edit_detect_ending t ≡ order (strstr t lf) (strstr t crlf)
unfolding edit_detect_ending
edit_detect_ending-order t = by_order (strstr t lf) (strstr t crlf)

order-later : (o : Option ℕ) → order (later o) o ≡ is_some o
order-later none = refl
order-later (some i) = ground arith

order-none : (o : Option ℕ) → order o none ≡ false
order-none none = refl
order-none (some i) = refl

detected :
    (u : Bytes) (b : Bool)
    → has_byte u b'\r' ≡ false
    → edit_detect_ending (edit_restore_endings u b) ≡ (b && has_byte u b'\n')
unfolding edit_restore_endings
detected u true h =
    edit_detect_ending-order (expand_lf u)
    ∙ (rw (first_lf u h, first_crlf u h) (order-later (strstr u lf) ∙ has_lf u))
detected u false h = edit_detect_ending-order u ∙ (rw (no_crlf u h) (order-none (strstr u lf)))

normalized :
    (u : Bytes) (b : Bool)
    → has_byte u b'\r' ≡ false
    → edit_normalize_lf (edit_restore_endings u b) ≡ u
unfolding edit_restore_endings
normalized u true h = edit_normalize_lf-expand_lf u h
normalized u false h = edit_normalize_lf_plain u h

same_endings :
    (u : Bytes) (b : Bool)
    → edit_restore_endings u (b && has_byte u b'\n') ≡ edit_restore_endings u b
unfolding edit_restore_endings
same_endings u false = refl
same_endings u true = elim (Bool-cases (has_byte u b'\n')) [
  | inl t ↦ rw t refl
  | inr f ↦ rw f (sym (expand_lf_plain u f))
]

-- For a text without carriage returns, written with either ending: the normalized text is that text, the
-- detected ending is the one it was written with, if there is a line feed at all, and normalizing and
-- restoring give the written text back.
pub edit_restore_endings-edit_normalize_lf :
    (u : Bytes) (b : Bool)
    → has_byte u b'\r' ≡ false
    → let text : Bytes = edit_restore_endings u b in
      (edit_normalize_lf text ≡ u)
      × (edit_detect_ending text ≡ (b && has_byte u b'\n'))
      × (edit_restore_endings (edit_normalize_lf text) (edit_detect_ending text) ≡ text)
edit_restore_endings-edit_normalize_lf u b h =
    (normalized u b h, detected u b h, rw (normalized u b h, detected u b h) (same_endings u b))
