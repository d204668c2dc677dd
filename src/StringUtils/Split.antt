-- ===== src/StringUtils/Split.antt =====
-- What splitting and trimming keep of a text.
use echo_ai_c.Base.{
  ℕ, ◌≡◌, refl, sym, ap, ◌∙◌, arith, Bool, true, false, ◌||◌, List, [], ◌∷◌, ◌++◌, ◌==◌, Bytes,
  has_prefix, has_byte, has_substring, All, any, Bool-cases, inl, inr,
}
use echo_ai_c.StringUtils.{push_front, pieces, copied, str_split}

-- The texts with the delimiter between them.
abbrev pub join : ℕ → List Bytes → Bytes
join d [] = []
join d (p ∷ []) = p
join d (p ∷ q ∷ ps) = p ++ (d ∷ join d (q ∷ ps))

join-push_front : (d c : ℕ) (ps : List Bytes) → join d (push_front c ps) ≡ c ∷ join d ps
unfolding push_front
join-push_front d c [] = refl
join-push_front d c (p ∷ []) = refl
join-push_front d c (p ∷ q ∷ ps) = refl

pieces-cons : (d : ℕ) (s : Bytes) → (p : Bytes) × ((ps : List Bytes) × (pieces d s ≡ p ∷ ps))
unfolding pieces push_front
pieces-cons d [] = ([], ([], refl))
pieces-cons d (c ∷ s) = elim (Bool-cases (c == d)) [
  | inl t ↦ ([], (pieces d s, rw t refl))
  | inr f ↦ let (p, (ps, e)) = pieces-cons d s in (c ∷ p, (ps, rw (f, e) refl))
]

join-pieces : (d : ℕ) (s : Bytes) → join d (pieces d s) ≡ s
unfolding pieces
join-pieces d [] = refl
join-pieces d (c ∷ s) = elim (Bool-cases (c == d)) [
  | inl t ↦
      let (p, (ps, e)) = pieces-cons d s in
      rw (t, e) (ground (arith, t, ap (join d) (sym e), join-pieces d s))
  | inr f ↦ rw f (join-push_front d c (pieces d s) ∙ ap (◌∷◌ c) (join-pieces d s))
]

abbrev first : List Bytes → Bytes
first [] = []
first (p ∷ ps) = p

first-push_front : (c : ℕ) (ps : List Bytes) → first (push_front c ps) ≡ c ∷ first ps
unfolding push_front
first-push_front c [] = refl
first-push_front c (p ∷ ps) = refl

first_piece :
    (d : ℕ) (s p : Bytes)
    → has_byte p d ≡ false
    → has_prefix (first (pieces d s)) p ≡ has_prefix s p
unfolding pieces has_prefix has_byte
first_piece d s [] h = refl
first_piece d [] (y ∷ p) h = refl
first_piece d (c ∷ s) (y ∷ p) h = elim (Bool-cases (c == d)) [
  | inl t ↦ rw t (ground (arith, t, h))
  | inr f ↦
      rw (f, first-push_front c (pieces d s))
        (ground (arith, h, first_piece d s p (ground (arith, h))))
]

no_prefix :
    (d c : ℕ) (s p : Bytes)
    → (c == d) ≡ true
    → has_byte p d ≡ false
    → has_prefix (c ∷ s) p ≡ has_prefix [] p
unfolding has_prefix has_byte
no_prefix d c s [] t h = refl
no_prefix d c s (y ∷ p) t h = ground (arith, t, h)

or_regroup : (a b c e g : Bool) → a ≡ e → (b || c) ≡ g → ((a || b) || c) ≡ (e || g)
or_regroup a b c e g h k = ground (arith, h, k)

-- A text without the delimiter stands in a text exactly if it stands in one of its pieces.
pub any-pieces :
    (d : ℕ) (s p : Bytes)
    → has_byte p d ≡ false
    → any (λ q. has_substring q p) (pieces d s) ≡ has_substring s p
unfolding pieces has_substring push_front
any-pieces d [] p h = ground arith
any-pieces d (c ∷ s) p h = elim (Bool-cases (c == d)) [
  | inl t ↦ rw t (ground (arith, any-pieces d s p h, no_prefix d c s p t h))
  | inr f ↦
      let (q, (qs, e)) = pieces-cons d s in
      let split : pieces d (c ∷ s) ≡ (c ∷ q) ∷ qs = rw (f, e) refl in
      let prefix : has_prefix (c ∷ q) p ≡ has_prefix (c ∷ s) p =
        ap (λ r. has_prefix (first r) p) (sym split) ∙ first_piece d (c ∷ s) p h in
      let later : (has_substring q p || any (λ r. has_substring r p) qs) ≡ has_substring s p =
        ap (any (λ r. has_substring r p)) (sym e) ∙ any-pieces d s p h in
      rw (f, e)
        (or_regroup (has_prefix (c ∷ q) p) (has_substring q p) (any (λ r. has_substring r p) qs)
          (has_prefix (c ∷ s) p) (has_substring s p) prefix later)
]

-- A piece of a text holds only what the text holds.
first_piece-has_prefix :
    (d : ℕ) (s p : Bytes) → has_prefix (first (pieces d s)) p ≡ true → has_prefix s p ≡ true
unfolding pieces has_prefix
first_piece-has_prefix d s [] h = refl
first_piece-has_prefix d [] (y ∷ p) h = absurd (ground (arith, h))
first_piece-has_prefix d (c ∷ s) (y ∷ p) h = elim (Bool-cases (c == d)) [
  | inl t ↦ absurd (ground (arith, h, t))
  | inr f ↦
      let front : has_prefix (c ∷ first (pieces d s)) (y ∷ p) ≡ true =
        ap (λ r. has_prefix r (y ∷ p)) (sym (first-push_front c (pieces d s)))
        ∙ ground (arith, h, f) in
      ground (arith, front, first_piece-has_prefix d s p (ground (arith, front)))
]

empty_prefix : (s p : Bytes) → has_prefix [] p ≡ true → has_prefix s p ≡ true
unfolding has_prefix
empty_prefix s [] h = refl
empty_prefix s (y ∷ p) h = absurd (ground (arith, h))

pub any-pieces-has_substring :
    (d : ℕ) (s p : Bytes)
    → any (λ q. has_substring q p) (pieces d s) ≡ true
    → has_substring s p ≡ true
unfolding pieces has_substring push_front
any-pieces-has_substring d [] p h = ground (arith, h)
any-pieces-has_substring d (c ∷ s) p h = elim (Bool-cases (c == d)) [
  | inl t ↦
      let found : (has_prefix [] p || any (λ r. has_substring r p) (pieces d s)) ≡ true =
        ground (arith, h, t) in
      ground (arith, found, empty_prefix (c ∷ s) p, any-pieces-has_substring d s p)
  | inr f ↦
      let (q, (qs, e)) = pieces-cons d s in
      let split : pieces d (c ∷ s) ≡ (c ∷ q) ∷ qs = rw (f, e) refl in
      let prefix : has_prefix (c ∷ q) p ≡ true → has_prefix (c ∷ s) p ≡ true =
        λ t. first_piece-has_prefix d (c ∷ s) p (ap (λ r. has_prefix (first r) p) split ∙ t) in
      let later : (has_substring q p || any (λ r. has_substring r p) qs) ≡ true
          → has_substring s p ≡ true =
        λ t. any-pieces-has_substring d s p (ap (any (λ r. has_substring r p)) e ∙ t) in
      let found : ((has_prefix (c ∷ q) p || has_substring q p) || any (λ r. has_substring r p) qs)
          ≡ true =
        ap (any (λ r. has_substring r p)) (sym split) ∙ h in
      ground (arith, found, prefix, later)
]

no_delimiter-push_front :
    (d c : ℕ) (ps : List Bytes)
    → (c == d) ≡ false
    → All (λ p. has_byte p d ≡ false) ps
    → All (λ p. has_byte p d ≡ false) (push_front c ps)
unfolding push_front has_byte
no_delimiter-push_front d c [] f h = (ground (arith, f), h)
no_delimiter-push_front d c (p ∷ ps) f h = (ground (arith, f, h.0), h.1)

no_delimiter : (d : ℕ) (s : Bytes) → All (λ p. has_byte p d ≡ false) (pieces d s)
unfolding pieces has_byte
no_delimiter d [] = (refl, tt)
no_delimiter d (c ∷ s) = elim (Bool-cases (c == d)) [
  | inl t ↦ rw t (refl, no_delimiter d s)
  | inr f ↦ rw f (no_delimiter-push_front d c (pieces d s) f (no_delimiter d s))
]

pub copied_all :
    (mem : Bytes → Bool) (ps : List Bytes) → ((p : Bytes) → mem p ≡ true) → copied mem ps ≡ ps
unfolding copied
copied_all mem [] h = refl
copied_all mem (p ∷ ps) h = rw (h p, copied_all mem ps h) refl

-- Where every copy is made, splitting gives pieces without the delimiter, and they give the text
-- back when the delimiter is put between them.
pub str_split-join :
    (mem : ℕ → Bytes → Bool) (s : Bytes) (d : ℕ)
    → ((p : Bytes) → mem d p ≡ true)
    → All (λ p. has_byte p d ≡ false) (str_split mem s d) × (join d (str_split mem s d) ≡ s)
unfolding str_split
str_split-join mem s d h =
    rw (copied_all (mem d) (pieces d s) h) (no_delimiter d s, join-pieces d s)

pub any-copied :
    (f : Bytes → Bool) (mem : Bytes → Bool) (ps : List Bytes)
    → any f (copied mem ps) ≡ true
    → any f ps ≡ true
unfolding copied
any-copied f mem [] h = h
any-copied f mem (p ∷ ps) h = ground (arith, h, any-copied f mem ps)

pub nothing_copied :
    (mem : Bytes → Bool) (ps : List Bytes) → ((p : Bytes) → mem p ≡ false) → copied mem ps ≡ []
unfolding copied
nothing_copied mem [] h = refl
nothing_copied mem (p ∷ ps) h = rw (h p) (nothing_copied mem ps h)
