-- ===== src/Safety/Command.antt =====
-- Which commands the check refuses.
use echo_ai_c.Base.{
  ℕ, ◌≡◌, refl, ap, ◌∙◌, arith, Bool, true, false, not, ◌&&◌, ◌||◌, List, [], ◌∷◌, ◌==◌, Bytes,
  has_byte, has_prefix, has_substring, length, any, Bool-cases, inl, inr,
}
use echo_ai_c.StringUtils.{str_split, str_trim, pieces}
use echo_ai_c.StringUtils.Split.{any-pieces, copied_all}
use echo_ai_c.StringUtils.Trim.{starts_solid, ends_solid, has_substring-str_trim}
use echo_ai_c.Safety.{
  SafetyMode, is_unrestricted, is_dangerous, check_segment, refuses_line, refuses_statement,
  check_with,
}

-- Every piece of a split text is copied.
abbrev pub plenty : ℕ → Bytes → Bool
plenty d p = true

-- A pattern that no separator can cut and no trimming can shorten.
abbrev pub is_plain : Bytes → Bool
is_plain p =
    starts_solid p
    && (ends_solid p && not (has_byte p b';' || (has_byte p b'\n' || has_byte p b'|')))

pub both : (a b : Bool) → (a && b) ≡ true → (a ≡ true) × (b ≡ true)
both a b h = ground (arith, h)

or_left : (a b : Bool) → a ≡ true → (a || b) ≡ true
or_left a b h = ground (arith, h)

or_right : (a b : Bool) → b ≡ true → (a || b) ≡ true
or_right a b h = ground (arith, h)

right_of : (a b : Bool) → a ≡ false → (a || b) ≡ true → b ≡ true
right_of a b f h = ground (arith, f, h)

pub any_mono :
    {A : Type 0} (f g : A → Bool) (xs : List A)
    → ((x : A) → f x ≡ true → g x ≡ true)
    → any f xs ≡ true
    → any g xs ≡ true
any_mono f g [] h k = k
any_mono f g (x ∷ xs) h k = ground (arith, k, h x, any_mono f g xs h)

pub split_all : (s : Bytes) (d : ℕ) → str_split plenty s d ≡ pieces d s
unfolding str_split
split_all s d = copied_all (plenty d) (pieces d s) (λ p. refl)

same_any :
    (qs : List Bytes) (p : Bytes)
    → starts_solid p ≡ true
    → ends_solid p ≡ true
    → any (λ q. has_substring (str_trim q) p) qs ≡ any (λ q. has_substring q p) qs
same_any [] p k l = refl
same_any (q ∷ qs) p k l = rw (has_substring-str_trim q p k l, same_any qs p k l) refl

-- One level of the check: it finds a pattern in some trimmed piece of a text exactly if it is in the
-- text.
found_in_pieces :
    (d : ℕ) (s p : Bytes)
    → has_byte p d ≡ false
    → starts_solid p ≡ true
    → ends_solid p ≡ true
    → any (λ q. has_substring (str_trim q) p) (pieces d s) ≡ has_substring s p
found_in_pieces d s p h k l = same_any (pieces d s) p k l ∙ any-pieces d s p h

-- A text that is empty holds no pattern that starts with a byte.
not_in_empty :
    (s p : Bytes) → starts_solid p ≡ true → has_substring s p ≡ true → (length s == 0) ≡ false
unfolding has_substring has_prefix
not_in_empty [] [] k h = absurd (ground (arith, k))
not_in_empty [] (y ∷ p) k h = absurd (ground (arith, h))
not_in_empty (c ∷ s) p k h = ground arith

-- Whether a text holds a plain pattern, or any pattern.
abbrev pub holds_plain : List Bytes → Bytes → Bool
holds_plain patterns s = any (λ p. is_plain p && has_substring s p) patterns

abbrev pub holds : List Bytes → Bytes → Bool
holds patterns s = any (has_substring s) patterns

five_parts :
    (a b x y z : Bool)
    → (a && (b && not (x || (y || z)))) ≡ true
    → (a ≡ true) × (b ≡ true) × (x ≡ false) × (y ≡ false) × (z ≡ false)
five_parts a b x y z h = ground (arith, h)

plain_parts :
    (p : Bytes)
    → is_plain p ≡ true
    → (starts_solid p ≡ true)
      × (ends_solid p ≡ true)
      × (has_byte p b';' ≡ false)
      × (has_byte p b'\n' ≡ false)
      × (has_byte p b'|' ≡ false)
plain_parts p h =
    five_parts (starts_solid p) (ends_solid p) (has_byte p b';') (has_byte p b'\n')
      (has_byte p b'|') h

and_true : (a b : Bool) → a ≡ true → b ≡ true → (a && b) ≡ true
and_true a b h k = ground (arith, h, k)

-- A plain pattern of a text is in a trimmed piece of it.
plain_in_pieces :
    (patterns : List Bytes) (d : ℕ) (s : Bytes)
    → ((p : Bytes) → is_plain p ≡ true → has_byte p d ≡ false)
    → holds_plain patterns s ≡ true
    → any (λ q. holds_plain patterns (str_trim q)) (pieces d s) ≡ true
plain_in_pieces [] d s free h = absurd (ground (arith, let e : false ≡ true = h in e))
plain_in_pieces (p ∷ ps) d s free h = elim (Bool-cases (is_plain p && has_substring s p)) [
  | inl t ↦
      let plain : is_plain p ≡ true = (both (is_plain p) (has_substring s p) t).0 in
      let ends = plain_parts p plain in
      any_mono (λ q. has_substring (str_trim q) p) (λ q. holds_plain (p ∷ ps) (str_trim q))
        (pieces d s)
        (λ q k.
          or_left (is_plain p && has_substring (str_trim q) p) (holds_plain ps (str_trim q))
            (and_true (is_plain p) (has_substring (str_trim q) p) plain k))
        (found_in_pieces d s p (free p plain) ends.0 ends.1
          ∙ (both (is_plain p) (has_substring s p) t).1)
  | inr f ↦
      any_mono (λ q. holds_plain ps (str_trim q)) (λ q. holds_plain (p ∷ ps) (str_trim q))
        (pieces d s)
        (λ q k.
          or_right (is_plain p && has_substring (str_trim q) p) (holds_plain ps (str_trim q)) k)
        (plain_in_pieces ps d s free
          (right_of (is_plain p && has_substring s p) (holds_plain ps s) f h))
]

plain_nonempty :
    (patterns : List Bytes) (s : Bytes) → holds_plain patterns s ≡ true → (length s == 0) ≡ false
plain_nonempty [] s h = absurd (ground (arith, let e : false ≡ true = h in e))
plain_nonempty (p ∷ ps) s h = elim (Bool-cases (is_plain p && has_substring s p)) [
  | inl t ↦
      let parts = both (is_plain p) (has_substring s p) t in
      not_in_empty s p (plain_parts p parts.0).0 parts.1
  | inr f ↦ plain_nonempty ps s (right_of (is_plain p && has_substring s p) (holds_plain ps s) f h)
]

plain_holds :
    (patterns : List Bytes) (s : Bytes) → holds_plain patterns s ≡ true → holds patterns s ≡ true
plain_holds patterns s h =
    any_mono (λ p. is_plain p && has_substring s p) (has_substring s) patterns
      (λ p k. (both (is_plain p) (has_substring s p) k).1) h

-- What the levels of the check make of a plain pattern, from the innermost out.
dangerous :
    (patterns : List Bytes) (s : Bytes)
    → holds_plain patterns s ≡ true
    → is_dangerous patterns s ≡ true
unfolding is_dangerous
dangerous patterns s h =
    and_true (not (length s == 0)) (holds patterns s) (ap not (plain_nonempty patterns s h))
      (plain_holds patterns s h)

refused_segment :
    (patterns : List Bytes) (s : Bytes)
    → holds_plain patterns s ≡ true
    → check_segment plenty patterns s ≡ false
unfolding check_segment
refused_segment patterns s h =
    let found : any (λ q. is_dangerous patterns (str_trim q)) (str_split plenty s b'|') ≡ true =
      rw (split_all s b'|') (
        any_mono (λ q. holds_plain patterns (str_trim q)) (λ q. is_dangerous patterns (str_trim q))
          (pieces b'|' s) (λ q k. dangerous patterns (str_trim q) k)
          (plain_in_pieces patterns b'|' s (λ p k. (plain_parts p k).4) h)) in
    rw found refl

refused_line :
    (patterns : List Bytes) (s : Bytes)
    → holds_plain patterns s ≡ true
    → refuses_line plenty patterns s ≡ true
unfolding refuses_line
refused_line patterns s h =
    and_true (not (length s == 0)) (not (check_segment plenty patterns s))
      (ap not (plain_nonempty patterns s h)) (ap not (refused_segment patterns s h))

refused_statement :
    (patterns : List Bytes) (s : Bytes)
    → holds_plain patterns s ≡ true
    → refuses_statement plenty patterns s ≡ true
unfolding refuses_statement
refused_statement patterns s h =
    and_true (not (length s == 0))
      (any (λ l. refuses_line plenty patterns (str_trim l)) (str_split plenty s b'\n'))
      (ap not (plain_nonempty patterns s h))
      (rw (split_all s b'\n') (
        any_mono (λ q. holds_plain patterns (str_trim q))
          (λ l. refuses_line plenty patterns (str_trim l)) (pieces b'\n' s)
          (λ q k. refused_line patterns (str_trim q) k)
          (plain_in_pieces patterns b'\n' s (λ p k. (plain_parts p k).3) h)))

pub refused_command :
    (patterns : List Bytes) (mode : SafetyMode) (s : Bytes)
    → is_unrestricted mode ≡ false
    → holds_plain patterns s ≡ true
    → check_with plenty patterns mode s ≡ false
unfolding check_with
refused_command patterns mode s m h =
    let found : any (λ q. refuses_statement plenty patterns (str_trim q)) (str_split plenty s b';')
        ≡ true =
      rw (split_all s b';') (
        any_mono (λ q. holds_plain patterns (str_trim q))
          (λ q. refuses_statement plenty patterns (str_trim q)) (pieces b';' s)
          (λ q k. refused_statement patterns (str_trim q) k)
          (plain_in_pieces patterns b';' s (λ p k. (plain_parts p k).2) h)) in
    rw (m, found) refl
