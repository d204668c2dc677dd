-- ===== src/StringUtils/Truncate.antt =====
-- Truncation with a marker: the result fits, and a valid UTF-8 text stays valid.
use echo_ai_c.Base.{
  ℕ, zero, suc, ◌+◌, ◌-◌, ◌/◌, ◌%◌, ◌≤◌, ◌<◌, ◌≡◌, refl, sym, ap, ◌∙◌, arith, Bool, true, ◌&&◌,
  List, [], ◌∷◌, ◌++◌, append_assoc, some, ltb, leb, Bytes, codes, length, length-append,
  length-take, All, take, Bool-cases, inl, inr,
}
use echo_ai_c.Utf8.{utf8_encode_cp, utf8_valid, utf8_cut_boundary}
use echo_ai_c.Utf8.Encode.{IsScalar, encode_all, utf8_valid_iff}
use echo_ai_c.Utf8.Cut.{utf8_valid-cut}
use echo_ai_c.StringUtils.{decimal, omitted_marker, keep_boundary, str_truncate_ellipsis_dup}

same_boundary : (s : Bytes) (n : ℕ) → keep_boundary s n ≡ utf8_cut_boundary s n
unfolding keep_boundary utf8_cut_boundary
same_boundary s zero = refl
same_boundary s (suc n) = rw (same_boundary s n) refl

abbrev is_ascii : Bytes → Bool
is_ascii [] = true
is_ascii (c ∷ s) = ltb c 128 && is_ascii s

is_ascii-append : (s t : Bytes) → is_ascii s ≡ true → is_ascii t ≡ true → is_ascii (s ++ t) ≡ true
is_ascii-append [] t h k = k
is_ascii-append (c ∷ s) t h k = ground (arith, h, is_ascii-append s t (ground (arith, h)) k)

is_ascii-take : (n : ℕ) (s : Bytes) → is_ascii s ≡ true → is_ascii (take n s) ≡ true
is_ascii-take zero s h = refl
is_ascii-take (suc n) [] h = refl
is_ascii-take (suc n) (c ∷ s) h = ground (arith, h, is_ascii-take n s (ground (arith, h)))

is_ascii-decimal : (fuel n : ℕ) → is_ascii (decimal fuel n) ≡ true
unfolding decimal
is_ascii-decimal zero n = refl
is_ascii-decimal (suc fuel) n = elim (Bool-cases (ltb n 10)) [
  | inl t ↦ rw t (ground (arith, t))
  | inr f ↦ rw f (
      is_ascii-append (decimal fuel (n / 10)) ((b'0' + n % 10) ∷ [])
        (is_ascii-decimal fuel (n / 10)) (ground arith))
]

is_ascii-omitted_marker : (n : ℕ) → is_ascii (omitted_marker n) ≡ true
unfolding omitted_marker
is_ascii-omitted_marker n =
    is_ascii-append (codes "[... truncated, ") (decimal 20 n ++ codes " chars omitted ...]") refl
      (is_ascii-append (decimal 20 n) (codes " chars omitted ...]") (is_ascii-decimal 20 n) refl)

encode_all-append : (a b : List ℕ) → encode_all (a ++ b) ≡ encode_all a ++ encode_all b
unfolding encode_all
encode_all-append [] b = refl
encode_all-append (c ∷ a) b =
    ap (◌++◌ (utf8_encode_cp c)) (encode_all-append a b)
    ∙ sym (append_assoc (utf8_encode_cp c) (encode_all a) (encode_all b))

All-append : (a b : List ℕ) → All IsScalar a → All IsScalar b → All IsScalar (a ++ b)
All-append [] b h k = k
All-append (c ∷ a) b h k = (h.0, All-append a b h.1 k)

Encodes-ascii : (s : Bytes) → is_ascii s ≡ true → (All IsScalar s) × (s ≡ encode_all s)
unfolding encode_all utf8_encode_cp
Encodes-ascii [] h = (tt, refl)
Encodes-ascii (c ∷ s) h =
    let rest = Encodes-ascii s (ground (arith, h)) in
    let small : c < 128 = ground (arith, h) in
    ((ground (arith, small), rest.0), ground (arith, small, rest.1))

valid-append :
    (s t : Bytes) → utf8_valid s ≡ some true → is_ascii t ≡ true → utf8_valid (s ++ t) ≡ some true
valid-append s t v h =
    let (cps, scalars, e) = (utf8_valid_iff s).1.0 v in
    let (ascii, f) = Encodes-ascii t h in
    (utf8_valid_iff (s ++ t)).1.1 (
      cps ++ t,
      All-append cps t scalars ascii,
      rw (encode_all-append cps t) (ap (λ x. x ++ t) e ∙ ap (◌++◌ (encode_all cps)) f),
    )

-- The front of a text before the cut.
front_lem :
    (text : Bytes) (n : ℕ)
    → utf8_valid text ≡ some true
    → n ≤ length text
    → (utf8_valid (take (keep_boundary text n) text) ≡ some true)
      × (length (take (keep_boundary text n) text) ≤ n)
front_lem text n v l =
    let cut = utf8_valid-cut text n v l in
    rw (same_boundary text n)
      (cut.0, ground (arith, length-take (utf8_cut_boundary text n) text, cut.1))

-- Where memory is given, a text that is valid UTF-8 is truncated to a valid text of at most `max_chars`
-- bytes, and a text of no more bytes is returned as it is.
pub str_truncate_ellipsis_dup-valid :
    (text : Bytes) (max_chars : ℕ)
    → utf8_valid text ≡ some true
    → (out : Bytes) × (str_truncate_ellipsis_dup true text max_chars ≡ some out)
      × (length out ≤ max_chars)
      × (utf8_valid out ≡ some true)
      × (length text ≤ max_chars → out ≡ text)
unfolding str_truncate_ellipsis_dup
str_truncate_ellipsis_dup-valid text max_chars v =
    let marker : Bytes = take 63 (omitted_marker (length text - max_chars)) in
    elim (Bool-cases (leb (length text) max_chars)) [
      | inl fits ↦ rw fits (text, refl, ground (arith, fits), v, (λ l. refl))
      | inr long ↦ rw long (elim (Bool-cases (ltb (length marker + 1) max_chars)) [
        | inl room ↦
            let front = front_lem text (max_chars - length marker) v (ground (arith, long, room)) in
            rw room (
              take (keep_boundary text (max_chars - length marker)) text ++ marker,
              refl,
              ground (
                arith,
                room,
                front.1,
                length-append (take (keep_boundary text (max_chars - length marker)) text) marker,
              ),
              valid-append _ marker front.0 (
                  is_ascii-take 63 (omitted_marker (length text - max_chars))
                    (is_ascii-omitted_marker (length text - max_chars))),
              (λ l. absurd (ground (arith, l, long))),
            )
        | inr tight ↦
            let front = front_lem text max_chars v (ground (arith, long)) in
            rw tight (
              take (keep_boundary text max_chars) text,
              refl,
              front.1,
              front.0,
              (λ l. absurd (ground (arith, l, long))),
            )
      ])
    ]
