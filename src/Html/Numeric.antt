-- ===== src/Html/Numeric.antt =====
-- Numeric entities against the value of their digits.
use echo_ai_c.Base.{
  ℕ, zero, suc, ap, ◌∙◌, List, map, All, ◌+◌, ◌-◌, ◌*◌, ◌/◌, ◌≤◌, ◌≡◌, refl, arith, Bool, true,
  false, ◌||◌, Option, none, some, [], ◌∷◌, ◌++◌, Bytes, ltb, ◌==◌, length, Option-cases, inl, inr,
}
use echo_ai_c.Html.Written.{Digit, written_digit, radix, number, InBase, digit_value-written_digit}
use echo_ai_c.Utf8.{utf8_encode_cp}
use echo_ai_c.Utf8.Encode.{IsScalar}
use echo_ai_c.Html.{
  digit_value, base_of, digits_from, semicolon, numeric_entity, decode_number, decode_entity,
}

-- The value of a numeral that follows a value, and whether it is one.
abbrev numeral : Bool → ℕ → Bytes → Option ℕ
numeral is_hex v [] = some v
numeral is_hex v (c ∷ ds) = elim (digit_value is_hex c) [
  | none ↦ none
  | some d ↦ numeral is_hex (v * base_of is_hex + d) ds
]

numeral-le : (is_hex : Bool) (v w : ℕ) (ds : Bytes) → numeral is_hex v ds ≡ some w → v ≤ w
numeral-le is_hex v w [] h = ground (arith, h)
numeral-le is_hex v w (c ∷ ds) h = elim (Option-cases (digit_value is_hex c)) [
  | inl e ↦ absurd (ground (arith, h, e))
  | inr (d, e) ↦
      let rest : numeral is_hex (v * base_of is_hex + d) ds ≡ some w = ground (arith, h, e) in
      by_base is_hex d (numeral-le is_hex (v * base_of is_hex + d) w ds rest)
]
  where
    by_base : (hex : Bool) (d : ℕ) → v * base_of hex + d ≤ w → v ≤ w
    by_base true d h = omega arith
    by_base false d h = omega arith

stops : (is_hex : Bool) → digit_value is_hex b';' ≡ none
unfolding digit_value
stops true = refl
stops false = refl

in_bounds :
    (is_hex : Bool) (v d : ℕ)
    → v * base_of is_hex + d ≤ 0x10FFFF
    → ltb ((0x10FFFF - d) / base_of is_hex) v ≡ false
in_bounds true v d h = ground (arith, h)
in_bounds false v d h = ground (arith, h)

digits_from-numeral :
    (rounds : ℕ) (is_hex : Bool) (v w : ℕ) (ds r : Bytes)
    → numeral is_hex v ds ≡ some w
    → w ≤ 0x10FFFF
    → length ds ≤ rounds
    → digits_from rounds is_hex v (ds ++ (b';' ∷ r)) ≡ some (w, length ds, b';' ∷ r)
unfolding digits_from
digits_from-numeral zero is_hex v w [] r h small few = ground (arith, h)
digits_from-numeral (suc rounds) is_hex v w [] r h small few = ground (arith, h, stops is_hex)
digits_from-numeral zero is_hex v w (c ∷ ds) r h small few = absurd (omega arith)
digits_from-numeral (suc rounds) is_hex v w (c ∷ ds) r h small few =
    elim (Option-cases (digit_value is_hex c)) [
      | inl e ↦ absurd (ground (arith, h, e))
      | inr (d, e) ↦
          let rest : numeral is_hex (v * base_of is_hex + d) ds ≡ some w = ground (arith, h, e) in
          let below = numeral-le is_hex (v * base_of is_hex + d) w ds rest in
          let fits = in_bounds is_hex v d (omega arith) in
          let ih =
            digits_from-numeral rounds is_hex (v * base_of is_hex + d) w ds r rest small
              (omega arith) in
          rw (digits_from, e, fits, ih) refl
    ]

encoded :
    (w before n : ℕ) (r : Bytes)
    → IsScalar w
    → numeric_entity before (w, suc n, b';' ∷ r) ≡ some (utf8_encode_cp w, before + suc n + 1)
unfolding numeric_entity utf8_encode_cp semicolon
encoded w before n r h = ground (arith, h.in_unicode, h.no_surrogate)

decode_number-numeral :
    (is_hex : Bool) (before w : ℕ) (c : ℕ) (ds r : Bytes)
    → numeral is_hex 0 (c ∷ ds) ≡ some w
    → IsScalar w
    → length (c ∷ ds) ≤ 8
    → decode_number is_hex before ((c ∷ ds) ++ (b';' ∷ r))
      ≡ some (utf8_encode_cp w, before + length (c ∷ ds) + 1)
unfolding decode_number
decode_number-numeral is_hex before w c ds r h scalar few =
    rw (decode_number, digits_from-numeral 8 is_hex 0 w (c ∷ ds) r h scalar.in_unicode few)
      (encoded w before (length ds) r scalar)

no_mark :
    (c : ℕ) (ds : Bytes) (w : ℕ)
    → numeral false 0 (c ∷ ds) ≡ some w
    → (c == b'x' || c == b'X') ≡ false
unfolding digit_value
no_mark c ds w h = ground (arith, h)

base_of-radix : (is_hex : Bool) → base_of is_hex ≡ radix is_hex
base_of-radix true = refl
base_of-radix false = refl

numeral-number :
    (is_hex : Bool) (v : ℕ) (ds : List Digit)
    → All (InBase is_hex) ds
    → numeral is_hex v (map written_digit ds) ≡ some (number (radix is_hex) v ds)
numeral-number is_hex v [] h = refl
numeral-number is_hex v (d ∷ ds) h =
    step is_hex v (written_digit d) d.value (map written_digit ds)
      (digit_value-written_digit is_hex d h.0)
    ∙ ap (λ b. numeral is_hex (v * b + d.value) (map written_digit ds)) (base_of-radix is_hex)
    ∙ numeral-number is_hex (v * radix is_hex + d.value) ds h.1
  where
    step :
        (hex : Bool) (v c n : ℕ) (cs : Bytes)
        → digit_value hex c ≡ some n
        → numeral hex v (c ∷ cs) ≡ numeral hex (v * base_of hex + n) cs
    step hex v c n cs e = rw (numeral, e) refl

length-written : (ds : List Digit) → length (map written_digit ds) ≡ length ds
length-written [] = refl
length-written (d ∷ ds) = ap suc (length-written ds)

-- "&#", then "x" for a hexadecimal numeral.
abbrev pub opened : Bool → Bytes
opened true = b'&' ∷ b'#' ∷ b'x' ∷ []
opened false = b'&' ∷ b'#' ∷ []

by_mark :
    (is_hex : Bool) (w c : ℕ) (ds r : Bytes)
    → numeral is_hex 0 (c ∷ ds) ≡ some w
    → IsScalar w
    → length (c ∷ ds) ≤ 8
    → decode_entity (opened is_hex ++ ((c ∷ ds) ++ (b';' ∷ r)))
      ≡ some (utf8_encode_cp w, length (opened is_hex) + length (c ∷ ds) + 1)
unfolding decode_entity
by_mark true w c ds r h scalar few = decode_number-numeral true 3 w c ds r h scalar few
by_mark false w c ds r h scalar few =
    rw (no_mark c ds w h) (decode_number-numeral false 2 w c ds r h scalar few)

-- A number that is written with 1 to 8 decimal digits, or hexadecimal ones in either case, between its mark and
-- a semicolon, whatever follows, is decoded as the encoding of that number, if it is a Unicode scalar value,
-- and all of the entity is taken.
pub decode_entity-numeral :
    (is_hex : Bool) (d : Digit) (ds : List Digit) (r : Bytes)
    → All (InBase is_hex) (d ∷ ds)
    → IsScalar (number (radix is_hex) 0 (d ∷ ds))
    → length (d ∷ ds) ≤ 8
    → decode_entity (opened is_hex ++ (map written_digit (d ∷ ds) ++ (b';' ∷ r)))
      ≡ some (
        utf8_encode_cp (number (radix is_hex) 0 (d ∷ ds)),
        length (opened is_hex) + length (d ∷ ds) + 1,
      )
decode_entity-numeral is_hex d ds r h scalar few =
    let same : length (map written_digit ds) ≡ length ds = length-written ds in
    by_mark is_hex (number (radix is_hex) 0 (d ∷ ds)) (written_digit d) (map written_digit ds) r
      (numeral-number is_hex 0 (d ∷ ds) h) scalar (omega (arith, few, same))
    ∙ rw same refl
