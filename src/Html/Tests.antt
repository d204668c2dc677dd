-- ===== src/Html/Tests.antt =====
-- Entities and class names.
use echo_ai_c.Base.{
  ℕ, Bool, false, ◌+◌, ◌≡◌, refl, arith, true, inl, some, [], ◌∷◌, ◌++◌, map, codes, bytes_eq,
  to_lower, has_substring, any,
}
use echo_ai_c.Utf8.{utf8_encode_cp}
use echo_ai_c.Utf8.Encode.{IsScalar}
use echo_ai_c.Html.{decode_entity, neg_patterns, has_neg_pattern}
use echo_ai_c.Html.Decode.{IsDecoded, decode_entity-IsDecoded}
use echo_ai_c.Html.Written.{Digit}
use echo_ai_c.Html.Numeric.{decode_entity-numeral}
use echo_ai_c.Html.Patterns.{has_neg_pattern-any}

decodes_a_name : decode_entity (codes "&euro;x") ≡ some (0xE2 ∷ 0x82 ∷ 0xAC ∷ [], 6)
unfolding decode_entity bytes_eq
decodes_a_name = refl

decode_entity-IsDecoded_example : IsDecoded (codes "&euro;x") (0xE2 ∷ 0x82 ∷ 0xAC ∷ []) 6
decode_entity-IsDecoded_example =
    decode_entity-IsDecoded (codes "&euro;x") (0xE2 ∷ 0x82 ∷ 0xAC ∷ []) 6 decodes_a_name

euro-IsScalar : IsScalar 0x20AC
euro-IsScalar = record { in_unicode = omega arith; no_surrogate = inl (omega arith) }

abbrev digit : ℕ → Bool → Digit
digit n up = record { value = n; upper = up }

decode_entity-numeral_example :
    decode_entity (codes "&#x" ++ (codes "20aC" ++ (codes ";" ++ codes "z")))
    ≡ some (utf8_encode_cp 0x20AC, 3 + 4 + 1)
decode_entity-numeral_example =
    decode_entity-numeral true (digit 2 false) (digit 0 false ∷ digit 10 false ∷ digit 12 true ∷ [])
      (codes "z") (omega arith) euro-IsScalar (omega arith)

has_neg_pattern-any_example :
    has_neg_pattern (codes "Top-NAV")
    ≡ any (λ p. has_substring (map to_lower (codes "Top-NAV")) p) neg_patterns
has_neg_pattern-any_example = has_neg_pattern-any (codes "Top-NAV")

finds_a_pattern : has_neg_pattern (codes "Top-NAV") ≡ true
unfolding has_neg_pattern
finds_a_pattern = refl

-- After eight zeros the digits that follow are left in the text.
cuts_long_numerals : decode_entity (codes "&#0000000065;") ≡ some (0 ∷ [], 10)
unfolding decode_entity
cuts_long_numerals = refl
