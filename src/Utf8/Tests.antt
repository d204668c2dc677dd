-- ===== src/Utf8/Tests.antt =====
-- Runs of the validator, and its theorems at concrete inputs.
use echo_ai_c.Base.{◌≡◌, ◌≢◌, ◌↔◌, refl, true, false, none, some, [], ◌∷◌, Bytes}
use echo_ai_c.Utf8.{utf8_encode_cp, utf8_valid, utf8_cut_boundary, cp1252_cp}
use echo_ai_c.Utf8.Encode.{Encodes, utf8_valid_iff}

-- "aé€" in UTF-8.
abbrev sample : Bytes
sample = 0x61 ∷ 0xC3 ∷ 0xA9 ∷ 0xE2 ∷ 0x82 ∷ 0xAC ∷ []

encode_run : utf8_encode_cp 0x1F600 ≡ 0xF0 ∷ 0x9F ∷ 0x98 ∷ 0x80 ∷ []
unfolding utf8_encode_cp
encode_run = refl

cp1252_run : cp1252_cp 0x80 ≡ 0x20AC
unfolding cp1252_cp
cp1252_run = refl

sample_valid : utf8_valid sample ≡ some true
unfolding utf8_valid
sample_valid = refl

overlong_refused : utf8_valid (0xC0 ∷ 0x80 ∷ []) ≡ some false
unfolding utf8_valid
overlong_refused = refl

cut_run : utf8_cut_boundary sample 5 ≡ 3
unfolding utf8_cut_boundary
cut_run = refl

utf8_valid_iff_example :
    (utf8_valid sample ≢ none) × ((utf8_valid sample ≡ some true) ↔ Encodes sample)
utf8_valid_iff_example = utf8_valid_iff sample
