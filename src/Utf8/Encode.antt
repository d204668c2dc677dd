-- ===== src/Utf8/Encode.antt =====
-- The validator accepts exactly the encodings of sequences of Unicode scalar values.
use echo_ai_c.Base.{
  ℕ, zero, suc, ◌+◌, ◌-◌, ◌*◌, ◌<◌, ◌≤◌, ◌≡◌, ◌≢◌, ◌↔◌, ◌⊎◌, refl, subst, ap, ◌∙◌, arith, true,
  List, [], ◌∷◌, ◌++◌, Bytes, length, length-append, All, none, some, Option-cases, inl, inr, ltb,
  Bool-cases, if◌then◌else◌,
}
use echo_ai_c.Utf8.{utf8_encode_cp, sequence, valid_from, utf8_valid}

-- A Unicode scalar value.
pub record IsScalar (cp : ℕ) : Type 0 where
  pub in_unicode : cp ≤ 0x10FFFF
  pub no_surrogate : (cp < 0xD800) ⊎ (0xDFFF < cp)

ascii_encode : (c : ℕ) (s : Bytes) → c < 0x80 → utf8_encode_cp c ++ s ≡ c ∷ s
unfolding utf8_encode_cp
ascii_encode c s h = ground arith

utf8_encode_cp_pos : (cp : ℕ) → IsScalar cp → 0 < length (utf8_encode_cp cp)
unfolding utf8_encode_cp
utf8_encode_cp_pos cp h = ground arith

unfoldable pub encode_all : List ℕ → Bytes
encode_all [] = []
encode_all (cp ∷ cps) = utf8_encode_cp cp ++ encode_all cps

valid_from-encode_cp :
    (fuel cp : ℕ) (rest : Bytes)
    → IsScalar cp
    → valid_from (suc fuel) (utf8_encode_cp cp ++ rest) ≡ valid_from fuel rest
unfolding valid_from utf8_encode_cp
valid_from-encode_cp fuel cp rest h = ground arith

-- The code point of a lead byte and what follows it.
decode : ℕ → Bytes → ℕ
decode c (a ∷ b ∷ d ∷ s) =
    if ltb c 0xE0
    then (c - 0xC0) * 64 + (a - 128)
    else if ltb c 0xF0
    then (c - 0xE0) * 4096 + (a - 128) * 64 + (b - 128)
    else (c - 0xF0) * 262144 + (a - 128) * 4096 + (b - 128) * 64 + (d - 128)
decode c (a ∷ b ∷ []) =
    if ltb c 0xE0
    then (c - 0xC0) * 64 + (a - 128)
    else (c - 0xE0) * 4096 + (a - 128) * 64 + (b - 128)
decode c (a ∷ []) = (c - 0xC0) * 64 + (a - 128)
decode c [] = 0

abbrev Decodes : ℕ → Bytes → Bytes → Type 0
Decodes c s rest =
    IsScalar (decode c s) × (utf8_encode_cp (decode c s) ++ rest ≡ c ∷ s) × (length rest < length s)

sequence-decode_two :
    (c a : ℕ) (s rest : Bytes)
    → c < 0xE0
    → sequence c (a ∷ s) ≡ some rest
    → (0xC2 ≤ c) × (0x80 ≤ a) × (a ≤ 0xBF) × (s ≡ rest)
unfolding sequence
sequence-decode_two c a s rest l e = ground arith

sequence-decode_three :
    (c a b : ℕ) (s rest : Bytes)
    → 0xE0 ≤ c
    → c < 0xF0
    → sequence c (a ∷ b ∷ s) ≡ some rest
    → (0x80 ≤ a)
      × (a ≤ 0xBF)
      × (0x80 ≤ b)
      × (b ≤ 0xBF)
      × (s ≡ rest)
      × (c ≡ 0xE0 → 0xA0 ≤ a)
      × (c ≡ 0xED → a ≤ 0x9F)
unfolding sequence
sequence-decode_three c a b s rest l m e = ground arith

sequence-decode_four :
    (c a b d : ℕ) (s rest : Bytes)
    → 0xF0 ≤ c
    → sequence c (a ∷ b ∷ d ∷ s) ≡ some rest
    → (c ≤ 0xF4)
      × (0x80 ≤ a)
      × (a ≤ 0xBF)
      × (0x80 ≤ b)
      × (b ≤ 0xBF)
      × (0x80 ≤ d)
      × (d ≤ 0xBF)
      × (s ≡ rest)
      × (c ≡ 0xF0 → 0x90 ≤ a)
      × (c ≡ 0xF4 → a ≤ 0x8F)
unfolding sequence
sequence-decode_four c a b d s rest l e = ground arith

sequence-decode : (c : ℕ) (s rest : Bytes) → sequence c s ≡ some rest → Decodes c s rest
unfolding decode utf8_encode_cp
sequence-decode c [] rest e = unfold sequence in ground arith
sequence-decode c (a ∷ []) rest e = unfold sequence in ground arith
sequence-decode c (a ∷ b ∷ []) rest e = unfold sequence in ground arith
sequence-decode c (a ∷ b ∷ d ∷ s) rest e = elim (Bool-cases (ltb c 0xE0)) [
  | inl two ↦ ground (arith, sequence-decode_two c a (b ∷ d ∷ s) rest)
  | inr no_two ↦ elim (Bool-cases (ltb c 0xF0)) [
    | inl three ↦ ground (arith, sequence-decode_three c a b (d ∷ s) rest)
    | inr four ↦ ground (arith, sequence-decode_four c a b d s rest)
  ]
]

valid_from-encode_all :
    (cps : List ℕ) (fuel : ℕ)
    → All IsScalar cps
    → length (encode_all cps) < fuel
    → valid_from fuel (encode_all cps) ≡ some true
unfolding encode_all
valid_from-encode_all cps zero h l = absurd (omega arith)
valid_from-encode_all [] (suc fuel) h l = unfold valid_from in refl
valid_from-encode_all (cp ∷ cps) (suc fuel) h l =
    valid_from-encode_cp fuel cp (encode_all cps) h.0
    ∙ valid_from-encode_all cps fuel h.1 (
        omega
          (arith, length-append (utf8_encode_cp cp) (encode_all cps), utf8_encode_cp_pos cp h.0))

-- A sequence of scalar values that a text encodes.
abbrev pub Encodes : Bytes → Type 0
Encodes s = (cps : List ℕ) × All IsScalar cps × (s ≡ encode_all cps)

Encodes-cons : (cp : ℕ) (s : Bytes) → IsScalar cp → Encodes s → Encodes (utf8_encode_cp cp ++ s)
unfolding encode_all
Encodes-cons cp s h (cps, v, e) = (cp ∷ cps, (h, v), ap (◌++◌ (utf8_encode_cp cp)) e)

valid_from-Encodes : (fuel : ℕ) (s : Bytes) → valid_from fuel s ≡ some true → Encodes s
unfolding valid_from
valid_from-Encodes zero s e = cc
valid_from-Encodes (suc fuel) [] e = ([], tt, unfold encode_all in refl)
valid_from-Encodes (suc fuel) (c ∷ s) e = elim (Bool-cases (ltb c 0x80)) [
  | inl ascii ↦
      let more = valid_from-Encodes fuel s (ground arith) in
      subst Encodes (ascii_encode c s (ground arith)) (Encodes-cons c s (ground arith) more)
  | inr high ↦ elim (Option-cases (sequence c s)) [
    | inl n ↦ absurd (ground arith)
    | inr (rest, q) ↦
        let (scalar, same, _) = sequence-decode c s rest q in
        let more = valid_from-Encodes fuel rest (ground arith) in
        subst Encodes same (Encodes-cons (decode c s) rest scalar more)
  ]
]

valid_from-ne-none : (fuel : ℕ) (s : Bytes) → length s < fuel → valid_from fuel s ≢ none
unfolding valid_from
valid_from-ne-none zero s h = absurd (omega arith)
valid_from-ne-none (suc fuel) [] h = ground arith
valid_from-ne-none (suc fuel) (c ∷ s) h = elim (Option-cases (sequence c s)) [
  | inl n ↦ ground (arith, valid_from-ne-none fuel s)
  | inr (rest, q) ↦
      let d = (sequence-decode c s rest q).2 in
      ground (arith, valid_from-ne-none fuel s, valid_from-ne-none fuel rest)
]

-- The validator ends on every text, and accepts it exactly if it is the encoding, by
-- `utf8_encode_cp`, of a sequence of Unicode scalar values: no surrogates, no overlong forms,
-- nothing beyond 0x10FFFF, nothing cut off.
pub utf8_valid_iff : (s : Bytes) → (utf8_valid s ≢ none) × ((utf8_valid s ≡ some true) ↔ Encodes s)
unfolding utf8_valid
utf8_valid_iff s = (
  valid_from-ne-none (suc (length s)) s (omega arith),
  (
    valid_from-Encodes (suc (length s)) s,
    λ (cps, v, e). rw e (valid_from-encode_all cps (suc (length (encode_all cps))) v (omega arith)),
  ),
)
