-- ===== src/Html/Decode.antt =====
-- A decoded entity is valid UTF-8 and lies within the page.
use echo_ai_c.Base.{
  ℕ, zero, suc, ◌+◌, ◌*◌, ◌≤◌, ◌≡◌, refl, sym, ◌∙◌, subst, arith, Bool, true, false, ◌||◌, Option,
  none, some, [], ◌∷◌, append-nil, Bytes, leb, ◌==◌, if◌then◌else◌, length, Bool-cases,
  Option-cases, inl, inr, ◌⊎◌,
}
use echo_ai_c.Utf8.{utf8_encode_cp, cp1252_cp, utf8_valid}
use echo_ai_c.Utf8.Encode.{IsScalar, Encodes, encode_all, utf8_valid_iff}
use echo_ai_c.Html.{
  digit_value, base_of, digits_from, semicolon, numeric_entity, decode_number, read_name,
  entity_lookup, named_entity, decode_entity,
}

encode_cp_cases : (cp : ℕ) → IsScalar cp ⊎ (utf8_encode_cp cp ≡ [])
unfolding utf8_encode_cp
encode_cp_cases cp = elim (Bool-cases (leb cp 0x10FFFF)) [
  | inr big ↦ inr (ground (arith, big))
  | inl small ↦ elim (Bool-cases (leb 0xD800 cp)) [
    | inr low ↦
        inl record { in_unicode = ground (arith, small); no_surrogate = inl (ground (arith, low)) }
    | inl high ↦ elim (Bool-cases (leb cp 0xDFFF)) [
      | inl surrogate ↦ inr (ground (arith, small, high, surrogate))
      | inr above ↦
          inl record {
            in_unicode = ground (arith, small);
            no_surrogate = inr (ground (arith, above));
          }
    ]
  ]
]

utf8_valid-encode_cp : (cp : ℕ) → utf8_valid (utf8_encode_cp cp) ≡ some true
utf8_valid-encode_cp cp = (utf8_valid_iff (utf8_encode_cp cp)).1.1 (encoded (encode_cp_cases cp))
  where
    encoded : IsScalar cp ⊎ (utf8_encode_cp cp ≡ []) → Encodes (utf8_encode_cp cp)
    encoded (inl h) = (cp ∷ [], (h, tt), unfold encode_all in sym (append-nil (utf8_encode_cp cp)))
    encoded (inr e) = ([], tt, unfold encode_all in e)

semicolon_le : (s : Bytes) → semicolon s ≤ length s
unfolding semicolon
semicolon_le [] = omega arith
semicolon_le (c ∷ s) = ground arith

pub digits_from-length :
    (rounds : ℕ) (is_hex : Bool) (v w n : ℕ) (s rest : Bytes)
    → digits_from rounds is_hex v s ≡ some (w, n, rest)
    → n + length rest ≡ length s
unfolding digits_from
digits_from-length zero is_hex v w n s rest h = ground (arith, h)
digits_from-length (suc rounds) is_hex v w n [] rest h = ground (arith, h)
digits_from-length (suc rounds) is_hex v w n (c ∷ s) rest h =
    elim (Option-cases (digit_value is_hex c)) [
      | inl e ↦ ground (arith, h, e)
      | inr (d, e) ↦ elim (Option-cases (digits_from rounds is_hex (v * base_of is_hex + d) s)) [
        | inl f ↦ absurd (ground (arith, h, e, f))
        | inr ((w', n', rest'), f) ↦
            let ih = digits_from-length rounds is_hex (v * base_of is_hex + d) w' n' s rest' f in
            ground (arith, h, e, f, ih)
      ]
    ]

-- What holds of an entity that is decoded at a position.
abbrev pub IsDecoded : Bytes → Bytes → ℕ → Type 0
IsDecoded s out n = (utf8_valid out ≡ some true) × (1 ≤ n) × (n ≤ length s)

numeric_decoded :
    (before v digits : ℕ) (rest out : Bytes) (n : ℕ)
    → numeric_entity before (v, digits, rest) ≡ some (out, n)
    → (utf8_valid out ≡ some true) × (1 ≤ n) × (n ≤ before + digits + length rest)
unfolding numeric_entity
numeric_decoded before v zero rest out n h = absurd (ground (arith, h))
numeric_decoded before v (suc digits) rest out n h =
    by_bytes (utf8_encode_cp v) h (utf8_valid-encode_cp v)
  where
    by_bytes :
        (b : Bytes)
        → elim b as (λ _. Option (Bytes × ℕ)) [
          | [] ↦ none
          | c ∷ r ↦ some (c ∷ r, before + suc digits + semicolon rest)
        ]
          ≡ some (out, n)
        → utf8_valid b ≡ some true
        → (utf8_valid out ≡ some true) × (1 ≤ n) × (n ≤ before + suc digits + length rest)
    by_bytes [] h valid = absurd (ground (arith, h))
    by_bytes (c ∷ r) h valid =
        let same : (c ∷ r) ≡ out = ground (arith, h) in
        let size : before + suc digits + semicolon rest ≡ n = ground (arith, h) in
        (
          subst (λ b. utf8_valid b ≡ some true) same valid,
          omega arith,
          omega (arith, semicolon_le rest),
        )

number_decoded :
    (is_hex : Bool) (before : ℕ) (s out : Bytes) (n : ℕ)
    → decode_number is_hex before s ≡ some (out, n)
    → (utf8_valid out ≡ some true) × (1 ≤ n) × (n ≤ before + length s)
unfolding decode_number
number_decoded is_hex before s out n h = elim (Option-cases (digits_from 8 is_hex 0 s)) [
  | inl e ↦ absurd (ground (arith, h, e))
  | inr ((v, digits, rest), e) ↦
      let g : numeric_entity before (v, digits, rest) ≡ some (out, n) =
        sym (rw (decode_number, e) refl) ∙ h in
      let (valid, some_bytes, fits) = numeric_decoded before v digits rest out n g in
      (valid, some_bytes, omega (arith, digits_from-length 8 is_hex 0 v digits s rest e))
]

read_name-length :
    (rounds : ℕ) (s : Bytes)
    → length (read_name rounds s).0 + length (read_name rounds s).1 ≡ length s
unfolding read_name
read_name-length zero s = omega arith
read_name-length (suc rounds) [] = omega arith
read_name-length (suc rounds) (c ∷ s) = ground (arith, read_name-length rounds s)

named_decoded :
    (name rest out : Bytes) (n : ℕ)
    → named_entity (name, rest) ≡ some (out, n)
    → (utf8_valid out ≡ some true) × (1 ≤ n) × (n ≤ 1 + length name + length rest)
unfolding named_entity
named_decoded [] rest out n h = absurd (ground (arith, h))
named_decoded (c ∷ name) rest out n h = elim (Option-cases (entity_lookup (c ∷ name))) [
  | inl e ↦ absurd (ground (arith, h, e))
  | inr (ch, e) ↦
      let same : utf8_encode_cp (cp1252_cp ch) ≡ out = ground (arith, h, e) in
      let size : 1 + suc (length name) + semicolon rest ≡ n = ground (arith, h, e) in
      (
        subst (λ b. utf8_valid b ≡ some true) same (utf8_valid-encode_cp (cp1252_cp ch)),
        omega arith,
        omega (arith, semicolon_le rest),
      )
]

-- Whatever stands at a position, the entity that is decoded there stands for valid UTF-8, and takes at least one
-- byte and none behind the end of the page.
pub decode_entity-IsDecoded :
    (s out : Bytes) (n : ℕ) → decode_entity s ≡ some (out, n) → IsDecoded s out n
unfolding decode_entity
decode_entity-IsDecoded [] out n h = absurd (ground (arith, h))
decode_entity-IsDecoded (a ∷ []) out n h = absurd (ground (arith, h))
decode_entity-IsDecoded (a ∷ b ∷ s) out n h = elim (Bool-cases (a == b'&')) [
  | inr f ↦ absurd (ground (arith, h, f))
  | inl t ↦ elim (Bool-cases (b == b'#')) [
    | inr g ↦
        let named : named_entity (read_name 11 (b ∷ s)) ≡ some (out, n) = ground (arith, h, t, g) in
        let (valid, some_bytes, fits) =
          named_decoded (read_name 11 (b ∷ s)).0 (read_name 11 (b ∷ s)).1 out n named in
        (valid, some_bytes, omega (arith, read_name-length 11 (b ∷ s)))
    | inl u ↦ by_rest s (ground (arith, h, t, u))
  ]
]
  where
    by_rest :
        (r : Bytes)
        → elim r as (λ _. Option (Bytes × ℕ)) [
          | [] ↦ decode_number false 2 []
          | x ∷ q ↦
              if x == b'x' || x == b'X'
              then decode_number true 3 q
              else decode_number false 2 (x ∷ q)
        ]
          ≡ some (out, n)
        → IsDecoded (a ∷ b ∷ r) out n
    by_rest [] h = number_decoded false 2 [] out n h
    by_rest (x ∷ q) h = elim (Bool-cases (x == b'x' || x == b'X')) [
      | inl t ↦
          let (valid, some_bytes, fits) = number_decoded true 3 q out n (ground (arith, h, t)) in
          (valid, some_bytes, omega arith)
      | inr f ↦
          let (valid, some_bytes, fits) =
            number_decoded false 2 (x ∷ q) out n (ground (arith, h, f)) in
          (valid, some_bytes, omega arith)
    ]
