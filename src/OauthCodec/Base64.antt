-- ===== src/OauthCodec/Base64.antt =====
-- base64url: decoding what was encoded.
use echo_ai_c.Base.{
  ℕ, ◌+◌, ◌*◌, ◌/◌, ◌%◌, ◌^◌, ◌<◌, ◌≤◌, ◌≡◌, ◌≢◌, refl, ◌∙◌, arith, Bool, true, false, [], ◌∷◌, All,
  Option, none, some, Bytes, length, passes, passes-at, ap, sym, Option-cases, inl, inr, ◌==◌, ltb,
}
use echo_ai_c.OauthCodec.{
  digit_of, encode_groups, base64url_encode, base64url_value, decode_groups, base64url_decode,
  oauth_value_max,
}

abbrev pub IsBytes : Bytes → Type 0
IsBytes = All (λ b. b < 256)

is_value : Option ℕ → ℕ → Bool
is_value none i = false
is_value (some j) i = j == i

is_value-eq : (o : Option ℕ) (i : ℕ) → is_value o i ≡ true → o ≡ some i
unfolding is_value
is_value-eq none i e = cc
is_value-eq (some j) i e = ground arith

-- The character of each six bits has these six bits as its value.
reads_back : ℕ → Bool
unfolding is_value base64url_value digit_of
reads_back i = is_value (base64url_value (digit_of i)) i

alphabet_table : passes reads_back 64 ≡ true
unfolding passes reads_back
alphabet_table = refl

digit_of-mod : (n : ℕ) → digit_of (n % 64) ≡ digit_of n
unfolding digit_of
digit_of-mod n = let same : n % 64 % 64 ≡ n % 64 = omega arith in rw same refl

digit_of-value : (n : ℕ) → base64url_value (digit_of n) ≡ some (n % 64)
digit_of-value n =
    ap base64url_value (sym (digit_of-mod n))
    ∙ is_value-eq (base64url_value (digit_of (n % 64))) (n % 64)
        (unfold reads_back in passes-at reads_back 64 (n % 64) (omega arith) alphabet_table)

decode_groups-encode_groups : (bs : Bytes) → IsBytes bs → decode_groups (encode_groups bs) ≡ some bs
unfolding decode_groups encode_groups
decode_groups-encode_groups [] h = refl
decode_groups-encode_groups (a ∷ []) h =
    let v : ℕ = a * 2 ^ 16 in
    ground (arith, digit_of-value (v / 2 ^ 18), digit_of-value (v / 2 ^ 12))
decode_groups-encode_groups (a ∷ b ∷ []) h =
    let v : ℕ = a * 2 ^ 16 + b * 2 ^ 8 in
    ground
      (arith, digit_of-value (v / 2 ^ 18), digit_of-value (v / 2 ^ 12), digit_of-value (v / 2 ^ 6))
decode_groups-encode_groups (a ∷ b ∷ c ∷ rest) h =
    let v : ℕ = a * 2 ^ 16 + b * 2 ^ 8 + c in
    ground (
      arith,
      digit_of-value (v / 2 ^ 18),
      digit_of-value (v / 2 ^ 12),
      digit_of-value (v / 2 ^ 6),
      digit_of-value v,
      decode_groups-encode_groups rest h.1.1.1,
    )

encode_groups-length :
    (bs : Bytes)
    → (length (encode_groups bs) ≡ (4 * length bs + 2) / 3) × (length (encode_groups bs) % 4 ≢ 1)
unfolding encode_groups
encode_groups-length [] = ground arith
encode_groups-length (a ∷ []) = ground arith
encode_groups-length (a ∷ b ∷ []) = ground arith
encode_groups-length (a ∷ b ∷ c ∷ rest) = ground (arith, encode_groups-length rest)

base64url_encode-eq :
    (bs out : Bytes) → base64url_encode true bs ≡ some out → out ≡ encode_groups bs
unfolding base64url_encode
base64url_encode-eq bs out e = ground arith

base64url_decode-eq :
    (cs : Bytes)
    → 0 < length cs
    → length cs % 4 ≢ 1
    → length cs ≤ oauth_value_max
    → base64url_decode true cs ≡ decode_groups cs
unfolding base64url_decode
base64url_decode-eq cs p m l =
    let some_bytes : (length cs == 0) ≡ false = ground arith in
    let whole : (length cs % 4 == 1) ≡ false = ground arith in
    let short : ltb oauth_value_max (length cs) ≡ false = ground arith in
    rw (some_bytes, whole, short) refl

-- Every byte string that is not empty and has at most 196608 bytes, the limit that the decoder's
-- limit of 256 KiB on its input leaves, is decoded from its encoding, where memory is given; the
-- encoding has (4 n + 2) / 3 characters for n bytes.
pub base64url_decode-base64url_encode :
    (bs out : Bytes)
    → IsBytes bs
    → 0 < length bs
    → length bs ≤ 196608
    → base64url_encode true bs ≡ some out
    → (base64url_decode true out ≡ some bs) × (length out ≡ (4 * length bs + 2) / 3)
base64url_decode-base64url_encode bs out h pos room e =
    let size = encode_groups-length bs in
    rw (base64url_encode-eq bs out e) (
      base64url_decode-eq (encode_groups bs) (omega arith) size.1 (omega arith)
          ∙ decode_groups-encode_groups bs h,
      size.0,
    )

top_byte :
    (a i j : ℕ)
    → i / 2 ^ 4 ≡ j / 2 ^ 4
    → (a * 2 ^ 18 + i * 2 ^ 12) / 2 ^ 16 % 256 ≡ (a * 2 ^ 18 + j * 2 ^ 12) / 2 ^ 16 % 256
top_byte a i j h = omega arith

-- The decoder does not ask that the unused bits of the last character are zero: two characters that
-- differ in their low four bits alone are read as the same byte.
pub last_bits_ignored :
    (p q r i j : ℕ)
    → base64url_value q ≡ some i
    → base64url_value r ≡ some j
    → i / 2 ^ 4 ≡ j / 2 ^ 4
    → base64url_decode true (p ∷ q ∷ []) ≡ base64url_decode true (p ∷ r ∷ [])
unfolding base64url_decode
last_bits_ignored p q r i j hq hr h =
    rw (hq, hr)
      (elim (Option-cases (base64url_value p)) [
        | inl n ↦ rw n refl
        | inr (a, e) ↦ rw e (ap (λ b. some (b ∷ [])) (top_byte a i j h))
      ])
