-- ===== src/OauthCodec/Url.antt =====
-- URL escapes: decoding what was encoded.
use echo_ai_c.Base.{
  ℕ, ◌+◌, ◌*◌, ◌/◌, ◌%◌, ◌<◌, ◌≤◌, ◌≡◌, ◌≢◌, refl, ◌∙◌, arith, true, false, [], ◌∷◌, All, Option,
  some, Bytes, length, Bool-cases, inl, inr, ◌==◌, ◌^◌, ◌>>=◌, ◌-◌, ltb,
}
use echo_ai_c.OauthCodec.{
  is_url_char, hex_digit, encode_byte, encode_bytes, url_encode, hex_value, is_clean, clean,
  escaped, decode_bytes, url_decode_exact, size_max,
}

-- A byte that the decoder does not refuse: no control character, no DEL.
pub record IsText (c : ℕ) : Type 0 where
  pub byte : c < 256
  pub printable : 0x20 ≤ c
  pub no_del : c ≢ 0x7f

hex_value-hex_digit : (n : ℕ) → n < 16 → hex_value (hex_digit n) ≡ some n
unfolding hex_value hex_digit
hex_value-hex_digit n h = ground arith

abbrev Plain : ℕ → Type 0
Plain c = ((c == b'%') ≡ false) × ((c == b'+') ≡ false) × (is_clean c ≡ true)

is_url_char-Plain : (c : ℕ) → is_url_char c ≡ true → Plain c
unfolding is_url_char is_clean
is_url_char-Plain c h = ground arith

abbrev prepend : ℕ → Option Bytes → Option Bytes
prepend c rest = rest >>= λ out. some (c ∷ out)

clean_text : (c : ℕ) (rest : Option Bytes) → is_clean c ≡ true → clean c rest ≡ prepend c rest
unfolding clean
clean_text c rest h = rw h refl

decode_bytes-Plain :
    (c : ℕ) (cs : Bytes) → Plain c → decode_bytes (c ∷ cs) ≡ prepend c (decode_bytes cs)
unfolding decode_bytes
decode_bytes-Plain c [] h = rw (h.0, h.1) (clean_text c (some []) h.2)
decode_bytes-Plain c (a ∷ []) h = rw (h.0, h.1) (clean_text c (decode_bytes (a ∷ [])) h.2)
decode_bytes-Plain c (a ∷ b ∷ cs) h = rw (h.0, h.1) (clean_text c (decode_bytes (a ∷ b ∷ cs)) h.2)

IsText-clean : (c : ℕ) → IsText c → is_clean c ≡ true
unfolding is_clean
IsText-clean c h = ground arith

decode_bytes-escape :
    (c : ℕ) (cs : Bytes)
    → IsText c
    → decode_bytes (b'%' ∷ hex_digit (c / 2 ^ 4) ∷ hex_digit (c % 16) ∷ cs)
      ≡ prepend c (decode_bytes cs)
unfolding decode_bytes escaped
decode_bytes-escape c cs h =
    let joined : c / 16 * 16 + c % 16 ≡ c = omega arith in
    rw
      (
        hex_value-hex_digit (c / 16) (omega (arith, h.byte)),
        hex_value-hex_digit (c % 16) (omega arith),
        joined,
      )
      (clean_text c (decode_bytes cs) (IsText-clean c h))

decode_bytes-encode_bytes : (cs : Bytes) → All IsText cs → decode_bytes (encode_bytes cs) ≡ some cs
unfolding encode_bytes encode_byte
decode_bytes-encode_bytes [] h = unfold decode_bytes in refl
decode_bytes-encode_bytes (c ∷ cs) h = elim (Bool-cases (is_url_char c)) [
  | inl plain ↦ rw plain (
      decode_bytes-Plain c (encode_bytes cs) (is_url_char-Plain c plain)
      ∙ rw (decode_bytes-encode_bytes cs h.1) refl)
  | inr other ↦
      rw other
        (decode_bytes-escape c (encode_bytes cs) h.0 ∙ rw (decode_bytes-encode_bytes cs h.1) refl)
]

encode_bytes-length :
    (cs : Bytes)
    → (length cs ≤ length (encode_bytes cs)) × (length (encode_bytes cs) ≤ 3 * length cs)
unfolding encode_bytes encode_byte
encode_bytes-length [] = omega arith
encode_bytes-length (c ∷ cs) = ground (arith, encode_bytes-length cs)

url_encode-room :
    (cs : Bytes) → 3 * length cs < size_max → url_encode true cs ≡ some (encode_bytes cs)
unfolding url_encode
url_encode-room cs room =
    let fits : ltb ((size_max - 1) / 3) (length cs) ≡ false = ground (arith, room) in rw fits refl

url_decode_exact-eq :
    (cs : Bytes) → 0 < length cs → length cs < size_max → url_decode_exact true cs ≡ decode_bytes cs
unfolding url_decode_exact
url_decode_exact-eq cs h l =
    let some_bytes : (length cs == 0) ≡ false = ground arith in
    let no_wrap : (length cs == size_max) ≡ false = ground arith in rw (some_bytes, no_wrap) refl

-- Where memory is given, every text that is not empty, has no control character, no DEL and only bytes, and
-- whose threefold length is below 2^64 - 1, is encoded, into at most three bytes a character, and what it is
-- encoded as is decoded to the text.
pub url_decode_exact-url_encode :
    (cs : Bytes)
    → All IsText cs
    → 0 < length cs
    → 3 * length cs < size_max
    → (out : Bytes) × (url_encode true cs ≡ some out)
      × (url_decode_exact true out ≡ some cs)
      × (length out ≤ 3 * length cs)
url_decode_exact-url_encode cs h pos room =
    let size = encode_bytes-length cs in
    (
      encode_bytes cs,
      url_encode-room cs room,
      url_decode_exact-eq (encode_bytes cs) (omega (arith, size, pos)) (omega (arith, size, room))
          ∙ decode_bytes-encode_bytes cs h,
      size.1,
    )
