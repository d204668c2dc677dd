-- ===== src/OauthCodec.antt =====
-- src/llm/oauth_codec.c: URL escapes, and base64url without padding.
-- A string is the list of its bytes before the NUL; NULL is `none`. The flag `alloc` says that
-- `malloc` gives memory. SHA-256, the random source and `asprintf` are not modelled.
mod Tests
pub mod Url
pub mod Base64
use echo_ai_c.Base.{
  ℕ, zero, suc, ◌+◌, ◌-◌, ◌*◌, ◌/◌, ◌%◌, ◌^◌, Bool, true, false, not, ◌&&◌, ◌||◌, List, [], ◌∷◌,
  ◌++◌, Option, none, some, ltb, leb, ◌==◌, if◌then◌else◌, Bytes, codes, length, get_or, ◌>>=◌,
}

abbrev pub size_max : ℕ
size_max = 2 ^ 64 - 1

-- `OAUTH_VALUE_MAX`
abbrev pub oauth_value_max : ℕ
oauth_value_max = 256 * 1024

abbrev between : ℕ → ℕ → ℕ → Bool
between lo hi c = leb lo c && leb c hi

-- `isalnum` of the C locale, and four marks.
pub is_url_char : ℕ → Bool
is_url_char c =
    between b'a' b'z' c
    || between b'A' b'Z' c
    || between b'0' b'9' c
    || c == b'-'
    || c == b'.'
    || c == b'_'
    || c == b'~'

-- `hex[n]` of "0123456789ABCDEF"
pub hex_digit : ℕ → ℕ
hex_digit n = if ltb n 10 then b'0' + n else b'A' + (n - 10)

pub encode_byte : ℕ → Bytes
unfolding is_url_char hex_digit
encode_byte c =
    if is_url_char c then c ∷ [] else b'%' ∷ hex_digit (c / 2 ^ 4) ∷ hex_digit (c % 16) ∷ []

pub encode_bytes : Bytes → Bytes
unfolding encode_byte
encode_bytes [] = []
encode_bytes (c ∷ cs) = encode_byte c ++ encode_bytes cs

pub url_encode : Bool → Bytes → Option Bytes
unfolding encode_bytes
url_encode alloc value =
    if ltb ((size_max - 1) / 3) (length value)
    then none
    else if alloc
    then some (encode_bytes value)
    else none

-- -1 is `none`.
pub hex_value : ℕ → Option ℕ
hex_value c =
    if between b'0' b'9' c
    then some (c - b'0')
    else if between b'a' b'f' c
    then some (c - b'a' + 10)
    else if between b'A' b'F' c
    then some (c - b'A' + 10)
    else none

-- A byte that the decoder lets through.
pub is_clean : ℕ → Bool
is_clean c = not (ltb c 0x20 || c == 0x7f)

clean : ℕ → Option Bytes → Option Bytes
unfolding is_clean
clean c rest = if is_clean c then (rest >>= λ out. some (c ∷ out)) else none

-- The byte of an escape whose two digits are `a` and `b`.
escaped : ℕ → ℕ → Option Bytes → Option Bytes
unfolding hex_value clean
escaped a b rest = do high ← hex_value a; low ← hex_value b; clean (high * 16 + low) rest

-- The loop. An escape needs two bytes behind the percent sign.
pub decode_bytes : Bytes → Option Bytes
unfolding escaped clean
decode_bytes [] = some []
decode_bytes (c ∷ []) =
    if c == b'%' then none else if c == b'+' then clean b' ' (some []) else clean c (some [])
decode_bytes (c ∷ a ∷ []) =
    let rest = decode_bytes (a ∷ []) in
    if c == b'%' then none else if c == b'+' then clean b' ' rest else clean c rest
decode_bytes (c ∷ a ∷ b ∷ cs) =
    let rest = decode_bytes (a ∷ b ∷ cs) in
    let after = decode_bytes cs in
    if c == b'%' then escaped a b after else if c == b'+' then clean b' ' rest else clean c rest

pub url_decode_exact : Bool → Bytes → Option Bytes
unfolding decode_bytes
url_decode_exact alloc value =
    if length value == 0 || length value == size_max
    then none
    else if alloc
    then decode_bytes value
    else none

abbrev alphabet : Bytes
alphabet = codes "ABCDEFGHIJKLMNOPQRSTUVWXYZabcdefghijklmnopqrstuvwxyz0123456789-_"

-- `table[n & 63]`
pub digit_of : ℕ → ℕ
digit_of n = get_or alphabet (n % 64) 0

-- Three bytes a round; the last round has one, two or three.
pub encode_groups : Bytes → Bytes
unfolding digit_of
encode_groups [] = []
encode_groups (a ∷ []) =
    let value = a * 2 ^ 16 in digit_of (value / 2 ^ 18) ∷ digit_of (value / 2 ^ 12) ∷ []
encode_groups (a ∷ b ∷ []) =
    let value = a * 2 ^ 16 + b * 2 ^ 8 in
    digit_of (value / 2 ^ 18) ∷ digit_of (value / 2 ^ 12) ∷ digit_of (value / 2 ^ 6) ∷ []
encode_groups (a ∷ b ∷ c ∷ rest) =
    let value = a * 2 ^ 16 + b * 2 ^ 8 + c in
    digit_of (value / 2 ^ 18)
    ∷ digit_of (value / 2 ^ 12)
    ∷ digit_of (value / 2 ^ 6)
    ∷ digit_of value
    ∷ encode_groups rest

pub base64url_encode : Bool → Bytes → Option Bytes
unfolding encode_groups
base64url_encode alloc bs =
    if ltb ((size_max - 2) / 4 * 3) (length bs)
    then none
    else if alloc
    then some (encode_groups bs)
    else none

pub base64url_value : ℕ → Option ℕ
base64url_value c =
    if between b'A' b'Z' c
    then some (c - b'A')
    else if between b'a' b'z' c
    then some (c - b'a' + 26)
    else if between b'0' b'9' c
    then some (c - b'0' + 52)
    else if c == b'-'
    then some 62
    else if c == b'_'
    then some 63
    else none

-- Four characters a round; the last round has two, three or four. A single character in the
-- last round is refused, as its missing second one is.
pub decode_groups : Bytes → Option Bytes
unfolding base64url_value
decode_groups [] = some []
decode_groups (p ∷ []) = none
decode_groups (p ∷ q ∷ []) = do
  a ← base64url_value p
  b ← base64url_value q
  some ((a * 2 ^ 18 + b * 2 ^ 12) / 2 ^ 16 % 256 ∷ [])
decode_groups (p ∷ q ∷ r ∷ []) = do
  a ← base64url_value p
  b ← base64url_value q
  c ← base64url_value r
  let value = a * 2 ^ 18 + b * 2 ^ 12 + c * 2 ^ 6
  some (value / 2 ^ 16 % 256 ∷ value / 2 ^ 8 % 256 ∷ [])
decode_groups (p ∷ q ∷ r ∷ s ∷ cs) =
    let more = decode_groups cs in
    do
      a ← base64url_value p
      b ← base64url_value q
      c ← base64url_value r
      d ← base64url_value s
      let value = a * 2 ^ 18 + b * 2 ^ 12 + c * 2 ^ 6 + d
      rest ← more
      some (value / 2 ^ 16 % 256 ∷ value / 2 ^ 8 % 256 ∷ value % 256 ∷ rest)

pub base64url_decode : Bool → Bytes → Option Bytes
unfolding decode_groups
base64url_decode alloc input =
    let len = length input in
    if len == 0 || len % 4 == 1 || ltb oauth_value_max len
    then none
    else if alloc
    then decode_groups input
    else none
