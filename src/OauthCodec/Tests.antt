-- ===== src/OauthCodec/Tests.antt =====
-- Runs of the codecs, and their theorems at concrete inputs.
use echo_ai_c.Base.{length, ◌*◌, ◌≤◌, ◌≡◌, refl, true, none, some, arith, Bytes, codes}
use echo_ai_c.OauthCodec.{
  url_encode, url_decode_exact, base64url_encode, base64url_decode, base64url_value,
}
use echo_ai_c.OauthCodec.Url.{url_decode_exact-url_encode}
use echo_ai_c.OauthCodec.Base64.{base64url_decode-base64url_encode}

abbrev text : Bytes
text = codes "a b+/%"

abbrev escaped_text : Bytes
escaped_text = codes "a%20b%2B%2F%25"

url_encode_run : url_encode true text ≡ some escaped_text
unfolding url_encode
url_encode_run = refl

url_decode_refuses : url_decode_exact true (codes "%0a") ≡ none
unfolding url_decode_exact
url_decode_refuses = refl

base64_run : base64url_encode true (codes "Man?>") ≡ some (codes "TWFuPz4")
unfolding base64url_encode
base64_run = refl

base64_refuses : base64url_decode true (codes "TWFuP") ≡ none
unfolding base64url_decode
base64_refuses = refl

value_A : base64url_value b'Q' ≡ some 16
unfolding base64url_value
value_A = refl

value_B : base64url_value b'f' ≡ some 31
unfolding base64url_value
value_B = refl

url_decode_exact-url_encode_example :
    (out : Bytes) × (url_encode true text ≡ some out)
    × (url_decode_exact true out ≡ some text)
    × (length out ≤ 3 * length text)
url_decode_exact-url_encode_example =
    url_decode_exact-url_encode text (omega arith) (omega arith) (omega arith)

base64url_decode-base64url_encode_example :
    base64url_decode true (codes "TWFuPz4") ≡ some (codes "Man?>")
base64url_decode-base64url_encode_example =
    (base64url_decode-base64url_encode (codes "Man?>") (codes "TWFuPz4") (omega arith) (omega arith)
      (omega arith) base64_run).0
