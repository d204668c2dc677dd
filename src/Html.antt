-- ===== src/Html.antt =====
-- src/utils/html_entities.c and the class and id patterns of src/utils/html_tags.c. A position in the page
-- is the list of the bytes from it.
mod Tests
pub mod Decode
pub mod Written
pub mod Numeric
pub mod Patterns
use echo_ai_c.Base.{
  ℕ, zero, suc, ◌+◌, ◌-◌, ◌*◌, ◌/◌, Bool, true, false, ◌&&◌, ◌||◌, Option, none, some, List, [],
  ◌∷◌, Bytes, codes, bytes_eq, to_lower, leb, ltb, ◌==◌, if◌then◌else◌, length,
}
use echo_ai_c.Utf8.{utf8_encode_cp, cp1252_cp}

-- The names with their bytes in Windows-1252.
abbrev pub entity_table : List (Bytes × ℕ)
entity_table =
    (codes "amp", b'&')
    ∷ (codes "lt", b'<')
    ∷ (codes "gt", b'>')
    ∷ (codes "quot", 34)
    ∷ (codes "apos", 39)
    ∷ (codes "nbsp", 0xA0)
    ∷ (codes "copy", 0xA9)
    ∷ (codes "reg", 0xAE)
    ∷ (codes "trade", 0x99)
    ∷ (codes "hellip", 0x85)
    ∷ (codes "mdash", 0x97)
    ∷ (codes "ndash", 0x96)
    ∷ (codes "lsquo", 0x91)
    ∷ (codes "rsquo", 0x92)
    ∷ (codes "ldquo", 0x93)
    ∷ (codes "rdquo", 0x94)
    ∷ (codes "middot", 0xB7)
    ∷ (codes "bull", 0x95)
    ∷ (codes "deg", 0xB0)
    ∷ (codes "plusmn", 0xB1)
    ∷ (codes "times", 0xD7)
    ∷ (codes "divide", 0xF7)
    ∷ (codes "frac12", 0xBD)
    ∷ (codes "frac14", 0xBC)
    ∷ (codes "frac34", 0xBE)
    ∷ (codes "sup2", 0xB2)
    ∷ (codes "sup3", 0xB3)
    ∷ (codes "para", 0xB6)
    ∷ (codes "sect", 0xA7)
    ∷ (codes "permil", 0x89)
    ∷ (codes "euro", 0x80)
    ∷ (codes "pound", 0xA3)
    ∷ (codes "cent", 0xA2)
    ∷ (codes "yen", 0xA5)
    ∷ (codes "micro", 0xB5)
    ∷ (codes "eacute", 0xE9)
    ∷ (codes "agrave", 0xE0)
    ∷ (codes "ntilde", 0xF1)
    ∷ (codes "ccedil", 0xE7)
    ∷ (codes "szlig", 0xDF)
    ∷ (codes "uuml", 0xFC)
    ∷ (codes "aacute", 0xE1)
    ∷ (codes "iacute", 0xED)
    ∷ (codes "oacute", 0xF3)
    ∷ (codes "uacute", 0xFA)
    ∷ (codes "auml", 0xE4)
    ∷ (codes "igrave", 0xEC)
    ∷ (codes "ograve", 0xF2)
    ∷ (codes "ugrave", 0xF9)
    ∷ (codes "acirc", 0xE2)
    ∷ (codes "ecirc", 0xEA)
    ∷ (codes "icirc", 0xEE)
    ∷ (codes "ocirc", 0xF4)
    ∷ (codes "ucirc", 0xFB)
    ∷ (codes "atilde", 0xE3)
    ∷ (codes "otilde", 0xF5)
    ∷ []

unfoldable pub lookup_in : List (Bytes × ℕ) → Bytes → Option ℕ
lookup_in [] name = none
lookup_in (e ∷ es) name = if bytes_eq e.0 name then some e.1 else lookup_in es name

unfoldable pub entity_lookup : Bytes → Option ℕ
unfolding lookup_in
entity_lookup name = lookup_in entity_table name

unfoldable pub digit_value : Bool → ℕ → Option ℕ
digit_value is_hex c =
    if leb b'0' c && leb c b'9'
    then some (c - b'0')
    else if is_hex && (leb b'a' c && leb c b'f')
    then some (c - b'a' + 10)
    else if is_hex && (leb b'A' c && leb c b'F')
    then some (c - b'A' + 10)
    else none

abbrev pub base_of : Bool → ℕ
base_of true = 16
base_of false = 10

-- The digits, at most as many as there are rounds, after a value `v`: the value, how many they are, and what
-- follows them; `none` if the value gets too large.
unfoldable pub digits_from : ℕ → Bool → ℕ → Bytes → Option (ℕ × ℕ × Bytes)
unfolding digit_value
digits_from zero is_hex v s = some (v, 0, s)
digits_from (suc rounds) is_hex v [] = some (v, 0, [])
digits_from (suc rounds) is_hex v (c ∷ s) = elim (digit_value is_hex c) [
  | none ↦ some (v, 0, c ∷ s)
  | some d ↦
      let more = digits_from rounds is_hex (v * base_of is_hex + d) s in
      if ltb ((0x10FFFF - d) / base_of is_hex) v
      then none
      else elim more [ none ↦ none | some (w, n, rest) ↦ some (w, suc n, rest) ]
]

-- Whether a semicolon comes next, as a number of bytes.
unfoldable pub semicolon : Bytes → ℕ
semicolon [] = 0
semicolon (c ∷ s) = if c == b';' then 1 else 0

-- An entity that took `before` bytes up to its end, but for a semicolon.
unfoldable pub numeric_entity : ℕ → ℕ × ℕ × Bytes → Option (Bytes × ℕ)
unfolding utf8_encode_cp semicolon
numeric_entity before (v, zero, rest) = none
numeric_entity before (v, suc n, rest) = elim (utf8_encode_cp v) [
  | [] ↦ none
  | c ∷ out ↦ some (c ∷ out, before + suc n + semicolon rest)
]

unfoldable pub decode_number : Bool → ℕ → Bytes → Option (Bytes × ℕ)
unfolding digits_from numeric_entity
decode_number is_hex before s = elim (digits_from 8 is_hex 0 s) [
  | none ↦ none
  | some digits ↦ numeric_entity before digits
]

unfoldable pub is_alnum : ℕ → Bool
is_alnum c =
    (leb b'0' c && leb c b'9') || ((leb b'A' c && leb c b'Z') || (leb b'a' c && leb c b'z'))

-- The letters and digits, at most as many as there are rounds, and what follows them.
unfoldable pub read_name : ℕ → Bytes → Bytes × Bytes
unfolding is_alnum
read_name zero s = ([], s)
read_name (suc rounds) [] = ([], [])
read_name (suc rounds) (c ∷ s) =
    let more = read_name rounds s in if is_alnum c then (c ∷ more.0, more.1) else ([], c ∷ s)

unfoldable pub named_entity : Bytes × Bytes → Option (Bytes × ℕ)
unfolding entity_lookup utf8_encode_cp cp1252_cp semicolon
named_entity ([], rest) = none
named_entity (c ∷ name, rest) = elim (entity_lookup (c ∷ name)) [
  | none ↦ none
  | some ch ↦ some (utf8_encode_cp (cp1252_cp ch), 1 + suc (length name) + semicolon rest)
]

-- The bytes that the entity at a position stands for, and how many bytes it takes.
unfoldable pub decode_entity : Bytes → Option (Bytes × ℕ)
unfolding decode_number read_name named_entity
decode_entity [] = none
decode_entity (a ∷ []) = none
decode_entity (a ∷ b ∷ s) =
    if a == b'&'
    then (if b == b'#'
        then elim s [
          | [] ↦ decode_number false 2 []
          | x ∷ r ↦
              if x == b'x' || x == b'X'
              then decode_number true 3 r
              else decode_number false 2 (x ∷ r)
        ]
        else named_entity (read_name 11 (b ∷ s)))
    else none

abbrev pub neg_patterns : List Bytes
neg_patterns =
    codes "nav"
    ∷ codes "footer"
    ∷ codes "header"
    ∷ codes "sidebar"
    ∷ codes "ads"
    ∷ codes "comment"
    ∷ codes "promo"
    ∷ codes "advert"
    ∷ codes "social"
    ∷ codes "share"
    ∷ []

-- `while (j < plen && tolower(s[i + j]) == pattern[j]) j++; j == plen`
unfoldable pub matches_at : Bytes → Bytes → Bool
unfolding to_lower
matches_at s [] = true
matches_at [] (y ∷ p) = false
matches_at (x ∷ s) (y ∷ p) = to_lower x == y && matches_at s p

-- The positions that leave room for the pattern.
unfoldable pub matches_in : Bytes → Bytes → Bool
unfolding matches_at
matches_in [] p = length p == 0
matches_in (x ∷ s) p =
    let later = matches_in s p in
    if ltb (suc (length s)) (length p) then false else matches_at (x ∷ s) p || later

unfoldable pub some_pattern : List Bytes → Bytes → Bool
unfolding matches_in
some_pattern [] s = false
some_pattern (p ∷ ps) s =
    if ltb (length s) (length p) then some_pattern ps s else (matches_in s p || some_pattern ps s)

unfoldable pub has_neg_pattern : Bytes → Bool
unfolding some_pattern
has_neg_pattern s = some_pattern neg_patterns s
