-- ===== src/Base/ByteStrings.antt =====
-- C strings and buffers as lists of byte values: comparison, prefix and substring tests.
use Prim.Native.Nat.{ℕ, ◌+◌}
use Prim.Native.Char.{code}
use Prim.Native.String.{String}
use mathlib.Core.Path.{◌≡◌, refl}
use mathlib.Core.Logic.{◌↔◌}
use mathlib.Core.Bool.{Bool, true, false, ◌&&◌, ◌||◌}
use mathlib.Core.List.{List, [], ◌∷◌, ◌++◌}
use native.Mathlib.Omega.{arith}
use echo_ai_c.Base.Lists.{length, drop}
use echo_ai_c.Base.Tests.{◌==◌, leb, if◌then◌else◌}

abbrev pub Bytes : Type 0
Bytes = List ℕ

-- The code points of a text: its bytes, if it is ASCII.
abbrev pub codes : String → Bytes
codes String.[] = []
codes (String.◌∷◌ c s) = code c ∷ codes s

-- `strcmp(a, b) == 0`
unfoldable pub bytes_eq : Bytes → Bytes → Bool
bytes_eq [] [] = true
bytes_eq (x ∷ xs) (y ∷ ys) = x == y && bytes_eq xs ys
bytes_eq _ _ = false

-- `strncmp(s, p, strlen(p)) == 0`
unfoldable pub has_prefix : Bytes → Bytes → Bool
has_prefix s [] = true
has_prefix [] (y ∷ ys) = false
has_prefix (x ∷ xs) (y ∷ ys) = x == y && has_prefix xs ys

-- `strstr(s, p) != NULL`
unfoldable pub has_substring : Bytes → Bytes → Bool
unfolding has_prefix
has_substring [] p = has_prefix [] p
has_substring (x ∷ xs) p = has_prefix (x ∷ xs) p || has_substring xs p

-- `memchr(s, c, n) != NULL` over all of `s`
unfoldable pub has_byte : Bytes → ℕ → Bool
has_byte [] c = false
has_byte (x ∷ xs) c = x == c || has_byte xs c

-- The ASCII `tolower`, as `strcasecmp` compares.
unfoldable pub to_lower : ℕ → ℕ
to_lower c = if leb b'A' c && leb c b'Z' then c + 32 else c

-- `strncasecmp(s, p, strlen(p)) == 0`
unfoldable pub has_prefix_nocase : Bytes → Bytes → Bool
unfolding to_lower
has_prefix_nocase s [] = true
has_prefix_nocase [] (y ∷ ys) = false
has_prefix_nocase (x ∷ xs) (y ∷ ys) = to_lower x == to_lower y && has_prefix_nocase xs ys

-- `strcasecmp(a, b) == 0`
unfoldable pub bytes_eq_nocase : Bytes → Bytes → Bool
unfolding to_lower
bytes_eq_nocase [] [] = true
bytes_eq_nocase (x ∷ xs) (y ∷ ys) = to_lower x == to_lower y && bytes_eq_nocase xs ys
bytes_eq_nocase _ _ = false

pub bytes_eq_iff : (a b : Bytes) → (bytes_eq a b ≡ true) ↔ (a ≡ b)
unfolding bytes_eq
bytes_eq_iff (x ∷ a) (y ∷ b) = ground (arith, bytes_eq_iff a b)
bytes_eq_iff _ _ = ground arith

pub has_prefix-append : (p r : Bytes) → has_prefix (p ++ r) p ≡ true
unfolding has_prefix
has_prefix-append [] r = refl
has_prefix-append (x ∷ p) r = ground (arith, has_prefix-append p r)

pub has_substring-append : (a p b : Bytes) → has_substring (a ++ (p ++ b)) p ≡ true
unfolding has_substring
has_substring-append [] [] [] = refl
has_substring-append [] [] (x ∷ b) = refl
has_substring-append [] (x ∷ p) b = ground (arith, has_prefix-append p b)
has_substring-append (x ∷ a) p b = ground (arith, has_substring-append a p b)

-- A text behind one of its beginnings.
pub prefix_rest : (s p : Bytes) → has_prefix s p ≡ true → s ≡ p ++ drop (length p) s
unfolding has_prefix
prefix_rest s [] h = refl
prefix_rest [] (y ∷ p) h = absurd (ground (arith, h))
prefix_rest (x ∷ s) (y ∷ p) h = ground (arith, h, prefix_rest s p)
