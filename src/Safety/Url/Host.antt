-- ===== src/Safety/Url/Host.antt =====
-- Which part of a URL the check takes for the host.
use echo_ai_c.Base.{ℕ, ◌≡◌, ◌⊎◌, Bool, true, ◌||◌, [], ◌∷◌, map, ◌==◌, Bytes, codes, to_lower}
use echo_ai_c.Safety.Url.{ends_authority}

-- A text that is empty or begins with a byte of a set.
abbrev pub starts : (ℕ → Bool) → Bytes → Bool
starts f [] = true
starts f (c ∷ s) = f c

abbrev pub IsScheme : Bytes → Type 0
IsScheme s = (map to_lower s ≡ codes "https://") ⊎ (map to_lower s ≡ codes "http://")

-- The bytes that end an authority or separate its parts.
abbrev pub in_authority : ℕ → Bool
in_authority c = ends_authority c || c == b'@'

abbrev pub is_special : ℕ → Bool
is_special c = in_authority c || (c == b':' || c == b'[')
