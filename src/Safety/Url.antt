-- ===== src/Safety/Url.antt =====
-- `safety_check_url`. `sscanf` with "%u.%u.%u.%u%c" is a parameter: the four numbers where it reports
-- exactly four.
pub mod Host
use echo_ai_c.Base.{
  ℕ, ◌+◌, ◌-◌, ◌≤◌, ◌≡◌, ◌≢◌, ◌⊎◌, sym, Bool, true, false, not, ◌&&◌, ◌||◌, List, [], ◌∷◌, ◌++◌,
  append_assoc, Option, none, some, map, ltb, leb, ◌==◌, if◌then◌else◌, Bytes, codes, bytes_eq,
  to_lower, has_prefix, has_byte, length, get_or, drop, any,
}
use echo_ai_c.Safety.{SafetyConfig, is_unrestricted}

pub record Quad : Type 0 where
  pub a : ℕ
  pub b : ℕ
  pub c : ℕ
  pub d : ℕ

-- Whether two texts are equal, or one begins with the other, but for the case of letters.
pub strcasecmp : Bytes → Bytes → Bool
unfolding bytes_eq to_lower
strcasecmp s t = bytes_eq (map to_lower s) (map to_lower t)

pub strncasecmp : Bytes → Bytes → Bool
unfolding has_prefix to_lower
strncasecmp s p = has_prefix (map to_lower s) (map to_lower p)

-- The bytes before the first of a set, `strcspn` and `memchr`.
pub before : (ℕ → Bool) → Bytes → Bytes
before stop [] = []
before stop (c ∷ s) = let rest = before stop s in if stop c then [] else c ∷ rest

abbrev pub ends_authority : ℕ → Bool
ends_authority c = c == b'/' || (c == b'?' || c == b'#')

-- `none` where an opening bracket is not closed.
pub host_of : Bytes → Option Bytes
unfolding before has_byte
host_of [] = some []
host_of (c ∷ s) =
    if c == b'['
    then if has_byte s b']' then some (before (λ x. x == b']') s) else none
    else some (before (λ x. x == b':') (c ∷ s))

pub is_local_name : Bytes → Bool
unfolding strcasecmp strncasecmp
is_local_name host =
    strcasecmp host (codes "localhost")
    || ((ltb 10 (length host) && strcasecmp (drop (length host - 10) host) (codes ".localhost"))
        || (strcasecmp host (codes "::1")
            || (strcasecmp host (codes "0:0:0:0:0:0:0:1")
                || (strncasecmp host (codes "fc")
                    || (strncasecmp host (codes "fd") || strncasecmp host (codes "fe80:"))))))

abbrev is_private_quad : Option Quad → Bool
is_private_quad none = false
is_private_quad (some q) =
    (leb q.a 255 && (leb q.b 255 && (leb q.c 255 && leb q.d 255)))
    && (q.a == 10
        || (q.a == 127
            || (q.a == 0
                || ((q.a == 169 && q.b == 254)
                    || ((q.a == 192 && q.b == 168)
                        || (q.a == 172 && (leb 16 q.b && leb q.b 31)))))))

pub domain_matches : Bytes → Bytes → Bool
unfolding strcasecmp
domain_matches host allowed =
    not (length allowed == 0)
    && (strcasecmp host allowed
        || (ltb (length allowed) (length host)
            && (get_or host (length host - length allowed - 1) 0 == b'.'
                && strcasecmp (drop (length host - length allowed) host) allowed)))

pub check_domains : List Bytes → Bytes → Bool
unfolding domain_matches
check_domains [] host = true
check_domains (d ∷ ds) host = any (domain_matches host) (d ∷ ds)

pub check_host : (Bytes → Option Quad) → SafetyConfig → Bytes → Bool
unfolding check_domains is_local_name
check_host sscanf cfg host =
    if length host == 0 || leb 256 (length host)
    then false
    else if is_local_name host
    then false
    else if is_private_quad (sscanf host)
    then false
    else check_domains cfg.allowed_domains host

pub check_authority : (Bytes → Option Quad) → SafetyConfig → Bytes → Bool
unfolding host_of check_host has_byte
check_authority sscanf cfg authority =
    if length authority == 0 || has_byte authority b'@'
    then false
    else elim (host_of authority) [ none ↦ false | some host ↦ check_host sscanf cfg host ]

unfoldable pub safety_check_url : (Bytes → Option Quad) → SafetyConfig → Bytes → Bool
unfolding before check_authority strncasecmp
safety_check_url sscanf cfg url =
    if is_unrestricted cfg.mode
    then true
    else if not cfg.allow_network
    then false
    else if strncasecmp url (codes "https://")
    then check_authority sscanf cfg (before ends_authority (drop 8 url))
    else if strncasecmp url (codes "http://")
    then check_authority sscanf cfg (before ends_authority (drop 7 url))
    else false

-- A host that is a domain or a subdomain of it, but for the case of letters.
abbrev pub InDomain : Bytes → Bytes → Type 0
InDomain host domain =
    (domain ≢ [])
    × ((map to_lower host ≡ map to_lower domain)
        ⊎ ((sub : Bytes) × (map to_lower host ≡ map to_lower sub ++ (b'.' ∷ map to_lower domain))))

abbrev pub InSome : Bytes → List Bytes → Type 0
InSome host [] = ⊥
InSome host (d ∷ ds) = InDomain host d ⊎ InSome host ds
