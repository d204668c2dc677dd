-- ===== src/Safety/Address/Groups.antt =====
-- Which socket addresses are let through: IPv4 addresses by blocks, IPv6 addresses by their groups.
use echo_ai_c.Base.{
  ℕ, ◌+◌, ◌*◌, ◌/◌, ◌%◌, ◌^◌, ◌<◌, ◌≡◌, refl, arith, Bool, true, false, not, ◌&&◌, ◌||◌, List, [],
  ◌∷◌, ◌++◌, ◌==◌, if◌then◌else◌, Bytes, bytes_eq, get_or, take, replicate, any, All,
}
use echo_ai_c.Safety.{SafetyConfig, is_unrestricted}
use echo_ai_c.Safety.Address.{
  inet, inet6, within, safety_check_socket_address, ipv6_is_local, is_v4_mapped, mapped_address,
  private_blocks, mapped_bytes, blocks_lem, mapped_lem,
}

-- The bytes of the groups of 16 bits in which an IPv6 address is written.
abbrev pub bytes_of : List ℕ → Bytes
bytes_of [] = []
bytes_of (g ∷ gs) = (g / 256) ∷ (g % 256) ∷ bytes_of gs

abbrev pub IsGroup : ℕ → Type 0
IsGroup g = g < 2 ^ 16

-- The first and the last value of the first group of link-local, multicast and unique local addresses.
abbrev pub local_groups : List (ℕ × ℕ)
local_groups = (0xfe80, 0xfebf) ∷ (0xff00, 0xffff) ∷ (0xfc00, 0xfdff) ∷ []

-- The addresses `::` and `::1`, and those whose first group is a local one.
abbrev pub is_local : List ℕ → Bool
unfolding bytes_eq
is_local gs =
    bytes_eq gs (replicate 8 0)
    || (bytes_eq gs (replicate 7 0 ++ (1 ∷ []))
        || any (λ r. within r.0 r.1 (get_or gs 0 0)) local_groups)

-- What lets a public IPv6 address through: it is not local, and if its first six groups are those of a mapped
-- address then the IPv4 address in its last two lies in no private block.
abbrev pub is_let_through : List ℕ → Bool
unfolding bytes_eq
is_let_through gs =
    not (is_local gs)
    && (if bytes_eq (take 6 gs) (replicate 5 0 ++ (0xffff ∷ []))
        then not (any (λ r. within r.0 r.1 (get_or gs 6 0 * 2 ^ 16 + get_or gs 7 0)) private_blocks)
        else true)

bytes_eq-bytes_of :
    (gs ks : List ℕ)
    → All IsGroup gs
    → All IsGroup ks
    → bytes_eq (bytes_of gs) (bytes_of ks) ≡ bytes_eq gs ks
unfolding bytes_eq
bytes_eq-bytes_of [] [] h k = refl
bytes_eq-bytes_of [] (y ∷ ks) h k = refl
bytes_eq-bytes_of (x ∷ gs) [] h k = refl
bytes_eq-bytes_of (x ∷ gs) (y ∷ ks) h k = halves x y h.0 k.0 _ _ (bytes_eq-bytes_of gs ks h.1 k.1)
  where
    halves :
        (x y : ℕ)
        → x < 2 ^ 16
        → y < 2 ^ 16
        → (r s : Bool) → r ≡ s
        → ((x / 256 == y / 256) && ((x % 256 == y % 256) && r)) ≡ ((x == y) && s)
    halves x y h k r s e = ground (arith, h, k, e)

first_group :
    (a : ℕ)
    → a < 2 ^ 16
    → ((a / 256 == 254 && a % 256 / 64 == 2) || (a / 256 == 255 || a / 256 / 2 == 126))
      ≡ any (λ r. within r.0 r.1 a) local_groups
first_group a h = ground (arith, h)

module _ (a b c d e f g h : ℕ) (all : All IsGroup (a ∷ b ∷ c ∷ d ∷ e ∷ f ∷ g ∷ h ∷ [])) where
  groups : List ℕ
  groups = a ∷ b ∷ c ∷ d ∷ e ∷ f ∷ g ∷ h ∷ []

  ipv6_is_local-groups : ipv6_is_local (bytes_of groups) ≡ is_local groups
  unfolding ipv6_is_local groups
  ipv6_is_local-groups =
      rw
        (
          bytes_eq-bytes_of groups (replicate 8 0) all (omega arith),
          bytes_eq-bytes_of groups (replicate 7 0 ++ (1 ∷ [])) all (omega arith),
          first_group a all.0,
        )
        refl

  is_v4_mapped-groups :
      is_v4_mapped (bytes_of groups) ≡ bytes_eq (take 6 groups) (replicate 5 0 ++ (0xffff ∷ []))
  unfolding is_v4_mapped groups
  is_v4_mapped-groups =
      bytes_eq-bytes_of (take 6 groups) (replicate 5 0 ++ (0xffff ∷ [])) (omega (arith, all))
        (omega arith)

  mapped_address-groups : mapped_address (bytes_of groups) ≡ g * 2 ^ 16 + h
  unfolding groups
  mapped_address-groups = omega (arith, all)

by_groups :
    (cfg : SafetyConfig) (a b c d e f g h : ℕ)
    → All IsGroup (a ∷ b ∷ c ∷ d ∷ e ∷ f ∷ g ∷ h ∷ [])
    → is_unrestricted cfg.mode ≡ false
    → safety_check_socket_address cfg (inet6 (bytes_of (a ∷ b ∷ c ∷ d ∷ e ∷ f ∷ g ∷ h ∷ [])))
      ≡ is_let_through (a ∷ b ∷ c ∷ d ∷ e ∷ f ∷ g ∷ h ∷ [])
unfolding safety_check_socket_address groups
by_groups cfg a b c d e f g h all m =
    let small : g * 2 ^ 16 + h < 2 ^ 32 = omega (arith, all) in
    rw
      (
        m,
        ipv6_is_local-groups a b c d e f g h all,
        is_v4_mapped-groups a b c d e f g h all,
        mapped_address-groups a b c d e f g h all,
        blocks_lem (g * 2 ^ 16 + h) small,
      )
      (then_false (is_local (a ∷ b ∷ c ∷ d ∷ e ∷ f ∷ g ∷ h ∷ [])) _)
  where
    then_false : (x y : Bool) → (if x then false else y) ≡ (not x && y)
    then_false true y = refl
    then_false false y = refl

-- Unless the mode is unrestricted, an IPv4 address is let through exactly if it lies in none of the private
-- blocks (among them all of 192.0.0.0/16, of which most is routable), also in the form of a mapped IPv6 address;
-- an IPv6 address of eight groups of 16 bits is let through exactly if it is not `::`, not `::1`, not link-local,
-- multicast or unique local by its first group, and, if it is a mapped address, its IPv4 address lies in none of
-- the private blocks.
pub safety_check_socket_address-blocks :
    (cfg : SafetyConfig) (n a b c d e f g h : ℕ)
    → is_unrestricted cfg.mode ≡ false
    → n < 2 ^ 32
    → All IsGroup (a ∷ b ∷ c ∷ d ∷ e ∷ f ∷ g ∷ h ∷ [])
    → (safety_check_socket_address cfg (inet n) ≡ not (any (λ r. within r.0 r.1 n) private_blocks))
      × (safety_check_socket_address cfg (inet6 (mapped_bytes n))
          ≡ not (any (λ r. within r.0 r.1 n) private_blocks))
      × (safety_check_socket_address cfg (inet6 (bytes_of (a ∷ b ∷ c ∷ d ∷ e ∷ f ∷ g ∷ h ∷ [])))
          ≡ is_let_through (a ∷ b ∷ c ∷ d ∷ e ∷ f ∷ g ∷ h ∷ []))
unfolding safety_check_socket_address ipv6_is_local is_v4_mapped
safety_check_socket_address-blocks cfg n a b c d e f g h m l all = (
  rw m (blocks_lem n l),
  rw (m, mapped_lem n l) (blocks_lem n l),
  by_groups cfg a b c d e f g h all m,
)
