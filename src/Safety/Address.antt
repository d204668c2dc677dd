-- ===== src/Safety/Address.antt =====
-- The check of socket addresses: an IPv4 address is a number in host order, an IPv6 address its 16 bytes.
pub mod Groups
use echo_ai_c.Base.{
  ℕ, ◌+◌, ◌-◌, ◌*◌, ◌/◌, ◌%◌, ◌^◌, ◌<◌, ◌≤◌, ◌≡◌, refl, ap, ◌∙◌, arith, Bool, true, false, not,
  ◌&&◌, ◌||◌, List, [], ◌∷◌, ◌++◌, leb, ◌==◌, if◌then◌else◌, Bytes, bytes_eq, get_or, take,
  replicate, any, All,
}
use echo_ai_c.Safety.{SafetyConfig, is_unrestricted}

pub data SocketAddress : Type 0 where
  inet : ℕ → SocketAddress
  inet6 : Bytes → SocketAddress
  other_family : SocketAddress

abbrev pub within : ℕ → ℕ → ℕ → Bool
within lo hi c = leb lo c && leb c hi

pub ipv4_is_public : ℕ → Bool
ipv4_is_public address =
    let a = address / 2 ^ 24 % 256 in
    let b = address / 2 ^ 16 % 256 in
    not (
      a == 0
      || (a == 10
          || (a == 127
              || (leb 224 a
                  || ((a == 100 && within 64 127 b)
                      || ((a == 169 && b == 254)
                          || ((a == 172 && within 16 31 b)
                              || ((a == 192 && (b == 0 || b == 168))
                                  || (a == 198 && (b == 18 || b == 19))))))))))

-- The four bytes at the end, in network order.
abbrev pub mapped_address : Bytes → ℕ
mapped_address bytes =
    get_or bytes 12 0 * 2 ^ 24
    + get_or bytes 13 0 * 2 ^ 16
    + get_or bytes 14 0 * 2 ^ 8
    + get_or bytes 15 0

-- Unspecified, loopback, link-local, multicast and unique local addresses.
pub ipv6_is_local : Bytes → Bool
unfolding bytes_eq
ipv6_is_local bytes =
    bytes_eq bytes (replicate 16 0)
    || (bytes_eq bytes (replicate 15 0 ++ (1 ∷ []))
        || ((get_or bytes 0 0 == 254 && get_or bytes 1 0 / 64 == 2)
            || (get_or bytes 0 0 == 255 || get_or bytes 0 0 / 2 == 126)))

pub is_v4_mapped : Bytes → Bool
unfolding bytes_eq
is_v4_mapped bytes = bytes_eq (take 12 bytes) (replicate 10 0 ++ (255 ∷ 255 ∷ []))

pub safety_check_socket_address : SafetyConfig → SocketAddress → Bool
unfolding ipv4_is_public ipv6_is_local is_v4_mapped
safety_check_socket_address cfg (inet n) =
    if is_unrestricted cfg.mode then true else ipv4_is_public n
safety_check_socket_address cfg (inet6 bytes) =
    if is_unrestricted cfg.mode
    then true
    else if ipv6_is_local bytes
    then false
    else if is_v4_mapped bytes
    then ipv4_is_public (mapped_address bytes)
    else true
safety_check_socket_address cfg other_family = is_unrestricted cfg.mode

-- The first and the last address of each block that is refused. The block that starts at 192.0.0.0 is the one that
-- `ipv4_is_public` tests, with 2^16 addresses: it goes beyond the 2^8 addresses that are reserved there, and
-- the blocks for documentation are not in the table.
abbrev pub private_blocks : List (ℕ × ℕ)
private_blocks =
    (0, 2 ^ 24 - 1)
    ∷ (10 * 2 ^ 24, 11 * 2 ^ 24 - 1)
    ∷ (127 * 2 ^ 24, 128 * 2 ^ 24 - 1)
    ∷ (224 * 2 ^ 24, 2 ^ 32 - 1)
    ∷ (100 * 2 ^ 24 + 64 * 2 ^ 16, 100 * 2 ^ 24 + 128 * 2 ^ 16 - 1)
    ∷ (169 * 2 ^ 24 + 254 * 2 ^ 16, 169 * 2 ^ 24 + 255 * 2 ^ 16 - 1)
    ∷ (172 * 2 ^ 24 + 16 * 2 ^ 16, 172 * 2 ^ 24 + 32 * 2 ^ 16 - 1)
    ∷ (192 * 2 ^ 24, 192 * 2 ^ 24 + 2 ^ 16 - 1)
    ∷ (192 * 2 ^ 24 + 168 * 2 ^ 16, 192 * 2 ^ 24 + 169 * 2 ^ 16 - 1)
    ∷ (198 * 2 ^ 24 + 18 * 2 ^ 16, 198 * 2 ^ 24 + 20 * 2 ^ 16 - 1)
    ∷ []

-- The bytes of an IPv4 address and the form that a mapped address gives it.
abbrev pub mapped_bytes : ℕ → Bytes
mapped_bytes n =
    replicate 10 0
    ++ (255 ∷ 255 ∷ (n / 2 ^ 24) ∷ (n / 2 ^ 16 % 256) ∷ (n / 2 ^ 8 % 256) ∷ (n % 256) ∷ [])

block_8 :
    (n k : ℕ)
    → n < 2 ^ 32
    → k < 256
    → (n / 2 ^ 24 % 256 == k) ≡ within (k * 2 ^ 24) (k * 2 ^ 24 + 2 ^ 24 - 1) n
block_8 n k l h = ground (arith, l, h)

block_16 :
    (n k p q : ℕ)
    → n < 2 ^ 32
    → k < 256
    → p ≤ q
    → q < 256
    → ((n / 2 ^ 24 % 256 == k) && within p q (n / 2 ^ 16 % 256))
      ≡ within (k * 2 ^ 24 + p * 2 ^ 16) (k * 2 ^ 24 + (q + 1) * 2 ^ 16 - 1) n
block_16 n k p q l h m o = ground (arith, l, h, m, o)

block_top : (n : ℕ) → n < 2 ^ 32 → leb 224 (n / 2 ^ 24 % 256) ≡ within (224 * 2 ^ 24) (2 ^ 32 - 1) n
block_top n l = ground (arith, l)

one : (a : Bool) (b k : ℕ) → (a && (b == k)) ≡ (a && within k k b)
one a b k = ground arith

tail_blocks :
    (a b c d e f : Bool) (y z u v : Bool)
    → (a && b) ≡ y
    → (a && c) ≡ z
    → (d && (e || f)) ≡ u
    → u ≡ v
    → ((a && (b || c)) || (d && (e || f))) ≡ (y || (z || (v || false)))
tail_blocks a b c d e f y z u v h k l m = ground (arith, h, k, l, m)

front_blocks :
    (x0 x1 x2 x3 x4 x5 x6 r y0 y1 y2 y3 y4 y5 y6 s : Bool)
    → x0 ≡ y0
    → x1 ≡ y1
    → x2 ≡ y2
    → x3 ≡ y3
    → x4 ≡ y4
    → x5 ≡ y5
    → x6 ≡ y6
    → r ≡ s
    → not (x0 || (x1 || (x2 || (x3 || (x4 || (x5 || (x6 || r)))))))
      ≡ not (y0 || (y1 || (y2 || (y3 || (y4 || (y5 || (y6 || s)))))))
front_blocks x0 x1 x2 x3 x4 x5 x6 r y0 y1 y2 y3 y4 y5 y6 s h0 h1 h2 h3 h4 h5 h6 h =
    rw (h0, h1, h2, h3, h4, h5, h6, h) refl

single :
    (n k p : ℕ)
    → n < 2 ^ 32
    → k < 256
    → p < 256
    → ((n / 2 ^ 24 % 256 == k) && (n / 2 ^ 16 % 256 == p))
      ≡ within (k * 2 ^ 24 + p * 2 ^ 16) (k * 2 ^ 24 + (p + 1) * 2 ^ 16 - 1) n
single n k p l h m =
    one (n / 2 ^ 24 % 256 == k) (n / 2 ^ 16 % 256) p ∙ block_16 n k p p l h (omega arith) m

two : (b : ℕ) → ((b == 18) || (b == 19)) ≡ within 18 19 b
two b = ground arith

pub blocks_lem :
    (n : ℕ) → n < 2 ^ 32 → ipv4_is_public n ≡ not (any (λ r. within r.0 r.1 n) private_blocks)
unfolding ipv4_is_public
blocks_lem n l =
    let a : ℕ = n / 2 ^ 24 % 256 in
    let b : ℕ = n / 2 ^ 16 % 256 in
    let benchmark : ((a == 198) && ((b == 18) || (b == 19)))
        ≡ within (198 * 2 ^ 24 + 18 * 2 ^ 16) (198 * 2 ^ 24 + 20 * 2 ^ 16 - 1) n =
      ap (λ t. (a == 198) && t) (two b)
      ∙ block_16 n 198 18 19 l (omega arith) (omega arith) (omega arith) in
    front_blocks _ _ _ _ _ _ _ _ _ _ _ _ _ _ _ _ (block_8 n 0 l (omega arith))
      (block_8 n 10 l (omega arith)) (block_8 n 127 l (omega arith)) (block_top n l)
      (block_16 n 100 64 127 l (omega arith) (omega arith) (omega arith))
      (single n 169 254 l (omega arith) (omega arith))
      (block_16 n 172 16 31 l (omega arith) (omega arith) (omega arith))
      (tail_blocks (a == 192) (b == 0) (b == 168) (a == 198) (b == 18) (b == 19) _ _ _ _
        (single n 192 0 l (omega arith) (omega arith))
        (single n 192 168 l (omega arith) (omega arith)) refl benchmark)

pub mapped_lem : (n : ℕ) → n < 2 ^ 32 → mapped_address (mapped_bytes n) ≡ n
mapped_lem n l = omega (arith, l)
