-- ===== src/HttpParse/Grow.antt =====
-- The buffer of the HTTP parser takes every chunk up to its limit.
use echo_ai_c.Base.{
  ℕ, zero, suc, ◌+◌, ◌-◌, ◌*◌, ◌/◌, ◌^◌, ◌≤◌, ◌<◌, ◌≡◌, refl, arith, true, false, ◌++◌, some, ltb,
  leb, ◌==◌, if◌then◌else◌, Bytes, length, length-append, Bool-cases, inl, inr,
}
use echo_ai_c.HttpParse.{
  Connection, size_max, max_http_header_size, max_http_body_size, double_to, client_append,
}

doubled :
    (fuel room needed r : ℕ)
    → leb needed room ≡ false
    → needed ≤ 20000000
    → double_to (suc fuel) (room * 2) needed ≡ some r
    → double_to (suc (suc fuel)) room needed ≡ some r
unfolding double_to
doubled fuel room needed r f l e =
    let no_wrap : ltb (size_max / 2) room ≡ false = ground (arith, f, l) in rw (f, no_wrap) e

double_to-enough :
    (fuel room needed : ℕ)
    → needed ≤ room * 2 ^ fuel
    → needed ≤ 20000000
    → (r : ℕ) × (double_to (suc fuel) room needed ≡ some r) × (needed ≤ r)
unfolding double_to
double_to-enough zero room needed h l = (room, ground (arith, h), ground (arith, h))
double_to-enough (suc fuel) room needed h l = elim (Bool-cases (leb needed room)) [
  | inl t ↦ (room, ground (arith, t), ground (arith, t))
  | inr f ↦
      let double : room * 2 * 2 ^ fuel ≡ room * 2 ^ suc fuel = grind arith in
      let (r, e, k) = double_to-enough fuel (room * 2) needed (rw double h) l in
      (r, doubled fuel room needed r f l e, k)
]

far_enough : (start n : ℕ) → 1 ≤ start → n ≤ 20000000 → n ≤ start * 2 ^ 63
far_enough start n h l = omega (arith, h, l)

-- Where the allocations succeed, a chunk is taken exactly behind what was received, as long as both
-- together are no longer than the largest header and the largest body, and the buffer then has room for
-- all of it and the NUL.
pub client_append-takes :
    (c : Connection) (chunk : Bytes)
    → length c.received + length chunk ≤ max_http_header_size + max_http_body_size
    → (c' : Connection) × (client_append true c chunk ≡ some c')
      × (c'.received ≡ c.received ++ chunk)
      × (length c'.received < c'.buf_cap)
unfolding client_append
client_append-takes c chunk h =
    let long : length (c.received ++ chunk) ≡ length c.received + length chunk =
      length-append c.received chunk in
    let needed : ℕ = length c.received + length chunk + 1 in
    let no_wrap : ltb (size_max - length c.received - 1) (length chunk) ≡ false =
      ground (arith, h) in
    let in_limit : ltb (max_http_header_size + max_http_body_size + 1) needed ≡ false =
      ground (arith, h) in
    let start : ℕ = if c.buf_cap == 0 then 4096 else c.buf_cap in
    let big : 1 ≤ start = ground arith in
    let (r, e, k) =
      double_to-enough 63 start needed (far_enough start needed big (omega (arith, h)))
        (omega (arith, h)) in
    elim (Bool-cases (ltb c.buf_cap needed)) [
      | inl t ↦ (
        record c { received = c.received ++ chunk; buf_cap = r },
        rw (no_wrap, in_limit, t, e) refl,
        refl,
        omega (arith, long, k),
      )
      | inr f ↦ (
        record c { received = c.received ++ chunk },
        rw (no_wrap, in_limit, f) refl,
        refl,
        ground (arith, long, f),
      )
    ]
