-- ===== src/Middleware/Gate.antt =====
-- Who passes the gate.
use mathlib.Core.Option.{some-injective}
use echo_ai_c.Base.{
  ◌≡◌, ◌≢◌, ◌↔◌, ◌⊎◌, inl, inr, refl, sym, ap, ◌∙◌, subst, arith, Bool, true, false, Option, none,
  some, ◌==◌, if◌then◌else◌, Bytes, codes, bytes_eq, bytes_eq_iff, length, Bool-cases,
}
use echo_ai_c.Middleware.{
  ServerState, locked, setup, unlocked, ServerContext, HttpRequest, token_equals, until,
  header_value, middleware_has_valid_token, is_unlocked, middleware_check_unlock, behind_token,
  query_token_equals, middleware_check_unlock_query,
}

token_equals_iff : (a b : Bytes) → (token_equals a b ≡ true) ↔ (a ≡ b)
unfolding token_equals
token_equals_iff a b =
    let same_length : a ≡ b → length a ≡ length b = ap length in
    ground (arith, bytes_eq_iff a b, same_length)

-- What the token check asks of the headers.
abbrev pub Presents : Bytes → Bytes → Type 0
Presents headers token = header_value headers (codes "X-Unlock-Token") ≡ some token

equal_values :
    (value token : Bytes)
    → (token_equals value token ≡ true) ↔ Path (Option Bytes) (some value) (some token)
equal_values value token = (
  (λ h. ap some ((token_equals_iff value token).0 h)),
  (λ h. (token_equals_iff value token).1 (some-injective value token h)),
)

found_iff :
    (o : Option Bytes) (token : Bytes)
    → (elim o as (λ _. Bool) [ none ↦ false | some value ↦ token_equals value token ] ≡ true)
      ↔ (o ≡ some token)
found_iff none token = ground arith
found_iff (some value) token = equal_values value token

valid_token_iff :
    (headers token : Bytes)
    → (middleware_has_valid_token headers token ≡ true) ↔ Presents headers token
unfolding middleware_has_valid_token
valid_token_iff headers token = found_iff (header_value headers (codes "X-Unlock-Token")) token

abbrev passes_gate : ServerState → Option Bytes → (Bytes → Bool) → Bool
passes_gate s t valid = elim t [
  | none ↦ false
  | some token ↦
      if is_unlocked s then if bytes_eq token (codes "noop") then true else valid token else false
]

abbrev Opened : ServerState → Option Bytes → (Bytes → Type 0) → Type 0
Opened s t P =
    (s ≡ unlocked) × ((token : Bytes) × (t ≡ some token) × ((token ≡ codes "noop") ⊎ P token))

opens :
    (token : Bytes) (valid : Bytes → Bool) (P : Bytes → Type 0)
    → ((valid token ≡ true) ↔ P token)
    → (if bytes_eq token (codes "noop") then true else valid token) ≡ true
    → (token ≡ codes "noop") ⊎ P token
opens token valid P iff h = elim (Bool-cases (bytes_eq token (codes "noop"))) [
  | inl t ↦ inl ((bytes_eq_iff token (codes "noop")).0 t)
  | inr f ↦ inr (iff.0 (ground (arith, f, h)))
]

opened :
    (token : Bytes) (valid : Bytes → Bool) (P : Bytes → Type 0)
    → ((valid token ≡ true) ↔ P token)
    → (token ≡ codes "noop") ⊎ P token
    → (if bytes_eq token (codes "noop") then true else valid token) ≡ true
opened token valid P iff (inl e) =
    let t : bytes_eq token (codes "noop") ≡ true = (bytes_eq_iff token (codes "noop")).1 e in
    ground (arith, t)
opened token valid P iff (inr p) = let t : valid token ≡ true = iff.1 p in ground (arith, t)

gate_iff :
    (s : ServerState) (t : Option Bytes) (valid : Bytes → Bool) (P : Bytes → Type 0)
    → ((token : Bytes) → (valid token ≡ true) ↔ P token)
    → (passes_gate s t valid ≡ true) ↔ Opened s t P
gate_iff s none valid P iff =
    ((λ h. absurd (ground (arith, h))), (λ h. absurd (ground (arith, h.1.1))))
gate_iff locked (some token) valid P iff =
    ((λ h. absurd (ground (arith, h))), (λ h. absurd (ground (arith, ap is_unlocked h.0))))
gate_iff setup (some token) valid P iff =
    ((λ h. absurd (ground (arith, h))), (λ h. absurd (ground (arith, ap is_unlocked h.0))))
gate_iff unlocked (some token) valid P iff = (
  (λ h. (refl, (token, refl, opens token valid P (iff token) h))),
  (λ h.
      opened token valid P (iff token)
        (subst (λ x. (x ≡ codes "noop") ⊎ P x) (sym (some-injective token h.1.0 h.1.1)) h.1.2)),
)

-- A request passes exactly if the server is unlocked, has a token, and this token is "noop" or
-- is the value of the request's X-Unlock-Token header.
pub check_unlock_iff :
    (req : HttpRequest) (ctx : ServerContext)
    → (middleware_check_unlock req ctx ≡ true) ↔ (
        (ctx.state ≡ unlocked)
        × ((token : Bytes) × (ctx.unlock_token ≡ some token)
            × ((token ≡ codes "noop") ⊎ Presents req.headers token)))
unfolding middleware_check_unlock
check_unlock_iff req ctx =
    gate_iff ctx.state ctx.unlock_token (middleware_has_valid_token req.headers)
      (Presents req.headers) (valid_token_iff req.headers)

-- What the query check asks of the query: the bytes between the first `token=` and the next `&`,
-- or the end, are the token, and are not empty.
abbrev pub PresentsInQuery : Bytes → Bytes → Type 0
PresentsInQuery query token =
    (p : Bytes) × (behind_token query ≡ some p) × ((until b'&' p).0 ≡ token) × (length token ≢ 0)

given_iff :
    (given token : Bytes)
    → ((if length given == 0 then false else token_equals given token) ≡ true)
      ↔ ((given ≡ token) × (length token ≢ 0))
given_iff given token =
    let same_length : given ≡ token → length given ≡ length token = ap length in
    ground (arith, token_equals_iff given token, same_length)

behind_iff :
    (o : Option Bytes) (token : Bytes)
    → (elim o as (λ _. Bool) [
      | none ↦ false
      | some p ↦ if length (until b'&' p).0 == 0 then false else token_equals (until b'&' p).0 token
    ]
        ≡ true)
      ↔ ((p : Bytes) × (o ≡ some p) × ((until b'&' p).0 ≡ token) × (length token ≢ 0))
behind_iff none token = ((λ h. absurd (ground (arith, h))), (λ h. absurd (ground (arith, h.1))))
behind_iff (some p) token = (
  (λ h. let given = (given_iff (until b'&' p).0 token).0 h in (p, refl, given.0, given.1)),
  (λ h.
      (given_iff (until b'&' p).0 token).1
        (ap (λ x. (until b'&' x).0) (some-injective p h.0 h.1) ∙ h.2, h.3)),
)

query_iff :
    (query token : Bytes) → (query_token_equals query token ≡ true) ↔ PresentsInQuery query token
unfolding query_token_equals
query_iff query token = behind_iff (behind_token query) token

-- A request passes the query check exactly if the server is unlocked, has a token, and this token
-- is "noop" or stands in the query behind its first `token=`, up to the next `&` or the end, and is not empty.
pub check_unlock_query_iff :
    (req : HttpRequest) (ctx : ServerContext)
    → (middleware_check_unlock_query req ctx ≡ true) ↔ (
        (ctx.state ≡ unlocked)
        × ((token : Bytes) × (ctx.unlock_token ≡ some token)
            × ((token ≡ codes "noop") ⊎ PresentsInQuery req.query token)))
unfolding middleware_check_unlock_query
check_unlock_query_iff req ctx =
    gate_iff ctx.state ctx.unlock_token (query_token_equals req.query) (PresentsInQuery req.query)
      (query_iff req.query)
