-- ===== src/Middleware.antt =====
-- src/server/middleware.c: the gate of the routes. Tokens, headers and queries are byte strings
-- without their NUL. `CRYPTO_memcmp` is read as equality of the bytes. A NULL pointer is `none`.
mod Tests
pub mod Lines
pub mod Gate
use echo_ai_c.Base.{
  ℕ, zero, suc, ◌+◌, ◌-◌, ◌≡◌, Bool, true, false, not, ◌&&◌, ◌||◌, List, [], ◌∷◌, ◌++◌, Option,
  none, some, ltb, leb, ◌==◌, if◌then◌else◌, Bytes, codes, bytes_eq, has_prefix, bytes_eq_nocase,
  length, take, drop, replicate,
}

pub data ServerState : Type 0 where
  locked : ServerState
  setup : ServerState
  unlocked : ServerState

pub record ServerContext : Type 0 where
  pub state : ServerState
  pub unlock_token : Option Bytes

pub record HttpRequest : Type 0 where
  pub headers : Bytes
  pub query : Bytes

pub token_equals : Bytes → Bytes → Bool
unfolding bytes_eq
token_equals a b = if not (length a == length b) then false else bytes_eq a b

-- The bytes before the first `c`, and those behind it if there is one.
pub until : ℕ → Bytes → Bytes × Option Bytes
until c [] = ([], none)
until c (x ∷ xs) =
    let (before, behind) = until c xs in if x == c then ([], some xs) else (x ∷ before, behind)

abbrev is_blank : ℕ → Bool
is_blank c = c == b' ' || c == b'\t'

pub skip_blanks : Bytes → Bytes
skip_blanks [] = []
skip_blanks (c ∷ s) = if is_blank c then skip_blanks s else c ∷ s

-- The bytes before the blanks at the end.
pub drop_end_blanks : Bytes → Bytes
drop_end_blanks [] = []
drop_end_blanks (c ∷ s) = elim (drop_end_blanks s) [
  | [] ↦ if is_blank c then [] else c ∷ []
  | d ∷ t ↦ c ∷ d ∷ t
]

-- `if (line_end > line && line_end[-1] == '\r') line_end--;`
pub drop_cr : Bytes → Bytes
drop_cr [] = []
drop_cr (c ∷ []) = if c == b'\r' then [] else c ∷ []
drop_cr (c ∷ d ∷ s) = c ∷ drop_cr (d ∷ s)

-- The value that one line gives to `name`.
pub line_value : Bytes → Bytes → Option Bytes
unfolding until skip_blanks drop_end_blanks bytes_eq_nocase
line_value line name = elim (until b':' line).1 [
  | none ↦ none
  | some value ↦
      if bytes_eq_nocase (until b':' line).0 name
      then some (drop_end_blanks (skip_blanks value))
      else none
]

-- The loop over the lines, on fuel.
pub value_from : ℕ → Bytes → Bytes → Option Bytes
unfolding line_value until drop_cr
value_from zero headers name = none
value_from (suc fuel) [] name = none
value_from (suc fuel) (c ∷ s) name = elim (line_value (drop_cr (until b'\n' (c ∷ s)).0) name) [
  | some value ↦ some value
  | none ↦ elim (until b'\n' (c ∷ s)).1 [ none ↦ none | some more ↦ value_from fuel more name ]
]

pub header_value : Bytes → Bytes → Option Bytes
unfolding value_from
header_value headers name = value_from (length headers) headers name

pub middleware_has_valid_token : Bytes → Bytes → Bool
unfolding header_value token_equals
middleware_has_valid_token headers token = elim (header_value headers (codes "X-Unlock-Token")) [
  | none ↦ false
  | some value ↦ token_equals value token
]

abbrev ws_prefix : Bytes
ws_prefix = codes "echo-ai-token-"

pub skip_separators : Bytes → Bytes
skip_separators [] = []
skip_separators (c ∷ s) = if is_blank c || c == b',' then skip_separators s else c ∷ s

-- Whether one offered protocol carries the token.
pub item_matches : Bytes → Bytes → Bool
unfolding has_prefix token_equals
item_matches item token =
    has_prefix item ws_prefix && token_equals (drop (length ws_prefix) item) token

-- The loop over the offered protocols, on fuel. The comma that ends an item is skipped with the
-- separators of the next one.
pub any_item : ℕ → Bytes → Bytes → Bool
unfolding skip_separators until drop_end_blanks item_matches
any_item zero offered token = false
any_item (suc fuel) offered token =
    let rest = until b',' (skip_separators offered) in
    elim offered [
      | [] ↦ false
      | _ ∷ _ ↦
          if item_matches (drop_end_blanks rest.0) token
          then true
          else elim rest.1 [ none ↦ false | some more ↦ any_item fuel more token ]
    ]

pub middleware_has_valid_ws_token : Bytes → Bytes → Bool
unfolding header_value any_item
middleware_has_valid_ws_token headers token =
    elim (header_value headers (codes "Sec-WebSocket-Protocol")) [
      | none ↦ false
      | some value ↦ any_item (suc (length value)) value token
    ]

abbrev is_unlocked : ServerState → Bool
is_unlocked locked = false
is_unlocked setup = false
is_unlocked unlocked = true

pub middleware_check_unlock : HttpRequest → ServerContext → Bool
unfolding middleware_has_valid_token bytes_eq
middleware_check_unlock req ctx = elim ctx.unlock_token [
  | none ↦ false
  | some token ↦
      if is_unlocked ctx.state
      then if bytes_eq token (codes "noop")
        then true
        else middleware_has_valid_token req.headers token
      else false
]

-- What stands behind the first `token=`.
pub behind_token : Bytes → Option Bytes
unfolding has_prefix
behind_token [] = none
behind_token (c ∷ s) =
    let later = behind_token s in
    if has_prefix (c ∷ s) (codes "token=") then some (drop 6 (c ∷ s)) else later

pub query_token_equals : Bytes → Bytes → Bool
unfolding behind_token until token_equals
query_token_equals query token = elim (behind_token query) [
  | none ↦ false
  | some p ↦
      let given = (until b'&' p).0 in if length given == 0 then false else token_equals given token
]

pub middleware_check_unlock_query : HttpRequest → ServerContext → Bool
unfolding query_token_equals bytes_eq
middleware_check_unlock_query req ctx = elim ctx.unlock_token [
  | none ↦ false
  | some token ↦
      if is_unlocked ctx.state
      then if bytes_eq token (codes "noop") then true else query_token_equals req.query token
      else false
]

-- The limiter is a parameter: `none` without one, else its answer for an address.
pub middleware_check_rate_limit : Option (Bytes → Bool) → Bytes → Bool
middleware_check_rate_limit none ip = true
middleware_check_rate_limit (some allow) ip = allow ip
