-- ===== src/Middleware/Tests.antt =====
-- Runs of the gate.
use echo_ai_c.Base.{
  ◌≡◌, ◌⊎◌, refl, true, List, [], ◌∷◌, some, Bytes, codes, All, has_byte, bytes_eq, bytes_eq_nocase,
  to_lower, has_prefix,
}
use echo_ai_c.Middleware.{
  HttpRequest, ServerContext, unlocked, skip_blanks, drop_end_blanks, header_value,
  middleware_check_unlock, middleware_check_unlock_query,
}
use echo_ai_c.Middleware.Lines.{IsField, render}
use echo_ai_c.Middleware.Gate.{Presents, check_unlock_iff}

abbrev fields : List (Bytes × Bytes)
fields = (codes "Host", codes "echo") ∷ (codes "x-unlock-token", codes "s3 cret") ∷ []

fields-IsField : All IsField fields
unfolding has_byte skip_blanks drop_end_blanks
fields-IsField = (
  record {
    name_colon = refl;
    name_line = refl;
    value_line = refl;
    value_start = refl;
    value_end = refl;
  },
  (
    record {
      name_colon = refl;
      name_line = refl;
      value_line = refl;
      value_start = refl;
      value_end = refl;
    },
    record {},
  ),
)

abbrev request : HttpRequest
request = record { headers = render fields; query = codes "a=1&token=s3 cret&b" }

abbrev open_server : ServerContext
open_server = record { state = unlocked; unlock_token = some (codes "s3 cret") }

passes : middleware_check_unlock request open_server ≡ true
unfolding middleware_check_unlock header_value bytes_eq_nocase bytes_eq to_lower
passes = refl

check_unlock_iff_example :
    (unlocked ≡ unlocked)
    × ((token : Bytes) × (some (codes "s3 cret") ≡ some token)
        × ((token ≡ codes "noop") ⊎ Presents (render fields) token))
check_unlock_iff_example = (check_unlock_iff request open_server).0 passes

passes_query : middleware_check_unlock_query request open_server ≡ true
unfolding middleware_check_unlock_query bytes_eq has_prefix
passes_query = refl
