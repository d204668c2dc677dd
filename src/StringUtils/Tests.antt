-- ===== src/StringUtils/Tests.antt =====
-- Runs of the string helpers, and their theorems at concrete inputs.
use echo_ai_c.Base.{◌≡◌, ◌≤◌, refl, ℕ, Bool, true, some, [], ◌∷◌, Bytes, codes, length, map}
use echo_ai_c.Utf8.{utf8_valid}
use echo_ai_c.StringUtils.{str_trim, str_split, str_truncate_ellipsis_dup, sanitize_json_dup}
use echo_ai_c.StringUtils.Split.{join, str_split-join}
use echo_ai_c.StringUtils.Truncate.{str_truncate_ellipsis_dup-valid}

abbrev enough : ℕ → Bytes → Bool
enough d p = true

str_trim_run : str_trim (codes " \ta b \n") ≡ codes "a b"
unfolding str_trim
str_trim_run = refl

str_split_run : str_split enough (codes "a,,b") b',' ≡ map codes ("a" ∷ "" ∷ "b" ∷ [])
unfolding str_split
str_split_run = refl

truncate_run :
    str_truncate_ellipsis_dup true (codes "2345678901234567890123456789012345678901x") 40
    ≡ some (codes "2345[... truncated, 1 chars omitted ...]")
unfolding str_truncate_ellipsis_dup
truncate_run = refl

-- Of two commas before a closing bracket only the first is removed, and the closing fence stays.
sanitize_run :
    sanitize_json_dup true (codes "```json\n{\"a\":[1,],\n\"b\":[2,]}\n```")
    ≡ some (codes "{\"a\":[1],\n\"b\":[2,]}\n```")
unfolding sanitize_json_dup
sanitize_run = refl

str_split-join_example : join b',' (str_split enough (codes "a,,b") b',') ≡ codes "a,,b"
str_split-join_example = (str_split-join enough (codes "a,,b") b',' (λ p. refl)).1

valid_text : utf8_valid (codes "0123456789") ≡ some true
unfolding utf8_valid
valid_text = refl

str_truncate_ellipsis_dup-valid_example :
    (out : Bytes) × (str_truncate_ellipsis_dup true (codes "0123456789") 4 ≡ some out)
    × (length out ≤ 4)
    × (utf8_valid out ≡ some true)
    × (10 ≤ 4 → out ≡ codes "0123456789")
str_truncate_ellipsis_dup-valid_example =
    str_truncate_ellipsis_dup-valid (codes "0123456789") 4 valid_text
