-- ===== src/Config/Tests.antt =====
-- A small configuration file, written, read and looked up.
use echo_ai_c.Base.{
  ◌≡◌, ◌≢◌, refl, Bool, true, not, ◌&&◌, ◌==◌, leb, arith, inl, inr, some, List, [], ◌∷◌, map,
  Bytes, codes, bytes_eq, length, All,
}
use echo_ai_c.Config.{Entry, conf_load, conf_provider_token, conf_provider_tokens, key_name}
use echo_ai_c.Config.Lines.{IsLine, unlines}
use echo_ai_c.Config.Render.{Setting, IsSetting, entry_of, file_of, conf_load-unlines}
use echo_ai_c.Config.Tokens.{token_of, conf_provider_token-conf_provider_tokens}

abbrev settings : List Setting
settings =
    record { section = codes "a"; key = codes "k"; first = codes "v"; more = codes "w" ∷ [] }
    ∷ record { section = []; key = codes "n"; first = []; more = [] }
    ∷ []

settings_hold : All IsSetting settings
settings_hold = (
  (
    ((omega arith), tt),
    omega arith,
    refl,
    refl,
    ((omega arith), tt),
    inr (refl, refl),
    ((refl, ((omega arith), tt)), tt),
  ),
  ((tt, omega arith, refl, refl, ((omega arith), tt), inl refl, tt), tt),
)

abbrev is_plain : Bytes → Bool
is_plain [] = true
is_plain (c ∷ l) = not (c == 10) && (not (c == 0) && is_plain l)

plain_bytes : (l : Bytes) → is_plain l ≡ true → All (λ c. (c ≢ 10) × (c ≢ 0)) l
plain_bytes [] h = tt
plain_bytes (c ∷ l) h = ((ground (arith, h), ground (arith, h)), plain_bytes l (ground (arith, h)))

abbrev are_lines : List Bytes → Bool
are_lines [] = true
are_lines (l ∷ ls) = is_plain l && (leb (length l) 4094 && are_lines ls)

plain_lines : (ls : List Bytes) → are_lines ls ≡ true → All IsLine ls
plain_lines [] h = tt
plain_lines (l ∷ ls) h =
    ((plain_bytes l (ground (arith, h)), ground (arith, h)), plain_lines ls (ground (arith, h)))

lines_hold : All IsLine (file_of settings)
lines_hold = plain_lines (file_of settings) refl

conf_load-unlines_example :
    conf_load (some (unlines (file_of settings))) ≡ some (map entry_of settings)
conf_load-unlines_example = conf_load-unlines settings settings_hold lines_hold (omega arith)

loads_a_file :
    conf_load (some (codes "# x\n [a] \n k = v \n  w\n\nn=1"))
    ≡ some (
        record { key = codes "a.k"; value = codes "v\nw" }
        ∷ record { key = codes "a.n"; value = codes "1" }
        ∷ [])
unfolding conf_load
loads_a_file = refl

abbrev conf : List Entry
conf =
    record { key = codes "a.k"; value = codes "v" }
    ∷ record { key = codes "providers.p"; value = codes "t" }
    ∷ record { key = codes "providers."; value = codes "u" }
    ∷ record { key = codes "providers.opencode"; value = codes "z" }
    ∷ []

conf_provider_token-conf_provider_tokens_example :
    conf_provider_token conf (codes "p") ≡ token_of (conf_provider_tokens conf) (codes "p")
unfolding key_name bytes_eq
conf_provider_token-conf_provider_tokens_example =
    conf_provider_token-conf_provider_tokens conf (codes "p") (λ e. absurd (ground (arith, e))) refl
      (omega arith)

shares_a_token : conf_provider_token conf (codes "opencode_go") ≡ some (codes "z")
unfolding conf_provider_token bytes_eq
shares_a_token = refl
