-- ===== src/Config/Tokens.antt =====
-- The token of a provider, looked up alone and in the list of all tokens.
use echo_ai_c.Base.{
  ◌+◌, ◌≤◌, ◌≡◌, ◌≢◌, refl, ◌∙◌, arith, Bool, true, false, ◌&&◌, Option, none, some, List, [], ◌∷◌,
  ◌++◌, Bytes, bytes_eq, has_prefix, leb, if◌then◌else◌, length, drop,
}
use echo_ai_c.Config.{
  Entry, ConfToken, providers_prefix, conf_get, conf_provider_tokens, key_name, conf_provider_token,
}

-- The first token of a provider.
abbrev pub token_of : List ConfToken → Bytes → Option Bytes
token_of [] p = none
token_of (t ∷ ts) p = if bytes_eq t.provider p then some t.token else token_of ts p

bytes_eq-append :
    (k q p : Bytes) → bytes_eq k (q ++ p) ≡ (has_prefix k q && bytes_eq (drop (length q) k) p)
unfolding bytes_eq has_prefix
bytes_eq-append [] [] p = refl
bytes_eq-append (x ∷ k) [] p = refl
bytes_eq-append [] (y ∷ q) p = refl
bytes_eq-append (x ∷ k) (y ∷ q) p = ground (arith, bytes_eq-append k q p)

nothing_is : (p : Bytes) → p ≢ [] → bytes_eq [] p ≡ false
unfolding bytes_eq
nothing_is [] h = absurd (h refl)
nothing_is (c ∷ p) h = refl

listed_token :
    (conf : List Entry) (p : Bytes)
    → p ≢ []
    → conf_get conf (providers_prefix ++ p) ≡ token_of (conf_provider_tokens conf) p
unfolding conf_get conf_provider_tokens
listed_token [] p h = refl
listed_token (e ∷ es) p h =
    by_key (has_prefix e.key providers_prefix) (drop 10 e.key)
      (bytes_eq-append e.key providers_prefix p) (listed_token es p h)
  where
    by_test :
        (t : Bool)
        → conf_get es (providers_prefix ++ p) ≡ token_of (conf_provider_tokens es) p
        → (if t then some e.value else conf_get es (providers_prefix ++ p))
          ≡ (if t then some e.value else token_of (conf_provider_tokens es) p)
    by_test true ih = refl
    by_test false ih = ih

    by_key :
        (named : Bool) (name : Bytes)
        → bytes_eq e.key (providers_prefix ++ p) ≡ (named && bytes_eq name p)
        → conf_get es (providers_prefix ++ p) ≡ token_of (conf_provider_tokens es) p
        → (if bytes_eq e.key (providers_prefix ++ p)
            then some e.value
            else conf_get es (providers_prefix ++ p))
          ≡ token_of
              (if named
                then elim name as (λ _. List ConfToken) [
                  | [] ↦ conf_provider_tokens es
                  | c ∷ r ↦ record { provider = c ∷ r; token = e.value } ∷ conf_provider_tokens es
                ]
                else conf_provider_tokens es)
              p
    by_key false name same ih = rw same ih
    by_key true [] same ih =
        let other : bytes_eq [] p ≡ false = nothing_is p h in rw (same ∙ other) ih
    by_key true (c ∷ r) same ih = rw same (by_test (bytes_eq (c ∷ r) p) ih)

-- The token that is looked up for a provider is the first one of its name in the list of all tokens, if the
-- name has 1 to 85 bytes and is not one of the two that share the token of "opencode".
pub conf_provider_token-conf_provider_tokens :
    (conf : List Entry) (p : Bytes)
    → p ≢ []
    → key_name p ≡ p
    → length p ≤ 85
    → conf_provider_token conf p ≡ token_of (conf_provider_tokens conf) p
unfolding conf_provider_token
conf_provider_token-conf_provider_tokens conf p full own short =
    let fits : leb 96 (10 + length p) ≡ false = ground (arith, short) in
    rw (conf_provider_token, own, fits) (listed_token conf p full)
