-- ===== src/Policies/Auth/Jwks.antt =====
-- `_decode_bearer_jwt` and what it calls, the cache of JWKS documents included. PyJWT, the network
-- and the RSA keys are the argument `jwt` and the readings of a call; `none` stands for an exception.
use hosted_agents_saa_s_plat.Prelude.{
  string_eq, ◌+◌, ◌*◌, String, Bool, ◌&&◌, ◌||◌, Option, none, some, List, [], ◌∷◌, ◌==◌, ltb, ℤ,
  pos_part, if◌then◌else◌,
}
use hosted_agents_saa_s_plat.Collections.Dict.{Dict, get, put}
use hosted_agents_saa_s_plat.Text.{strip, lower, prefix, after_first_space}
use hosted_agents_saa_s_plat.Domain.Action.{
  Action, Outcome, ok, err, http, pure, raise, lift, or_raise, raise_if, ◌>>=◌, ◌>>◌,
}
use hosted_agents_saa_s_plat.Domain.Models.{Datetime}
use hosted_agents_saa_s_plat.Config.{Settings}
use hosted_agents_saa_s_plat.Policies.Auth.Claims.{Claims, claim, str, or_else, text, non_empty}

-- what PyJWT does: header, key and claims of a token
pub record Jwt (Key : Type 0) : Type 0 where
  pub get_unverified_header : String → Option Claims
  pub from_jwk : Claims → Option Key
  -- token, key, algorithm, audience, issuer
  pub decode_with_key : String → Key → String → String → String → Option Claims
  -- token, secret, algorithm
  pub decode_with_secret : String → String → String → Option Claims

-- A JWKS document by its "keys": `none` if that is no list; an entry is `none` if it is no object.
abbrev pub Document : Type 0
Document = Option (List (Option Claims))

-- `_JWKS_CACHE`: the time at which an entry expires, and the document
abbrev pub JwksCache : Type 0
JwksCache = Dict String (Datetime × Document)

-- what one call reads: the clock, and the document at the URL if it can be loaded
pub record Reading : Type 0 where
  pub now : Datetime
  pub fetched : Option Document

unfoldable pub is_jwks_enabled : Settings → Bool
is_jwks_enabled settings =
    non_empty (strip settings.jwt_jwks_url)
    || non_empty (strip settings.jwt_issuer)
    || non_empty (strip settings.jwt_audience)

unfoldable pub extract_bearer_token : String → Outcome String
extract_bearer_token authorization =
    if lower (prefix 7 authorization) == "bearer "
    then (let token = strip (after_first_space authorization) in
        if token == "" then err (http 401 "Missing bearer token") else ok token)
    else err (http 401 "Missing bearer token")

-- a cached document that has not expired at `now`
unfoldable pub fresh_document : Datetime → Option (Datetime × Document) → Option Document
fresh_document now none = none
fresh_document now (some (expires_at, payload)) = if ltb now expires_at then some payload else none

abbrev load : Reading → String → ℤ → Option Document → Option Document → Action JwksCache Document
load r jwks_url ttl (some payload) fetched = pure payload
load r jwks_url ttl none none = raise (http 401 "Unable to load JWKS")
load r jwks_url ttl none (some payload) =
    λ cache. (ok payload, put cache jwks_url (r.now + 1000000 * pos_part ttl, payload))

unfoldable pub get_jwks_payload : Reading → String → ℤ → Action JwksCache Document
unfolding fresh_document
get_jwks_payload r jwks_url ttl cache =
    load r jwks_url ttl (fresh_document r.now (get cache jwks_url)) r.fetched cache

-- `str(v or "")`
abbrev str_or_empty : Claims → String → String
str_or_empty claims key = str (or_else (claim claims key) (text ""))

module _ {Key : Type 0} (jwt : Jwt Key) where
  -- the `for` over the entries
  unfoldable pub find_key : String → List (Option Claims) → Outcome Key
  find_key kid [] = err (http 401 "Signing key not found in JWKS")
  find_key kid (none ∷ keys) = find_key kid keys
  find_key kid (some entry ∷ keys) =
      let rest = find_key kid keys in
      if str_or_empty entry "kid" == kid
      then elim (jwt.from_jwk entry) [
        | none ↦ err (http 401 "Invalid JWKS signing key")
        | some key ↦ ok key
      ]
      else rest

  abbrev find_key_in : String → Document → Outcome Key
  find_key_in kid none = err (http 401 "Invalid JWKS payload")
  find_key_in kid (some keys) = find_key kid keys

  unfoldable pub resolve_jwks_signing_key : Reading → String → String → ℤ → Action JwksCache Key
  unfolding get_jwks_payload find_key
  resolve_jwks_signing_key r token jwks_url ttl = do
    headers ← or_raise (jwt.get_unverified_header token) (http 401 "Invalid bearer token header")
    let kid = strip (str_or_empty headers "kid")
    raise_if (kid == "") (http 401 "Invalid bearer token header")
    payload ← get_jwks_payload r jwks_url ttl
    lift (find_key_in kid payload)

  unfoldable pub decode_with_jwks : Settings → Reading → String → Action JwksCache Claims
  unfolding resolve_jwks_signing_key
  decode_with_jwks settings r token =
      let jwks_url = strip settings.jwt_jwks_url in
      let issuer = strip settings.jwt_issuer in
      let audience = strip settings.jwt_audience in
      if non_empty jwks_url && (non_empty issuer && non_empty audience)
      then (do
        key ← resolve_jwks_signing_key r token jwks_url settings.jwt_jwks_cache_ttl_seconds
        or_raise (jwt.decode_with_key token key settings.jwt_algorithm audience issuer)
            (http 401 "Invalid bearer token"))
      else raise (
          http 500
            "JWT_JWKS_URL, JWT_ISSUER, and JWT_AUDIENCE must all be configured for JWKS auth")

  -- the choice of the mode, for the token of the header
  unfoldable pub decode_token : Settings → Reading → String → Action JwksCache Claims
  unfolding is_jwks_enabled decode_with_jwks
  decode_token settings r token =
      if is_jwks_enabled settings
      then decode_with_jwks settings r token
      else if non_empty settings.jwt_shared_secret
      then or_raise (jwt.decode_with_secret token settings.jwt_shared_secret settings.jwt_algorithm)
          (http 401 "Invalid bearer token")
      else raise (http 500 "JWT auth is not configured. Set JWKS config or JWT_SHARED_SECRET.")

  unfoldable pub decode_bearer_jwt : Settings → Reading → String → Action JwksCache Claims
  unfolding extract_bearer_token decode_token
  decode_bearer_jwt settings r authorization = do
    token ← lift (extract_bearer_token authorization)
    decode_token settings r token
