-- ===== src/Policies/Auth/Tenant.antt =====
-- `TenantAuthService`, over the decoder of bearer tokens. A call of the decoder may write the cache
-- of JWKS documents also where it raises.
pub mod Credentials
pub mod State
use hosted_agents_saa_s_plat.Prelude.{
  string_eq, String, Bool, true, false, not, ◌&&◌, ◌||◌, Option, none, some, [], ◌∷◌, ◌==◌,
  contains, if◌then◌else◌,
}
use hosted_agents_saa_s_plat.Collections.Dict.{Dict, get}
use hosted_agents_saa_s_plat.Text.{strip, lower}
use hosted_agents_saa_s_plat.Domain.Action.{Action, http, pure, raise, raise_if, catch, ◌>>=◌, ◌>>◌}
use hosted_agents_saa_s_plat.Config.{Settings}
use hosted_agents_saa_s_plat.Policies.Auth.Claims.{
  Claims, claim, claim_tenant, str, or_else, text, non_empty,
}
use hosted_agents_saa_s_plat.Policies.Auth.Jwks.{is_jwks_enabled}

pub record TenantContext : Type 0 where
  pub tenant_id : String
  pub customer_user_id : String

abbrev is_empty_dict : Dict String String → Bool
is_empty_dict [] = true
is_empty_dict _ = false

unfoldable pub auth_configured : Settings → Bool
unfolding is_jwks_enabled
auth_configured settings =
    not (is_empty_dict settings.tenant_api_keys)
    || non_empty settings.jwt_shared_secret
    || is_jwks_enabled settings

-- `settings.app_env.strip().lower() in {"prod", "production"}`
unfoldable pub is_production : Settings → Bool
is_production settings = contains (lower (strip settings.app_env)) ("prod" ∷ "production" ∷ [])

abbrev matches_key : Option String → String → Bool
matches_key none api_key = false
matches_key (some expected) api_key =
    non_empty expected && (non_empty api_key && api_key == expected)

unfoldable pub is_valid_api_key : Settings → String → String → Bool
is_valid_api_key settings tenant_id api_key =
    matches_key (get settings.tenant_api_keys tenant_id) api_key

-- `str(payload.get("oid") or payload.get("sub") or payload.get("upn") or "").strip()`
unfoldable pub claim_subject : Claims → String
claim_subject claims = strip (
    str (
      or_else (or_else (or_else (claim claims "oid") (claim claims "sub")) (claim claims "upn"))
        (text "")))

-- the subject of a decoded token
unfoldable pub subject_for : String → Claims → Option String
unfolding claim_subject claim_tenant
subject_for tenant_id claims =
    if not (claim_tenant claims == tenant_id)
    then none
    else let subject = claim_subject claims in if subject == "" then none else some subject

module _ {S : Type 0} (settings : Settings) (decode : String → Action S Claims) where
  -- `_get_valid_jwt_subject`
  unfoldable pub valid_jwt_subject : String → String → Action S (Option String)
  unfolding subject_for
  valid_jwt_subject tenant_id authorization =
      catch (do payload ← decode authorization; pure (subject_for tenant_id payload))
        (λ _. pure none)

  abbrev accept_subject : String → String → Option String → Action S TenantContext
  accept_subject tenant_id customer_user_id none =
      raise (http 401 "Unauthorized tenant credentials")
  accept_subject tenant_id customer_user_id (some subject) =
      if not (subject == customer_user_id)
      then raise (http 403 "X-Customer-User-Id must match token subject")
      else pure (record { tenant_id = tenant_id; customer_user_id = subject })

  -- the credentials, once the headers are there and agree with the path
  unfoldable pub check_credentials : String → String → String → String → Action S TenantContext
  unfolding auth_configured is_production is_valid_api_key valid_jwt_subject
  check_credentials x_tenant_id x_customer_user_id x_api_key authorization =
      let caller : TenantContext = record {
        tenant_id = x_tenant_id;
        customer_user_id = x_customer_user_id;
      } in
      if auth_configured settings
      then (if is_valid_api_key settings x_tenant_id x_api_key then pure caller else (do
        subject ← valid_jwt_subject x_tenant_id authorization
        accept_subject x_tenant_id x_customer_user_id subject))
      else if is_production settings
      then raise (http 500 "Tenant authentication is not configured")
      else pure caller

  unfoldable pub authenticate : String → String → String → String → String → Action S TenantContext
  unfolding check_credentials
  authenticate path_tenant_id x_tenant_id x_customer_user_id x_api_key authorization = do
    raise_if (x_tenant_id == "" || x_customer_user_id == "")
        (http 400 "X-Tenant-Id and X-Customer-User-Id are required")
    raise_if (not (path_tenant_id == x_tenant_id))
        (http 403 "Path tenant_id does not match header tenant")
    check_credentials x_tenant_id x_customer_user_id x_api_key authorization
