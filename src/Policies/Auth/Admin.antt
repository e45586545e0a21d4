-- ===== src/Policies/Auth/Admin.antt =====
-- `AdminAuthService` and `AdminPrincipal`, over the decoder of bearer tokens. A set that is `None`
-- or empty is the empty list.
pub mod Permission
pub mod State
use hosted_agents_saa_s_plat.Prelude.{
  string_eq, String, Bool, false, not, ◌&&◌, ◌||◌, Option, none, some, List, [], ◌∷◌, ◌++◌,
  contains, if◌then◌else◌,
}
use hosted_agents_saa_s_plat.Domain.Action.{Action, Outcome, ok, err, http, pure, lift, ◌>>=◌, ◌>>◌}
use hosted_agents_saa_s_plat.Policies.Auth.Claims.{
  Claims, claim, str, or_else, text, non_empty, is_nil, extract_string_set, extract_scopes,
  extract_tenant_ids,
}

pub record AdminPrincipal : Type 0 where
  pub subject : String
  pub roles : List String
  pub scopes : List String
  pub tenant_ids : List String

unfoldable pub is_platform_admin : AdminPrincipal → Bool
is_platform_admin p = contains "platform_admin" p.roles

unfoldable pub can_access_tenant : String → AdminPrincipal → Bool
unfolding is_platform_admin
can_access_tenant tenant_id p =
    is_platform_admin p || contains "*" p.tenant_ids || contains tenant_id p.tenant_ids

-- `str(claims.get("sub") or claims.get("oid") or claims.get("upn") or "unknown")`
abbrev subject_of : Claims → String
subject_of claims = str (
    or_else (or_else (or_else (claim claims "sub") (claim claims "oid")) (claim claims "upn"))
      (text "unknown"))

unfoldable pub principal_of : Claims → AdminPrincipal
unfolding extract_string_set extract_scopes extract_tenant_ids
principal_of claims = record {
  subject = subject_of claims;
  roles = extract_string_set (claim claims "roles") ++ extract_string_set (claim claims "role");
  scopes = extract_scopes claims;
  tenant_ids = extract_tenant_ids claims;
}

-- `bool(required and held.intersection(required))`
unfoldable pub intersects : List String → List String → Bool
intersects [] required = false
intersects (x ∷ held) required = contains x required || intersects held required

-- `if tenant_id and not principal.can_access_tenant(tenant_id)`
abbrev pub outside_scope : AdminPrincipal → Option String → Bool
outside_scope p none = false
outside_scope p (some tenant_id) = non_empty tenant_id && not (can_access_tenant tenant_id p)

unfoldable pub authorize :
    AdminPrincipal → List String → List String → Option String → Outcome (Unit {0})
unfolding intersects can_access_tenant
authorize p required_roles required_scopes tenant_id =
    if (not (is_nil required_roles) || not (is_nil required_scopes))
      && not (intersects p.roles required_roles || intersects p.scopes required_scopes)
    then err (http 403 "Admin principal lacks required role or scope")
    else if outside_scope p tenant_id
    then err (http 403 "Admin principal is not authorized for this tenant")
    else ok tt

module _ {S : Type 0} (decode : String → Action S Claims) where
  unfoldable pub authenticate : String → Action S AdminPrincipal
  unfolding principal_of
  authenticate authorization = do claims ← decode authorization; pure (principal_of claims)

  -- `_authorize_admin` of src/saas_platform/api/main.py
  unfoldable pub authorize_admin :
      String → List String → List String → Option String → Action S AdminPrincipal
  unfolding authenticate authorize
  authorize_admin authorization required_roles required_scopes tenant_id = do
    principal ← authenticate authorization
    lift (authorize principal required_roles required_scopes tenant_id)
    pure principal
