-- ===== src/Api/Identity.antt =====
-- `debug_identity` of main.py. `auth_mode` is the property of the gateway, which reads no state.
use hosted_agents_saa_s_plat.Prelude.{String, Bool, none, [], ◌∷◌}
use hosted_agents_saa_s_plat.Domain.Action.{Action, pure, ◌>>=◌}
use hosted_agents_saa_s_plat.Policies.Auth.Claims.{non_empty}
use hosted_agents_saa_s_plat.Policies.Auth.Jwks.{Reading}
use hosted_agents_saa_s_plat.Api.Context.{AppContext, require_admin}

pub record IdentityReport : Type 0 where
  pub foundry_auth_mode : String
  pub azure_use_managed_identity : Bool
  pub allow_api_key_fallback : Bool
  pub key_vault_configured : Bool

unfoldable pub debug_identity :
    {F S : Type 0} → AppContext F S → Reading → String → String → Action S IdentityReport
debug_identity ctx r auth_mode authorization = do
  principal ←
      require_admin ctx r authorization ("platform_admin" ∷ []) ("admin.identity.read" ∷ []) none
  pure (record {
    foundry_auth_mode = auth_mode;
    azure_use_managed_identity = ctx.settings.azure_use_managed_identity;
    allow_api_key_fallback = ctx.settings.allow_api_key_fallback;
    key_vault_configured = non_empty ctx.settings.key_vault_url;
  })
