-- ===== src/Adapters/Foundry/Policy.antt =====
-- Which credentials the gateway may use.
use hosted_agents_saa_s_plat.Prelude.{
  Bool, true, false, ◌&&◌, not, ◌≡◌, ◌⊎◌, sym, ap, inl, inr, Bool-cases, arith,
}
use hosted_agents_saa_s_plat.Config.{Settings}
use hosted_agents_saa_s_plat.Domain.Action.Success.{ok_inj}
use hosted_agents_saa_s_plat.Domain.Action.{ok}
use hosted_agents_saa_s_plat.Policies.Auth.Claims.{non_empty}
use hosted_agents_saa_s_plat.Policies.Auth.Tenant.{is_production}
use hosted_agents_saa_s_plat.Adapters.Foundry.{
  managed_identity, api_key, FoundryAuthPolicy, resolve_foundry_auth_policy,
}

unless_managed : (a b : Bool) → (a && not b) ≡ false → b ≡ false → a ≡ false
unless_managed a b h k = ground arith

both_true : (a b : Bool) → (a && b) ≡ true → (a ≡ true) × (b ≡ true)
both_true a b h = ground arith

-- what a policy rests on
abbrev pub Justified : Settings → FoundryAuthPolicy → Type 0
Justified settings policy =
    ((policy.mode ≡ managed_identity) × (settings.azure_use_managed_identity ≡ true))
    ⊎ ((policy.mode ≡ api_key)
        × (is_production settings ≡ false)
        × (settings.azure_use_managed_identity ≡ false)
        × (settings.allow_api_key_fallback ≡ true)
        × (non_empty settings.azure_ai_project_api_key ≡ true))

-- Settings that give a policy give that of the managed identity if they use it; and that of the API
-- key only if they do not, allow the fallback, have a key and are not those of production.
pub resolve_foundry_auth_policy-Justified :
    (settings : Settings) (policy : FoundryAuthPolicy)
    → resolve_foundry_auth_policy settings ≡ ok policy
    → Justified settings policy
unfolding resolve_foundry_auth_policy
resolve_foundry_auth_policy-Justified settings policy h =
    elim (Bool-cases (is_production settings && not settings.azure_use_managed_identity)) [
      | inl refused ↦ absurd (let e = rw refused at h in cc)
      | inr allowed ↦ elim (Bool-cases settings.azure_use_managed_identity) [
        | inl managed ↦
            let e = rw (allowed, managed) at h in
            inl (sym (ap (λ (p : FoundryAuthPolicy). p.mode) (ok_inj e)), managed)
        | inr unmanaged ↦
            elim (Bool-cases
              (settings.allow_api_key_fallback && non_empty settings.azure_ai_project_api_key)) [
                | inl fallback ↦
                    let e = rw (allowed, unmanaged, fallback) at h in
                    inr (
                      sym (ap (λ (p : FoundryAuthPolicy). p.mode) (ok_inj e)),
                      unless_managed _ _ allowed unmanaged,
                      unmanaged,
                      (both_true _ _ fallback).0,
                      (both_true _ _ fallback).1,
                    )
                | inr none_left ↦ absurd (let e = rw (allowed, unmanaged, none_left) at h in cc)
              ]
      ]
    ]
