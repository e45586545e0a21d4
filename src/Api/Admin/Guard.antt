-- ===== src/Api/Admin/Guard.antt =====
-- No admin endpoint acts for a caller who is not permitted.
use hosted_agents_saa_s_plat.Prelude.{String, ◌≡◌, refl, ap, Option, List, ◌∷◌}
use hosted_agents_saa_s_plat.Domain.Action.{Raised, Outcome, ok, err}
use hosted_agents_saa_s_plat.Policies.Auth.Claims.{Claims}
use hosted_agents_saa_s_plat.Policies.Auth.Jwks.{Reading}
use hosted_agents_saa_s_plat.Policies.Auth.Admin.{AdminPrincipal, principal_of}
use hosted_agents_saa_s_plat.Policies.Auth.Admin.Permission.{Permitted, authorize_admin_ok}
use hosted_agents_saa_s_plat.Api.Context.{AppContext, require_admin}
use hosted_agents_saa_s_plat.Api.Admin.{
  AdminRequest, debug_identity, list_plans, get_plan, roles_of, scopes_of, tenant_of, serve,
}

module _ {F S : Type 0} (ctx : AppContext F S) (r : Reading) (authorization : String) (s : S) where
  abbrev admission : AdminRequest → Outcome AdminPrincipal × S
  admission q = require_admin ctx r authorization (roles_of q) (scopes_of q) (tenant_of q) s

  -- A caller who is not admitted gets the error of the admission, and nothing is done after it.
  pub serve_refused :
      (q : AdminRequest) {e : Raised} {s' : S}
      → admission q ≡ (err e, s')
      → serve ctx r authorization q s ≡ (err e, s')
  unfolding serve
  serve_refused list_plans h = rw h refl
  serve_refused (debug_identity x) h = rw h refl
  serve_refused (get_plan x) h = rw h refl
  serve_refused _ h = rw h refl

  abbrev Shown : AdminRequest → Type 0
  Shown q =
      (claims : Claims) × ((ctx.decode r authorization s).0 ≡ ok claims)
      × Permitted (principal_of claims) (roles_of q) (scopes_of q) (tenant_of q)

  shown_by :
      (role : String) (roles scopes : List String) (t : Option String) (p : AdminPrincipal) (s' : S)
      → require_admin ctx r authorization (role ∷ roles) scopes t s ≡ (ok p, s')
      → (claims : Claims) × ((ctx.decode r authorization s).0 ≡ ok claims)
        × Permitted (principal_of claims) (role ∷ roles) scopes t
  shown_by role roles scopes t p s' a =
      let (claims, decoded, same, permitted) =
        authorize_admin_ok (ctx.decode r) authorization role roles scopes t s a in
      (claims, ap (λ (x : Outcome Claims × S). x.0) decoded, rw (← same) permitted)

  admitted : (q : AdminRequest) (p : AdminPrincipal) (s' : S) → admission q ≡ (ok p, s') → Shown q
  admitted list_plans p s' a = shown_by _ _ _ _ p s' a
  admitted (debug_identity x) p s' a = shown_by _ _ _ _ p s' a
  admitted (get_plan x) p s' a = shown_by _ _ _ _ p s' a
  admitted _ p s' a = shown_by _ _ _ _ p s' a

  -- What an endpoint answers with success, it does for a caller whose token decodes to a principal
  -- with a role or a scope that the policy of the endpoint asks for, in scope of the path's tenant.
  pub serve-Permitted :
      (q : AdminRequest)
      → (serve ctx r authorization q s).0 ≡ ok tt
      → (claims : Claims) × ((ctx.decode r authorization s).0 ≡ ok claims)
        × Permitted (principal_of claims) (roles_of q) (scopes_of q) (tenant_of q)
  serve-Permitted q h = go (admission q) refl
    where
      go :
          (a : Outcome AdminPrincipal × S)
          → admission q ≡ a
          → (claims : Claims) × ((ctx.decode r authorization s).0 ≡ ok claims)
            × Permitted (principal_of claims) (roles_of q) (scopes_of q) (tenant_of q)
      go (err e, s') a =
          let refused : (serve ctx r authorization q s).0 ≡ err e = rw (serve_refused q a) refl in
          absurd (cc)
      go (ok p, s') a = admitted q p s' a
