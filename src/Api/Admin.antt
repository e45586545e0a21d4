-- ===== src/Api/Admin.antt =====
-- The endpoints under /v1/admin as one type of requests, with the policy that
-- docs/ENTRA_ADMIN_RBAC_CONTRACT.md and main.py give each of them.
pub mod Guard
use hosted_agents_saa_s_plat.Prelude.{String, Option, none, some, List, [], ◌∷◌}
use hosted_agents_saa_s_plat.Domain.Action.{Action, pure, ◌>>=◌}
use hosted_agents_saa_s_plat.Domain.Models.{
  Datetime, CreatePlanRequest, UpdateTenantPlanRequest, UpsertTenantAgentRequest,
}
use hosted_agents_saa_s_plat.Policies.Auth.Jwks.{Reading}
use hosted_agents_saa_s_plat.Api.Context.{AppContext, require_admin}
use hosted_agents_saa_s_plat.Api.Plans
use hosted_agents_saa_s_plat.Api.Tenants
use hosted_agents_saa_s_plat.Api.Agents
use hosted_agents_saa_s_plat.Api.Identity

pub data AdminRequest : Type 0 where
  debug_identity : String → AdminRequest
  list_plans : AdminRequest
  get_plan : String → AdminRequest
  upsert_plan : CreatePlanRequest → Datetime → AdminRequest
  update_tenant_plan : String → UpdateTenantPlanRequest → AdminRequest
  tenant_usage : String → Option String → String → AdminRequest
  list_tenant_agents : String → AdminRequest
  upsert_tenant_agent : String → UpsertTenantAgentRequest → Datetime → AdminRequest
  grant_access : String → String → String → Datetime → AdminRequest
  revoke_access : String → String → String → AdminRequest
  list_access : String → String → AdminRequest
  export_usage : Option String → String → AdminRequest

abbrev both_admins : List String
both_admins = "platform_admin" ∷ "tenant_admin" ∷ []

abbrev pub roles_of : AdminRequest → List String
roles_of (debug_identity _) = "platform_admin" ∷ []
roles_of list_plans = "platform_admin" ∷ []
roles_of (get_plan _) = "platform_admin" ∷ []
roles_of (upsert_plan _ _) = "platform_admin" ∷ []
roles_of (update_tenant_plan _ _) = both_admins
roles_of (tenant_usage _ _ _) = "platform_admin" ∷ "tenant_admin" ∷ "billing_reader" ∷ []
roles_of (list_tenant_agents _) = both_admins
roles_of (upsert_tenant_agent _ _ _) = both_admins
roles_of (grant_access _ _ _ _) = both_admins
roles_of (revoke_access _ _ _) = both_admins
roles_of (list_access _ _) = both_admins
roles_of (export_usage _ _) = "platform_admin" ∷ "billing_reader" ∷ []

abbrev pub scopes_of : AdminRequest → List String
scopes_of (debug_identity _) = "admin.identity.read" ∷ []
scopes_of list_plans = "plans.read" ∷ []
scopes_of (get_plan _) = "plans.read" ∷ []
scopes_of (upsert_plan _ _) = "plans.write" ∷ []
scopes_of (update_tenant_plan _ _) = "tenant.plan.write" ∷ []
scopes_of (tenant_usage _ _ _) = "tenant.usage.read" ∷ "billing.read" ∷ []
scopes_of (list_tenant_agents _) = "tenant.agents.read" ∷ []
scopes_of (upsert_tenant_agent _ _ _) = "tenant.agents.write" ∷ []
scopes_of (grant_access _ _ _ _) = "tenant.agents.write" ∷ "tenant.agent_access.write" ∷ []
scopes_of (revoke_access _ _ _) = "tenant.agents.write" ∷ "tenant.agent_access.write" ∷ []
scopes_of (list_access _ _) = "tenant.agents.read" ∷ "tenant.agent_access.read" ∷ []
scopes_of (export_usage _ _) = "usage.export" ∷ "billing.read" ∷ []

-- the tenant of a path that names one
abbrev pub tenant_of : AdminRequest → Option String
tenant_of (debug_identity _) = none
tenant_of list_plans = none
tenant_of (get_plan _) = none
tenant_of (upsert_plan _ _) = none
tenant_of (update_tenant_plan t _) = some t
tenant_of (tenant_usage t _ _) = some t
tenant_of (list_tenant_agents t) = some t
tenant_of (upsert_tenant_agent t _ _) = some t
tenant_of (grant_access t _ _ _) = some t
tenant_of (revoke_access t _ _) = some t
tenant_of (list_access t _) = some t
tenant_of (export_usage _ _) = none

module _ {F S : Type 0} (ctx : AppContext F S) (r : Reading) (authorization : String) where
  abbrev done : {A : Type 0} → Action S A → Action S (Unit {0})
  done m = m >>= λ _. pure tt

  -- the handler of a request, its response left aside
  unfoldable pub serve : AdminRequest → Action S (Unit {0})
  unfolding Identity.debug_identity Plans.list_plans Plans.get_plan Plans.upsert_plan
      Tenants.update_tenant_plan Tenants.tenant_usage Tenants.export_usage Agents.list_tenant_agents
      Agents.upsert_tenant_agent Agents.grant_customer_agent_access
      Agents.revoke_customer_agent_access Agents.list_customer_agent_access
  serve (debug_identity auth_mode) = done (Identity.debug_identity ctx r auth_mode authorization)
  serve list_plans = done (Plans.list_plans ctx r authorization)
  serve (get_plan plan_id) = done (Plans.get_plan ctx r plan_id authorization)
  serve (upsert_plan request now) = done (Plans.upsert_plan ctx r now request authorization)
  serve (update_tenant_plan t request) =
      done (Tenants.update_tenant_plan ctx r t request authorization)
  serve (tenant_usage t month current) =
      done (Tenants.tenant_usage ctx r t month current authorization)
  serve (list_tenant_agents t) = done (Agents.list_tenant_agents ctx r t authorization)
  serve (upsert_tenant_agent t request now) =
      done (Agents.upsert_tenant_agent ctx r now t request authorization)
  serve (grant_access t c a now) = Agents.grant_customer_agent_access ctx r now t c a authorization
  serve (revoke_access t c a) = Agents.revoke_customer_agent_access ctx r t c a authorization
  serve (list_access t c) = done (Agents.list_customer_agent_access ctx r t c authorization)
  serve (export_usage month current) = done (Tenants.export_usage ctx r month current authorization)
