-- ===== src/Api/Agents.antt =====
-- The handlers of a tenant's agents and of its customers' access to them.
pub mod Usable
pub mod Limit
use hosted_agents_saa_s_plat.Prelude.{
  string_eq, pos, String, Bool, true, false, not, ◌&&◌, Option, none, some, List, [], ◌∷◌, ◌==◌,
  filter, length, leb_ℤ, if◌then◌else◌,
}
use hosted_agents_saa_s_plat.Domain.Action.{
  Action, Raised, http, pure, raise, raise_if, or_raise, ◌>>=◌, ◌>>◌,
}
use hosted_agents_saa_s_plat.Domain.Models.{Datetime, Plan, TenantAgent, UpsertTenantAgentRequest}
use hosted_agents_saa_s_plat.Policies.Auth.Jwks.{Reading}
use hosted_agents_saa_s_plat.Api.Context.{AppContext, require_admin}
use hosted_agents_saa_s_plat.Api.Tenants.{find_tenant}

pub record CustomerAgents : Type 0 where
  pub tenant_id : String
  pub customer_user_id : String
  pub agent_ids : List String

-- `plan is None or not plan.active`, and the plan itself otherwise
abbrev pub usable : Option Plan → Raised → {S : Type 0} → Action S Plan
usable none e = raise e
usable (some plan) e = if plan.active then pure plan else raise e

abbrev pub created_or : Option TenantAgent → Datetime → Datetime
created_or none now = now
created_or (some existing) now = existing.created_at

abbrev pub other_active : String → TenantAgent → Bool
other_active agent_id agent = agent.active && not (agent.agent_id == agent_id)

abbrev pub agent_of :
    String → UpsertTenantAgentRequest → Option TenantAgent → Datetime → TenantAgent
agent_of tenant_id request existing now = record {
  tenant_id = tenant_id;
  agent_id = request.agent_id;
  display_name = request.display_name;
  active = request.active;
  created_at = created_or existing now;
}

module _ {F S : Type 0} (ctx : AppContext F S) where
  unfoldable pub list_tenant_agents : Reading → String → String → Action S (List TenantAgent)
  unfolding find_tenant
  list_tenant_agents r tenant_id authorization = do
    principal ←
        require_admin ctx r authorization ("platform_admin" ∷ "tenant_admin" ∷ [])
          ("tenant.agents.read" ∷ []) (some tenant_id)
    tenant ← find_tenant ctx tenant_id
    ctx.agent_access.list_tenant_agents tenant_id

  -- the test of `max_agents`, made only for an active agent
  unfoldable pub check_capacity : Plan → String → String → Bool → Action S (Unit {0})
  check_capacity plan tenant_id agent_id false = pure tt
  check_capacity plan tenant_id agent_id true = do
    agents ← ctx.agent_access.list_tenant_agents tenant_id
    raise_if (leb_ℤ plan.limits.max_agents (pos (length (filter (other_active agent_id) agents))))
        (http 409 "tenant reached max active agents for plan")

  unfoldable pub upsert_tenant_agent :
      Reading → Datetime → String → UpsertTenantAgentRequest → String → Action S TenantAgent
  unfolding find_tenant check_capacity
  upsert_tenant_agent r now tenant_id request authorization = do
    principal ←
        require_admin ctx r authorization ("platform_admin" ∷ "tenant_admin" ∷ [])
          ("tenant.agents.write" ∷ []) (some tenant_id)
    tenant ← find_tenant ctx tenant_id
    found ← ctx.plans.get_plan tenant.plan
    plan ← usable found (http 409 "tenant plan is invalid or inactive")
    existing ← ctx.agent_access.get_tenant_agent tenant_id request.agent_id
    check_capacity plan tenant_id request.agent_id request.active
    let agent = agent_of tenant_id request existing now
    ctx.agent_access.upsert_tenant_agent agent
    pure agent

  unfoldable pub grant_customer_agent_access :
      Reading → Datetime → String → String → String → String → Action S (Unit {0})
  unfolding find_tenant
  grant_customer_agent_access r now tenant_id customer_user_id agent_id authorization = do
    principal ←
        require_admin ctx r authorization ("platform_admin" ∷ "tenant_admin" ∷ [])
          ("tenant.agents.write" ∷ "tenant.agent_access.write" ∷ []) (some tenant_id)
    tenant ← find_tenant ctx tenant_id
    found ← ctx.agent_access.get_tenant_agent tenant_id agent_id
    agent ← or_raise found (http 404 "agent not found for tenant")
    ctx.agent_access.grant_customer_agent (record {
      tenant_id = tenant_id;
      customer_user_id = customer_user_id;
      agent_id = agent_id;
      created_at = now;
    })

  unfoldable pub revoke_customer_agent_access :
      Reading → String → String → String → String → Action S (Unit {0})
  unfolding find_tenant
  revoke_customer_agent_access r tenant_id customer_user_id agent_id authorization = do
    principal ←
        require_admin ctx r authorization ("platform_admin" ∷ "tenant_admin" ∷ [])
          ("tenant.agents.write" ∷ "tenant.agent_access.write" ∷ []) (some tenant_id)
    tenant ← find_tenant ctx tenant_id
    ctx.agent_access.revoke_customer_agent tenant_id customer_user_id agent_id

  unfoldable pub list_customer_agent_access :
      Reading → String → String → String → Action S CustomerAgents
  unfolding find_tenant
  list_customer_agent_access r tenant_id customer_user_id authorization = do
    principal ←
        require_admin ctx r authorization ("platform_admin" ∷ "tenant_admin" ∷ [])
          ("tenant.agents.read" ∷ "tenant.agent_access.read" ∷ []) (some tenant_id)
    tenant ← find_tenant ctx tenant_id
    agent_ids ← ctx.agent_access.list_customer_agents tenant_id customer_user_id
    pure (record {
      tenant_id = tenant_id;
      customer_user_id = customer_user_id;
      agent_ids = agent_ids;
    })
