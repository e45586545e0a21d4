-- ===== src/Tests/AgentLimit.antt =====
-- The write of an active agent by an administrator.
use hosted_agents_saa_s_plat.Prelude.{
  string_eq, nat_eq, pair_eq, ℕ, true, ◌≡◌, refl, some, [], ◌∷◌, pos, ◌≤ℤ◌,
}
use hosted_agents_saa_s_plat.Collections.Dict.{get, put, values}
use hosted_agents_saa_s_plat.Text.{strip, lower, prefix, after_first_space}
use hosted_agents_saa_s_plat.Domain.Action.{ok}
use hosted_agents_saa_s_plat.Domain.Models.{Tenant, Plan, UpsertTenantAgentRequest}
use hosted_agents_saa_s_plat.Policies.Auth.Claims.{claim}
use hosted_agents_saa_s_plat.Policies.Auth.Jwks.{
  decode_bearer_jwt, decode_token, extract_bearer_token, is_jwks_enabled,
}
use hosted_agents_saa_s_plat.Policies.Auth.Admin.{authenticate, authorize_admin}
use hosted_agents_saa_s_plat.Adapters.Storage.Agents
use hosted_agents_saa_s_plat.Adapters.Storage.Agents.{AgentAccess}
use hosted_agents_saa_s_plat.Adapters.Storage.Agents.Capacity.{
  IsKeyed, upsert-IsKeyed, count_agents, is_active,
}
use hosted_agents_saa_s_plat.Adapters.Storage.Catalog.{get_tenant, get_plan}
use hosted_agents_saa_s_plat.Api.Context.{World}
use hosted_agents_saa_s_plat.Api.Agents.{upsert_tenant_agent}
use hosted_agents_saa_s_plat.Api.Agents.Limit.{upsert_tenant_agent_within}
use hosted_agents_saa_s_plat.Tests.Admin.{settings, jwt, gateway, whole_floats, context, reading}
use hosted_agents_saa_s_plat.Tests.Runs.{served_world, helper}

abbrev request : UpsertTenantAgentRequest
request = record { agent_id = "a"; display_name = "Helper"; active = true }

abbrev bare : AgentAccess
bare = record { tenant_agents = []; entitlements = ("t1", "u1", "a") ∷ [] }

served_world-IsKeyed : IsKeyed served_world.agents
unfolding Agents.upsert_tenant_agent put
served_world-IsKeyed = upsert-IsKeyed helper bare (record { distinct = tt; own = tt })

abbrev written_world : World ℕ Unit
written_world = (upsert_tenant_agent context reading 7 "t1" request "Bearer genuine" served_world).1

agent_written :
    upsert_tenant_agent context reading 7 "t1" request "Bearer genuine" served_world
    ≡ (ok helper, written_world)
unfolding upsert_tenant_agent authorize_admin authenticate decode_bearer_jwt extract_bearer_token
    decode_token is_jwks_enabled lower prefix strip after_first_space claim get get_tenant get_plan
    Agents.list_tenant_agents values Agents.get_tenant_agent
agent_written = refl

upsert_tenant_agent_within_example :
    (tenant : Tenant) × (plan : Plan) × (get_tenant "t1" served_world.tenants ≡ some tenant)
    × (get_plan tenant.plan served_world.plans ≡ some plan)
    × (pos (count_agents is_active "t1" written_world.agents) ≤ℤ plan.limits.max_agents)
upsert_tenant_agent_within_example =
    upsert_tenant_agent_within settings jwt gateway reading 7 "t1" request "Bearer genuine"
      served_world written_world helper served_world-IsKeyed refl agent_written
