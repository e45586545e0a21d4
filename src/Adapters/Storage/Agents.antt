-- ===== src/Adapters/Storage/Agents.antt =====
-- `InMemoryAgentAccessCatalog`: the agents of each tenant, and who may use them.
pub mod Access
pub mod Capacity
use hosted_agents_saa_s_plat.Prelude.{
  string_eq, pair_eq, triple_eq, String, Bool, false, ◌&&◌, ◌||◌, Option, none, some, List, [],
  ◌==◌, contains, filter, map, sorted, if◌then◌else◌,
}
use hosted_agents_saa_s_plat.Collections.Dict.{Dict, values, get, put}
use hosted_agents_saa_s_plat.Collections.KeySet.{add, discard, to_set}
use hosted_agents_saa_s_plat.Text.Order.{text_leb}
use hosted_agents_saa_s_plat.Domain.Models.{TenantAgent, CustomerAgentEntitlement}

pub record AgentAccess : Type 0 where
  pub tenant_agents : Dict (String × String) TenantAgent
  pub entitlements : List (String × String × String)

abbrev pub empty : AgentAccess
empty = record { tenant_agents = []; entitlements = [] }

unfoldable pub upsert_tenant_agent : TenantAgent → AgentAccess → AgentAccess
upsert_tenant_agent agent s = record s {
  tenant_agents = put s.tenant_agents (agent.tenant_id, agent.agent_id) agent;
}

unfoldable pub get_tenant_agent : String → String → AgentAccess → Option TenantAgent
get_tenant_agent tenant_id agent_id s = get s.tenant_agents (tenant_id, agent_id)

abbrev pub by_agent_id : TenantAgent → TenantAgent → Bool
by_agent_id a b = text_leb a.agent_id b.agent_id

-- `tid == tenant_id` for an item of the dict
abbrev pub of_tenant : String → (String × String) × TenantAgent → Bool
of_tenant tenant_id x = x.0.0 == tenant_id

unfoldable pub list_tenant_agents : String → AgentAccess → List TenantAgent
list_tenant_agents tenant_id s =
    sorted by_agent_id (values (filter (of_tenant tenant_id) s.tenant_agents))

unfoldable pub grant_customer_agent : CustomerAgentEntitlement → AgentAccess → AgentAccess
grant_customer_agent g s = record s {
  entitlements = add s.entitlements (g.tenant_id, g.customer_user_id, g.agent_id);
}

unfoldable pub revoke_customer_agent : String → String → String → AgentAccess → AgentAccess
revoke_customer_agent tenant_id customer_user_id agent_id s = record s {
  entitlements = discard s.entitlements (tenant_id, customer_user_id, agent_id);
}

-- `tid == tenant_id and cid in {customer_user_id, "*"}`
abbrev pub permits : String → String → String × String × String → Bool
permits tenant_id customer_user_id (tid, cid, agent_id) =
    tid == tenant_id && (cid == customer_user_id || cid == "*")

abbrev agent_of : String × String × String → String
agent_of (tid, cid, agent_id) = agent_id

unfoldable pub list_customer_agents : String → String → AgentAccess → List String
list_customer_agents tenant_id customer_user_id s =
    sorted text_leb
      (to_set (map agent_of (filter (permits tenant_id customer_user_id) s.entitlements)))

abbrev pub entitled_if : Option TenantAgent → Bool → Bool
entitled_if none listed = false
entitled_if (some agent) listed = if agent.active then listed else false

unfoldable pub is_customer_entitled : String → String → String → AgentAccess → Bool
unfolding get_tenant_agent
is_customer_entitled tenant_id customer_user_id agent_id s =
    entitled_if (get_tenant_agent tenant_id agent_id s) (
      contains (tenant_id, customer_user_id, agent_id) s.entitlements
      || contains (tenant_id, "*", agent_id) s.entitlements)
