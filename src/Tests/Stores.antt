-- ===== src/Tests/Stores.antt =====
-- Agents, entitlements and usage of storage.py on concrete input.
use hosted_agents_saa_s_plat.Prelude.{
  string_eq, pair_eq, triple_eq, ℕ, ◌+◌, String, true, false, ◌≡◌, ◌≢◌, refl, List, [], ◌∷◌, pos,
  arith, contains, ◌&&◌, ◌||◌, ◌==◌, All, IsSorted, string_eq_iff,
}
use mathlib.Core.List.{foldl, foldl-append}
use hosted_agents_saa_s_plat.Domain.Models.{
  TenantAgent, CustomerAgentEntitlement, UsageEvent, TenantBillingRecord,
}
use hosted_agents_saa_s_plat.Adapters.Storage.Agents
use hosted_agents_saa_s_plat.Adapters.Storage.Agents.{
  AgentAccess, upsert_tenant_agent, get_tenant_agent, grant_customer_agent, revoke_customer_agent,
  list_customer_agents, is_customer_entitled,
}
use hosted_agents_saa_s_plat.Adapters.Storage.Agents.Access.{
  is_active, listed, entitled-grant, entitled-revoke, entitled-eq-listed,
}
use hosted_agents_saa_s_plat.Adapters.Storage.Agents.Capacity
use hosted_agents_saa_s_plat.Adapters.Storage.Agents.Capacity.{
  IsKeyed, upsert-IsKeyed, count_agents, active_besides, count_agents-upsert,
}
use hosted_agents_saa_s_plat.Adapters.Storage.Usage.{
  FloatOps, group_events, group_event, summarize_tenant_month, summarize_all_tenants_month,
  by_tenant_id,
}
use hosted_agents_saa_s_plat.Collections.Dict.{values}
use hosted_agents_saa_s_plat.Calendar.{month_text}
use hosted_agents_saa_s_plat.Adapters.Storage.Usage.Billing.{
  FloatLaws, AgreesWith, export-agrees, export_complete,
}

abbrev agent : String → TenantAgent
agent a = record {
  tenant_id = "t1";
  agent_id = a;
  display_name = "Agent";
  active = true;
  created_at = 0;
}

abbrev one_agent : AgentAccess
one_agent = upsert_tenant_agent (agent "a") Agents.empty

one_agent-IsKeyed : IsKeyed one_agent
one_agent-IsKeyed = upsert-IsKeyed (agent "a") Agents.empty (record { distinct = tt; own = tt })

count_agents-upsert_example :
    count_agents Capacity.is_active "t1" (upsert_tenant_agent (agent "b") one_agent)
    ≡ count_agents (active_besides "b") "t1" one_agent + 1
count_agents-upsert_example = count_agents-upsert (agent "b") one_agent one_agent-IsKeyed

abbrev grant : CustomerAgentEntitlement
grant = record { tenant_id = "t1"; customer_user_id = "u1"; agent_id = "a"; created_at = 0 }

entitled-grant_example :
    is_customer_entitled "t1" "u1" "a" (grant_customer_agent grant one_agent)
    ≡ (is_active (get_tenant_agent "t1" "a" one_agent) && (listed "t1" "u1" "a" one_agent || true))
entitled-grant_example = entitled-grant grant "t1" "u1" "a" one_agent

entitled-eq-listed_example :
    (contains "a" (list_customer_agents "t1" "u1" one_agent) ≡ (
      contains ("t1", "u1", "a") one_agent.entitlements
      || contains ("t1", "*", "a") one_agent.entitlements))
    × (is_customer_entitled "t1" "u1" "a" one_agent ≡ (
        is_active (get_tenant_agent "t1" "a" one_agent)
        && contains "a" (list_customer_agents "t1" "u1" one_agent)))
entitled-eq-listed_example = entitled-eq-listed "t1" "u1" "a" one_agent

abbrev granted_agent : AgentAccess
granted_agent = grant_customer_agent grant one_agent

abbrev customer : String
customer = "u1"

explicit_customer : customer ≢ "*"
explicit_customer h = let same : false ≡ true = (string_eq_iff "u1" "*").1 h in absurd (cc)

entitled-revoke_example :
    is_customer_entitled "t1" "u1" "a" (revoke_customer_agent "t1" "u1" "a" granted_agent) ≡ (
      is_active (get_tenant_agent "t1" "a" granted_agent)
      && contains ("t1", "*", "a") granted_agent.entitlements)
entitled-revoke_example =
    entitled-revoke "t1" "u1" "a" "t1" "u1" "a" granted_agent explicit_customer

-- costs counted in a whole number of units
abbrev sum_units : List ℕ → ℕ
sum_units = foldl (λ a b. a + b) 0

instance pub units : FloatOps ℕ
units = record { zero_float = 0; add_float = λ a b. a + b; sum_float = sum_units }

units-FloatLaws : FloatLaws ℕ
unfolding units
units-FloatLaws = record { sum_one = λ x. omega arith; sum_more = λ xs x. rw foldl-append refl }

abbrev pub event : String → ℕ → UsageEvent ℕ
event t cost = record {
  tenant_id = t;
  agent_id = "a";
  request_id = "r";
  model = "provider-default";
  latency_ms = pos 7;
  tokens_in = pos 2;
  tokens_out = pos 3;
  cost_estimate = cost;
  created_at = 0;
}

abbrev events : List (UsageEvent ℕ)
events = event "t2" 5 ∷ event "t1" 1 ∷ event "t2" 2 ∷ []

export-agrees_example :
    All (AgreesWith units-FloatLaws "1970-01" events) (summarize_all_tenants_month "1970-01" events)
    × IsSorted by_tenant_id (summarize_all_tenants_month "1970-01" events)
export-agrees_example = export-agrees units-FloatLaws "1970-01" events

nothing_billed :
    All
      (λ (r : TenantBillingRecord ℕ). (r.tenant_id == "t3") ≡ false)
      (summarize_all_tenants_month "1970-02" events)
unfolding summarize_all_tenants_month group_events group_event month_text values
nothing_billed = tt

export_complete_example : (summarize_tenant_month "t3" "1970-02" events).messages_used ≡ pos 0
export_complete_example = export_complete units-FloatLaws "1970-02" events "t3" nothing_billed
