-- ===== src/Adapters/Postgres/Agents.antt =====
-- `PostgresAgentAccessCatalog`, over the tables of agents and of entitlements.
pub mod Steps
pub mod Refinement
use hosted_agents_saa_s_plat.Prelude.{
  string_eq, pair_eq, triple_eq, String, Bool, true, false, ◌&&◌, ◌||◌, not, Option, none, some,
  List, [], ◌∷◌, ◌==◌, map, sorted,
}
use mathlib.Core.Option.{map as map_option}
use hosted_agents_saa_s_plat.Collections.KeySet.{to_set}
use hosted_agents_saa_s_plat.Text.Order.{text_leb}
use hosted_agents_saa_s_plat.Domain.Action.{Action, Outcome, ok}
use hosted_agents_saa_s_plat.Domain.Models.{Datetime, TenantAgent, CustomerAgentEntitlement}
use hosted_agents_saa_s_plat.Domain.Interfaces.{AgentAccessCatalog}
use hosted_agents_saa_s_plat.Adapters.Database.{Table, upsert, merge, remove}
use hosted_agents_saa_s_plat.Adapters.Storage.Memory.{reads, writes}

pub record TenantAgentRow : Type 0 where
  pub tenant_id : String
  pub agent_id : String
  pub display_name : String
  pub active : Bool
  pub created_at : Datetime

pub record CustomerAgentEntitlementRow : Type 0 where
  pub tenant_id : String
  pub customer_user_id : String
  pub agent_id : String
  pub created_at : Datetime

abbrev pub new_agent_row : TenantAgent → TenantAgentRow
new_agent_row agent = record {
  tenant_id = agent.tenant_id;
  agent_id = agent.agent_id;
  display_name = agent.display_name;
  active = agent.active;
  created_at = agent.created_at;
}

abbrev pub set_agent : TenantAgent → TenantAgentRow → TenantAgentRow
set_agent agent row = record row { display_name = agent.display_name; active = agent.active }

abbrev pub agent_of_row : TenantAgentRow → TenantAgent
agent_of_row row = record {
  tenant_id = row.tenant_id;
  agent_id = row.agent_id;
  display_name = row.display_name;
  active = row.active;
  created_at = row.created_at;
}

abbrev pub grant_row : CustomerAgentEntitlement → CustomerAgentEntitlementRow
grant_row g = record {
  tenant_id = g.tenant_id;
  customer_user_id = g.customer_user_id;
  agent_id = g.agent_id;
  created_at = g.created_at;
}

-- `tenant_id == ..., customer_user_id.in_([customer_user_id, "*"])`
abbrev pub names_customer : String → String → CustomerAgentEntitlementRow → Bool
names_customer tenant_id customer_user_id row =
    row.tenant_id == tenant_id
    && (row.customer_user_id == customer_user_id || row.customer_user_id == "*")

abbrev pub names_agent : String → String → String → CustomerAgentEntitlementRow → Bool
names_agent tenant_id customer_user_id agent_id row =
    names_customer tenant_id customer_user_id row && row.agent_id == agent_id

-- `.first() is not None`
abbrev pub is_found : {A : Type 0} → List A → Bool
is_found [] = false
is_found (x ∷ xs) = true

abbrev pub entitled_if : Option TenantAgentRow → Bool → Bool
entitled_if none found = false
entitled_if (some agent) found = agent.active && found

-- one table of two
abbrev pub in_agents : {S T A : Type 0} → Action S A → Action (S × T) A
in_agents m (s, t) = let (r, s') = m s in (r, (s', t))

abbrev pub in_entitlements : {S T A : Type 0} → Action T A → Action (S × T) A
in_entitlements m (s, t) = let (r, t') = m t in (r, (s, t'))

module _ {S T : Type 0} (agents : Table (String × String) TenantAgentRow S) where
  unfoldable pub upsert_tenant_agent : TenantAgent → Action (S × T) (Unit {0})
  upsert_tenant_agent agent =
      in_agents
        (upsert agents (agent.tenant_id, agent.agent_id) (set_agent agent) (new_agent_row agent))

  unfoldable pub get_tenant_agent : String → String → S × T → Option TenantAgent
  get_tenant_agent tenant_id agent_id s =
      map_option agent_of_row (agents.find (tenant_id, agent_id) s.0)

module _ {S T : Type 0} (text_le : String → String → Bool)
    (agents : Table (String × String) TenantAgentRow S) where
  unfoldable pub list_tenant_agents : String → S × T → List TenantAgent
  list_tenant_agents tenant_id s =
      map agent_of_row (
        agents.select (λ row. row.tenant_id == tenant_id) (λ a b. text_le a.agent_id b.agent_id)
          s.0)

module _ {S T : Type 0}
    (entitlements : Table (String × String × String) CustomerAgentEntitlementRow T) where
  unfoldable pub grant_customer_agent : CustomerAgentEntitlement → Action (S × T) (Unit {0})
  grant_customer_agent g =
      in_entitlements
        (merge entitlements (g.tenant_id, g.customer_user_id, g.agent_id) (grant_row g))

  unfoldable pub revoke_customer_agent : String → String → String → Action (S × T) (Unit {0})
  revoke_customer_agent tenant_id customer_user_id agent_id =
      in_entitlements (writes (remove entitlements (tenant_id, customer_user_id, agent_id)))

module _ {S T : Type 0} (text_le : String → String → Bool)
    (entitlements : Table (String × String × String) CustomerAgentEntitlementRow T) where
  unfoldable pub list_customer_agents : String → String → S × T → List String
  list_customer_agents tenant_id customer_user_id s = sorted text_leb (
      to_set (
        map (λ (row : CustomerAgentEntitlementRow). row.agent_id)
          (entitlements.select (names_customer tenant_id customer_user_id)
            (λ a b. text_le a.agent_id b.agent_id) s.1)))

module _ {S T : Type 0} (agents : Table (String × String) TenantAgentRow S)
    (entitlements : Table (String × String × String) CustomerAgentEntitlementRow T) where
  unfoldable pub is_customer_entitled : String → String → String → S × T → Bool
  is_customer_entitled tenant_id customer_user_id agent_id s =
      entitled_if (agents.find (tenant_id, agent_id) s.0) (
        is_found
          (entitlements.select (names_agent tenant_id customer_user_id agent_id) (λ _ _. true) s.1))

module _ {S T : Type 0} (text_le : String → String → Bool)
    (agents : Table (String × String) TenantAgentRow S)
    (entitlements : Table (String × String × String) CustomerAgentEntitlementRow T) where
  abbrev pub agent_access_catalog : AgentAccessCatalog (S × T)
  agent_access_catalog = record {
    upsert_tenant_agent = upsert_tenant_agent agents;
    get_tenant_agent = λ t a. reads (get_tenant_agent agents t a);
    list_tenant_agents = λ t. reads (list_tenant_agents text_le agents t);
    grant_customer_agent = grant_customer_agent entitlements;
    revoke_customer_agent = revoke_customer_agent entitlements;
    list_customer_agents = λ t c. reads (list_customer_agents text_le entitlements t c);
    is_customer_entitled = λ t c a. reads (is_customer_entitled agents entitlements t c a);
  }
