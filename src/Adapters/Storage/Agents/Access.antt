-- ===== src/Adapters/Storage/Agents/Access.antt =====
-- Who may run an agent: grants, revocations, and the two queries of the catalog.
use hosted_agents_saa_s_plat.Prelude.{
  string_eq, pair_eq, triple_eq, string_eq_iff, String, Bool, false, ◌&&◌, ◌||◌, ◌≡◌, ◌≢◌, refl,
  Option, none, some, List, [], ◌∷◌, ◌==◌, contains, contains-sorted, filter, map, arith,
  if◌then◌else◌,
}
use hosted_agents_saa_s_plat.Collections.KeySet.{contains-add, contains-discard, contains-to_set}
use hosted_agents_saa_s_plat.Domain.Models.{TenantAgent, CustomerAgentEntitlement}
use hosted_agents_saa_s_plat.Adapters.Storage.Agents.{
  AgentAccess, get_tenant_agent, grant_customer_agent, revoke_customer_agent, permits, agent_of,
  list_customer_agents, is_customer_entitled,
}

abbrev pub is_active : Option TenantAgent → Bool
is_active none = false
is_active (some agent) = agent.active

-- some grant of the agent names the customer or everybody
abbrev pub listed : String → String → String → AgentAccess → Bool
listed t c a s = contains (t, c, a) s.entitlements || contains (t, "*", a) s.entitlements

is_customer_entitled_lem :
    (t c a : String) (s : AgentAccess)
    → is_customer_entitled t c a s ≡ (is_active (get_tenant_agent t a s) && listed t c a s)
unfolding is_customer_entitled
is_customer_entitled_lem t c a s = ground arith

-- After a grant a customer may run an agent exactly if the agent is active and either the grant was
-- for that agent and for that customer or everybody, or some older grant was.
pub entitled-grant :
    (g : CustomerAgentEntitlement) (t c a : String) (s : AgentAccess)
    → is_customer_entitled t c a (grant_customer_agent g s) ≡ (
        is_active (get_tenant_agent t a s)
        && (listed t c a s
            || (t == g.tenant_id
                && (c == g.customer_user_id || "*" == g.customer_user_id)
                && a == g.agent_id)))
unfolding grant_customer_agent get_tenant_agent
entitled-grant g t c a s = rw is_customer_entitled_lem (
    ground (
      arith,
      contains-add s.entitlements (g.tenant_id, g.customer_user_id, g.agent_id) (t, c, a),
      contains-add s.entitlements (g.tenant_id, g.customer_user_id, g.agent_id) (t, "*", a),
    ))

-- After the revocation of an explicit grant the customer may run the agent exactly if it is active
-- and everybody may; for any other customer, agent or tenant nothing changes.
pub entitled-revoke :
    (t c a t' c' a' : String) (s : AgentAccess)
    → c ≢ "*"
    → is_customer_entitled t' c' a' (revoke_customer_agent t c a s) ≡ (
        if t == t' && (c == c' && a == a')
        then is_active (get_tenant_agent t a s) && contains (t, "*", a) s.entitlements
        else is_customer_entitled t' c' a' s)
unfolding revoke_customer_agent get_tenant_agent
entitled-revoke t c a t' c' a' s explicit = simp is_customer_entitled_lem (
    ground (
      arith,
      contains-discard s.entitlements (t, c, a) (t', c', a'),
      contains-discard s.entitlements (t, c, a) (t', "*", a'),
      string_eq_iff c "*",
      string_eq_iff t t',
      string_eq_iff c c',
      string_eq_iff a a',
    ))

contains-permitted :
    (t c a : String) (l : List (String × String × String))
    → contains a (map agent_of (filter (permits t c) l))
      ≡ (contains (t, c, a) l || contains (t, "*", a) l)
contains-permitted t c a [] = refl
contains-permitted t c a ((x, y, z) ∷ l) = ground (
  arith,
  contains-permitted t c a l,
  string_eq_iff x t,
  string_eq_iff t x,
  string_eq_iff y c,
  string_eq_iff c y,
  string_eq_iff y "*",
  string_eq_iff "*" y,
)

-- The agents that are listed for a customer are those that some grant names for the customer or for
-- everybody; the customer may run exactly those of them that are active agents of the tenant.
pub entitled-eq-listed :
    (t c a : String) (s : AgentAccess)
    → (contains a (list_customer_agents t c s)
        ≡ (contains (t, c, a) s.entitlements || contains (t, "*", a) s.entitlements))
      × (is_customer_entitled t c a s
          ≡ (is_active (get_tenant_agent t a s) && contains a (list_customer_agents t c s)))
unfolding list_customer_agents
entitled-eq-listed t c a s =
    let same = contains-permitted t c a s.entitlements in
    (
      rw (contains-sorted, contains-to_set) same,
      rw (is_customer_entitled_lem, contains-sorted, contains-to_set, same) refl,
    )
