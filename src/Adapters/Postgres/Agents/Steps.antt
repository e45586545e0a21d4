-- ===== src/Adapters/Postgres/Agents/Steps.antt =====
-- Changes of the access catalog, through Postgres and in memory, and what the two states share.
use hosted_agents_saa_s_plat.Prelude.{
  string_eq, pair_eq, triple_eq, String, Bool, true, false, ◌&&◌, ◌||◌, not, ◌≡◌, refl, ap, Option,
  none, some, List, [], ◌∷◌, ◌==◌, contains, arith, if◌then◌else◌, Bool-cases, inl, inr, Eq,
}
use mathlib.Core.Option.{map as map_option}
use hosted_agents_saa_s_plat.Collections.Dict.{get, get-put}
use hosted_agents_saa_s_plat.Collections.KeySet.{contains-add, contains-discard}
use hosted_agents_saa_s_plat.Domain.Action.{Action, ok, pure, ◌>>◌}
use hosted_agents_saa_s_plat.Domain.Models.{TenantAgent, CustomerAgentEntitlement}
use hosted_agents_saa_s_plat.Adapters.Database.{Table}
use hosted_agents_saa_s_plat.Adapters.Database.Laws.{TableLaws}
use hosted_agents_saa_s_plat.Adapters.Database.Changes.{no_clash, upserted, upsert_lem, remove_lem}
use hosted_agents_saa_s_plat.Adapters.Storage.Agents
use hosted_agents_saa_s_plat.Adapters.Storage.Agents.{AgentAccess}
use hosted_agents_saa_s_plat.Adapters.Postgres.Agents.{
  TenantAgentRow, CustomerAgentEntitlementRow, new_agent_row, set_agent, agent_of_row, grant_row,
  upsert_tenant_agent, grant_customer_agent, revoke_customer_agent,
}

abbrev pub agent_key : TenantAgentRow → String × String
agent_key row = (row.tenant_id, row.agent_id)

abbrev pub grant_key : CustomerAgentEntitlementRow → String × String × String
grant_key row = (row.tenant_id, row.customer_user_id, row.agent_id)

-- one call that changes the catalog
pub data Change : Type 0 where
  write : TenantAgent → Change
  grant : CustomerAgentEntitlement → Change
  revoke : String → String → String → Change

abbrev pub step_memory : Change → AgentAccess → AgentAccess
step_memory (write agent) = Agents.upsert_tenant_agent agent
step_memory (grant g) = Agents.grant_customer_agent g
step_memory (revoke t c a) = Agents.revoke_customer_agent t c a

abbrev pub run_memory : List Change → AgentAccess → AgentAccess
run_memory [] m = m
run_memory (change ∷ changes) m = run_memory changes (step_memory change m)

-- an agent without the time of its creation, which Postgres keeps and memory replaces
abbrev pub undated : TenantAgent → TenantAgent
undated agent = record agent { created_at = 0 }

abbrev pub is_there : {A : Type 0} → Option A → Bool
is_there none = false
is_there (some a) = true

there_added :
    {K R : Type 0} ⦃e : Eq K⦄ (j k : K) (found found' : Option R) (row : R) {l l' : Bool}
    → is_there found ≡ l
    → found' ≡ (if j == k then some row else found)
    → l' ≡ (k == j || l)
    → is_there found' ≡ l'
there_added ⦃e⦄ j k found found' row h f g = ground (arith, e.equals_iff j k, e.equals_iff k j)

there_removed :
    {R : Type 0} (here : Bool) (found : Option R) (l : Bool)
    → is_there found ≡ l
    → is_there (if here then none else found) ≡ (not here && l)
there_removed here found l h = ground arith

module _ {S T : Type 0} (agents : Table (String × String) TenantAgentRow S)
    (entitlements : Table (String × String × String) CustomerAgentEntitlementRow T) where
  abbrev pub step_rows : Change → Action (S × T) (Unit {0})
  step_rows (write agent) = upsert_tenant_agent agents agent
  step_rows (grant g) = grant_customer_agent entitlements g
  step_rows (revoke t c a) = revoke_customer_agent entitlements t c a

  abbrev pub run_rows : List Change → Action (S × T) (Unit {0})
  run_rows [] = pure tt
  run_rows (change ∷ changes) = step_rows change >> run_rows changes

  pub record Refines (s : S × T) (m : AgentAccess) : Type 0 where
    pub same_agents :
        (k : String × String)
        → map_option (λ r. undated (agent_of_row r)) (agents.find k s.0)
          ≡ map_option undated (get m.tenant_agents k)
    pub same_grants :
        (k : String × String × String)
        → is_there (entitlements.find k s.1) ≡ contains k m.entitlements

  module _ (agent_laws : TableLaws agent_key no_clash agents)
      (grant_laws : TableLaws grant_key no_clash entitlements) where
    written :
        (agent : TenantAgent) (found : Option TenantAgentRow)
        → ((row : TenantAgentRow)
            → found ≡ some row
            → agent_key row ≡ (agent.tenant_id, agent.agent_id))
        → undated (agent_of_row (upserted (set_agent agent) (new_agent_row agent) found))
          ≡ undated agent
    written agent none own = refl
    written agent (some row) own =
        ap
          (λ (k : String × String). record agent {
            tenant_id = k.0;
            agent_id = k.1;
            created_at = 0;
          })
          (own row refl)

    step-Refines :
        (change : Change) (s : S × T) (m : AgentAccess)
        → Refines s m
        → ((step_rows change s).0 ≡ ok tt) × Refines (step_rows change s).1 (step_memory change m)
    unfolding upsert_tenant_agent grant_customer_agent revoke_customer_agent
        Agents.upsert_tenant_agent Agents.grant_customer_agent Agents.revoke_customer_agent
    step-Refines (write agent) s m r =
        let (done, each) =
          upsert_lem agent_key no_clash agents agent_laws (agent.tenant_id, agent.agent_id)
            (set_agent agent) (new_agent_row agent) s.0 refl (λ row own. own) (λ _ _ _. refl) in
        (
          done,
          record {
            same_agents = λ k.
                rw (each k, get-put)
                  (elim (Bool-cases ((agent.tenant_id, agent.agent_id) == k)) [
                    | inl here ↦ rw here (
                        ap some (
                          written agent (agents.find (agent.tenant_id, agent.agent_id) s.0)
                            (λ row h. agent_laws.own_key s.0 _ row h)))
                    | inr other ↦ rw other (r.same_agents k)
                  ]);
            same_grants = r.same_grants;
          },
        )
    step-Refines (grant g) s m r =
        let (done, each) =
          upsert_lem grant_key no_clash entitlements grant_laws
            (g.tenant_id, g.customer_user_id, g.agent_id) (λ _. grant_row g) (grant_row g) s.1 refl
            (λ row own. refl) (λ _ _ _. refl) in
        (
          done,
          record {
            same_agents = r.same_agents;
            same_grants = λ k.
                there_added (g.tenant_id, g.customer_user_id, g.agent_id) k _ _ _ (r.same_grants k)
                  (each k)
                  (contains-add m.entitlements (g.tenant_id, g.customer_user_id, g.agent_id) k);
          },
        )
    step-Refines (revoke t c a) s m r = (
      refl,
      record {
        same_agents = r.same_agents;
        same_grants = λ k.
            rw
              (
                remove_lem grant_key no_clash entitlements grant_laws (t, c, a) s.1 k,
                contains-discard,
              )
              (there_removed ((t, c, a) == k) _ _ (r.same_grants k));
      },
    )

    pub run_refined :
        (changes : List Change) (s : S × T) (m : AgentAccess)
        → Refines s m
        → ((run_rows changes s).0 ≡ ok tt) × Refines (run_rows changes s).1 (run_memory changes m)
    run_refined [] s m r = (refl, r)
    run_refined (change ∷ changes) s m r =
        let (done, next) = step-Refines change s m r in
        rw done (run_refined changes (step_rows change s).1 (step_memory change m) next)
