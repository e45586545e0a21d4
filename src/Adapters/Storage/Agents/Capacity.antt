-- ===== src/Adapters/Storage/Agents/Capacity.antt =====
-- How many agents of a tenant are active after one of them is written.
use hosted_agents_saa_s_plat.Prelude.{
  string_eq, pair_eq, string_eq_iff, ==_refl, ℕ, ◌+◌, String, Bool, ◌&&◌, not, ◌≡◌, refl, sym, ap,
  sym, ◌∙◌, [], ◌∷◌, ◌==◌, All, filter, length, length-filter-sorted, arith, Bool-cases, inl, inr,
  if◌then◌else◌,
}
use hosted_agents_saa_s_plat.Collections.Dict.{Dict, values, put}
use hosted_agents_saa_s_plat.Collections.Dict.Distinct.{
  IsDistinct, put-IsDistinct, others, length-filter-put,
}
use hosted_agents_saa_s_plat.Domain.Models.{TenantAgent}
use hosted_agents_saa_s_plat.Adapters.Storage.Agents.{
  AgentAccess, upsert_tenant_agent, by_agent_id, of_tenant, list_tenant_agents,
}

abbrev pub Agents : Type 0
Agents = Dict (String × String) TenantAgent

abbrev IsOwn : (String × String) × TenantAgent → Type 0
IsOwn x = x.1.agent_id ≡ x.0.1

-- Each agent is stored once, under its own id.
pub record IsKeyed (s : AgentAccess) : Type 0 where
  pub distinct : IsDistinct s.tenant_agents
  pub own : All IsOwn s.tenant_agents

IsOwn-put :
    (d : Agents) (agent : TenantAgent)
    → All IsOwn d
    → All IsOwn (put d (agent.tenant_id, agent.agent_id) agent)
unfolding put
IsOwn-put [] agent h = (refl, tt)
IsOwn-put (x ∷ d) agent h = elim (Bool-cases (x.0 == (agent.tenant_id, agent.agent_id))) [
  | inl here ↦
      rw here (ap (λ (k : String × String). k.1) (sym ((pair_eq.equals_iff _ _).0 here)), h.1)
  | inr later ↦ rw later (h.0, IsOwn-put d agent h.1)
]

-- A write of an agent keeps the catalog keyed.
pub upsert-IsKeyed :
    (agent : TenantAgent) (s : AgentAccess) → IsKeyed s → IsKeyed (upsert_tenant_agent agent s)
unfolding upsert_tenant_agent
upsert-IsKeyed agent s v = record {
  distinct = put-IsDistinct s.tenant_agents (agent.tenant_id, agent.agent_id) agent v.distinct;
  own = IsOwn-put s.tenant_agents agent v.own;
}

-- the agents of a tenant that pass a test
abbrev pub count_agents : (TenantAgent → Bool) → String → AgentAccess → ℕ
count_agents p tenant_id s = length (filter p (list_tenant_agents tenant_id s))

abbrev pub is_active : TenantAgent → Bool
is_active agent = agent.active

abbrev pub active_besides : String → TenantAgent → Bool
active_besides agent_id agent = agent.active && not (agent.agent_id == agent_id)

abbrev passes : (TenantAgent → Bool) → String → (String × String) × TenantAgent → Bool
passes p tenant_id x = of_tenant tenant_id x && p x.1

length-filter-values :
    (p : TenantAgent → Bool) (t : String) (d : Agents)
    → length (filter p (values (filter (of_tenant t) d))) ≡ length (filter (passes p t) d)
unfolding values
length-filter-values p t [] = refl
length-filter-values p t (x ∷ d) = ground (arith, length-filter-values p t d)

count_agents_lem :
    (p : TenantAgent → Bool) (t : String) (s : AgentAccess)
    → count_agents p t s ≡ length (filter (passes p t) s.tenant_agents)
unfolding list_tenant_agents
count_agents_lem p t s =
    length-filter-sorted by_agent_id p (values (filter (of_tenant t) s.tenant_agents))
    ∙ length-filter-values p t s.tenant_agents

others-eq-besides :
    (t a : String) (d : Agents)
    → All IsOwn d
    → length (others (passes is_active t) (t, a) d)
      ≡ length (filter (passes (active_besides a) t) d)
others-eq-besides t a [] h = refl
others-eq-besides t a (x ∷ d) h =
    ground (arith, others-eq-besides t a d h.1, h.0, string_eq_iff x.0.0 t)

-- If each agent is stored once, under its own id, the active agents of the tenant after a write are
-- the other active ones and, if it is active, the one that was written.
pub count_agents-upsert :
    (agent : TenantAgent) (s : AgentAccess)
    → IsKeyed s
    → count_agents is_active agent.tenant_id (upsert_tenant_agent agent s)
      ≡ count_agents (active_besides agent.agent_id) agent.tenant_id s
        + (if agent.active then 1 else 0)
unfolding upsert_tenant_agent
count_agents-upsert agent s v =
    let t = agent.tenant_id in
    let a = agent.agent_id in
    let d = s.tenant_agents in
    rw (count_agents_lem is_active t (upsert_tenant_agent agent s)) (
      rw (count_agents_lem (active_besides a) t s) (
        rw (← others-eq-besides t a d v.own) (
          length-filter-put (passes is_active t) d (t, a) agent v.distinct
            (λ k e. rw ((pair_eq.equals_iff k (t, a)).0 e) refl)
          ∙ rw (==_refl t) refl)))
