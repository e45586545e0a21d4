-- ===== src/Api/Agents/Limit.antt =====
-- The agents that a tenant may have active, over the in-memory adapters.
use hosted_agents_saa_s_plat.Prelude.{
  string_eq, String, Bool, true, false, ◌≡◌, ap, some, ℤ, pos, ◌≤ℤ◌, leb_ℤ, ℕ, ◌+◌, arith, [], ◌∷◌,
}
use mathlib.Core.Path.{subst}
use hosted_agents_saa_s_plat.Domain.Action.{Action, Outcome, ok, ◌>>=◌}
use hosted_agents_saa_s_plat.Domain.Action.Success.{>>=_from, raise_if_ok, or_raise_ok}
use hosted_agents_saa_s_plat.Domain.Models.{
  Datetime, Tenant, Plan, TenantAgent, UpsertTenantAgentRequest,
}
use hosted_agents_saa_s_plat.Domain.Interfaces.{AgentGateway}
use hosted_agents_saa_s_plat.Config.{Settings}
use hosted_agents_saa_s_plat.Policies.Auth.Jwks.{Jwt, Reading}
use hosted_agents_saa_s_plat.Adapters.Storage.Agents
use hosted_agents_saa_s_plat.Adapters.Storage.Agents.{AgentAccess}
use hosted_agents_saa_s_plat.Adapters.Storage.Agents.Capacity.{
  IsKeyed, count_agents, is_active, active_besides, count_agents-upsert,
}
use hosted_agents_saa_s_plat.Adapters.Storage.Catalog.{get_tenant, get_plan}
use hosted_agents_saa_s_plat.Adapters.Storage.Usage.{FloatOps}
use hosted_agents_saa_s_plat.Api.Context.{World, AppContext, memory_context, require_admin}
use hosted_agents_saa_s_plat.Api.Tenants.{find_tenant}
use hosted_agents_saa_s_plat.Policies.Auth.Admin.State.{authorize_admin_state}
use hosted_agents_saa_s_plat.Api.Agents.Usable.{usable_ok}
use hosted_agents_saa_s_plat.Api.Agents.{agent_of, check_capacity, upsert_tenant_agent}

fits : (n : ℕ) (limit : ℤ) → leb_ℤ limit (pos n) ≡ false → pos (n + 1) ≤ℤ limit
fits n limit h = ground arith

-- an active agent, where the others leave room for it
active-upsert :
    (agent : TenantAgent) (s : AgentAccess) (limit : ℤ)
    → IsKeyed s
    → agent.active ≡ true
    → leb_ℤ limit (pos (count_agents (active_besides agent.agent_id) agent.tenant_id s)) ≡ false
    → pos (count_agents is_active agent.tenant_id (Agents.upsert_tenant_agent agent s)) ≤ℤ limit
active-upsert agent s limit keyed on h =
    rw (count_agents-upsert agent s keyed) (rw on (fits _ limit h))

module _ {F G Key : Type 0} ⦃o : FloatOps F⦄ (settings : Settings) (jwt : Jwt Key)
    (gateway : AgentGateway G) where
  abbrev ctx : AppContext F (World F G)
  ctx = memory_context settings jwt gateway

  -- the test of the capacity, passed
  room :
      (plan : Plan) (t a : String) (on : Bool) (w w' : World F G) (x : TenantAgent)
      (f : Unit {0} → Action (World F G) TenantAgent)
      → (check_capacity ctx plan t a on >>= f) w ≡ (ok x, w')
      → ((on ≡ true
          → leb_ℤ plan.limits.max_agents (pos (count_agents (active_besides a) t w.agents))
            ≡ false))
        × (f tt w ≡ (ok x, w'))
  unfolding check_capacity
  room plan t a false w w' x f h = ((λ e. absurd (cc)), h)
  room plan t a true w w' x f h =
      let full = leb_ℤ plan.limits.max_agents (pos (count_agents (active_besides a) t w.agents)) in
      let (free, rest) = raise_if_ok full _ f w w' x h in ((λ e. free), rest)

  -- If each agent is stored once, under its own id, and the write of an active agent succeeds, the
  -- tenant is on a stored plan and then has not more active agents than the plan allows.
  pub upsert_tenant_agent_within :
      (r : Reading) (now : Datetime) (t : String) (request : UpsertTenantAgentRequest)
      (authorization : String) (w w' : World F G) (agent : TenantAgent)
      → IsKeyed w.agents
      → request.active ≡ true
      → upsert_tenant_agent ctx r now t request authorization w ≡ (ok agent, w')
      → (tenant : Tenant) × (plan : Plan) × (get_tenant t w.tenants ≡ some tenant)
        × (get_plan tenant.plan w.plans ≡ some plan)
        × (pos (count_agents is_active t w'.agents) ≤ℤ plan.limits.max_agents)
  unfolding upsert_tenant_agent find_tenant
  upsert_tenant_agent_within r now t request authorization w w' agent keyed on h =
      let (p, admitted, h1) =
        >>=_from
          (require_admin ctx r authorization ("platform_admin" ∷ "tenant_admin" ∷ [])
            ("tenant.agents.write" ∷ []) (some t))
          _ w (ctx.decode r authorization w).1 w' agent
          (authorize_admin_state (ctx.decode r) authorization _ _ _ w) h in
      let w1 = (ctx.decode r authorization w).1 in
      let (tenant, stored, h2) = or_raise_ok (get_tenant t w.tenants) _ _ w1 w' agent h1 in
      let (plan, plan_stored, plan_active, h3) =
        usable_ok (get_plan tenant.plan w.plans) _ _ w1 w' agent h2 in
      let existing = Agents.get_tenant_agent t request.agent_id w.agents in
      let (free, h4) = room plan t request.agent_id request.active w1 w' agent _ h3 in
      let written = agent_of t request existing now in
      let after : Agents.upsert_tenant_agent written w.agents ≡ w'.agents =
        ap (λ (x : Outcome TenantAgent × World F G). x.1.agents) h4 in
      (
        tenant,
        plan,
        stored,
        plan_stored,
        subst (λ x. pos (count_agents is_active t x) ≤ℤ plan.limits.max_agents) after
            (active-upsert written w.agents plan.limits.max_agents keyed on (free on)),
      )
