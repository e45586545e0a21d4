-- ===== src/Api/Runs/Admission.antt =====
-- What a run that is admitted by main.py has shown, over the in-memory adapters.
use hosted_agents_saa_s_plat.Prelude.{
  string_eq, String, Bool, true, false, not, ◌≡◌, refl, sym, ap, ◌∙◌, inl, inr, some, arith,
}
use mathlib.Core.Path.{subst}
use hosted_agents_saa_s_plat.Domain.Action.{Outcome, ok}
use hosted_agents_saa_s_plat.Domain.Action.Success.{>>=_ok, raise_if_ok, or_raise_ok}
use hosted_agents_saa_s_plat.Domain.Models.{
  Tenant, TenantStatus, pending, active, Plan, ExecuteRunRequest,
}
use hosted_agents_saa_s_plat.Domain.Interfaces.{AgentGateway}
use hosted_agents_saa_s_plat.Calendar.{month_text}
use hosted_agents_saa_s_plat.Config.{Settings}
use hosted_agents_saa_s_plat.Policies.Quota.{allow_request}
use hosted_agents_saa_s_plat.Policies.RateLimit.{allow}
use hosted_agents_saa_s_plat.Policies.Auth.Jwks.{Jwt, JwksCache}
use hosted_agents_saa_s_plat.Policies.Auth.Tenant.{TenantContext, authenticate}
use hosted_agents_saa_s_plat.Policies.Auth.Tenant.Credentials.{Shown, named, authenticate_ok}
use hosted_agents_saa_s_plat.Policies.Auth.Tenant.State.{authenticate_state}
use hosted_agents_saa_s_plat.Adapters.Storage.Catalog.{get_tenant, get_plan}
use hosted_agents_saa_s_plat.Adapters.Storage.Agents.{is_customer_entitled}
use hosted_agents_saa_s_plat.Adapters.Storage.Usage.{FloatOps, summarize_tenant_month}
use hosted_agents_saa_s_plat.Api.Context.{World, AppContext, memory_context}
use hosted_agents_saa_s_plat.Api.Tenants.{find_tenant}
use hosted_agents_saa_s_plat.Api.Agents.Usable.{usable_ok}
use hosted_agents_saa_s_plat.Api.Runs.{
  Headers, RunReadings, is_active, rate_key, quota_policy, estimated_tokens, admit_caller,
  admit_run,
}

unnegate : (b : Bool) → not b ≡ false → b ≡ true
unnegate b h = ground arith

active_status : (status : TenantStatus) → is_active status ≡ true → status ≡ active
active_status active h = refl
active_status pending h = absurd (cc)

module _ {F G Key : Type 0} ⦃o : FloatOps F⦄ (settings : Settings) (jwt : Jwt Key)
    (gateway : AgentGateway G) where
  abbrev pub context : AppContext F (World F G)
  context = memory_context settings jwt gateway

  -- an active tenant on an active plan, whose customer may run the agent, within the limits of the
  -- rate and of the month as they are before the run
  pub record Allowed (tenant_id customer_user_id : String) (request : ExecuteRunRequest)
      (readings : RunReadings) (w : World F G) (tenant : Tenant) : Type 0 where
    pub stored : get_tenant tenant_id w.tenants ≡ some tenant
    pub provisioned : tenant.status ≡ active
    pub plan : Plan
    pub plan_stored : get_plan tenant.plan w.plans ≡ some plan
    pub plan_active : plan.active ≡ true
    pub entitled : is_customer_entitled tenant_id customer_user_id request.agent_id w.agents ≡ true
    pub within_rate :
        (allow readings.limited_at (rate_key tenant_id request.agent_id) w.limiter).0 ≡ true
    pub within_quota :
        let usage = summarize_tenant_month tenant_id (month_text readings.month_at) w.events in
        allow_request
          (quota_policy plan)
          (record { messages_used = usage.messages_used; tokens_used = usage.tokens_used })
          (estimated_tokens request.message)
        ≡ true

  -- the counters of the limiter after the run was counted
  abbrev pub counted : String → ExecuteRunRequest → RunReadings → World F G → World F G
  counted tenant_id request readings w = record w {
    limiter = (allow readings.limited_at (rate_key tenant_id request.agent_id) w.limiter).1;
  }

  caller_Allowed :
      (tenant_id customer_user_id : String) (request : ExecuteRunRequest) (readings : RunReadings)
      (w w' : World F G) (tenant : Tenant)
      → admit_caller context tenant_id request readings (named tenant_id customer_user_id) w
        ≡ (ok tenant, w')
      → Allowed tenant_id customer_user_id request readings w tenant
        × (w' ≡ counted tenant_id request readings w)
  unfolding admit_caller find_tenant
  caller_Allowed tenant_id customer_user_id request readings w w' tenant h =
      let (t, stored, h1) = or_raise_ok (get_tenant tenant_id w.tenants) _ _ w w' tenant h in
      let (on, h2) = raise_if_ok (not (is_active t.status)) _ _ w w' tenant h1 in
      let (plan, plan_stored, plan_active, h3) =
        usable_ok (get_plan t.plan w.plans) _ _ w w' tenant h2 in
      let (entitled, h4) =
        raise_if_ok
          (not (is_customer_entitled tenant_id customer_user_id request.agent_id w.agents)) _ _ w w'
          tenant h3 in
      let (allowed, h5) =
        raise_if_ok
          (not (allow readings.limited_at (rate_key tenant_id request.agent_id) w.limiter).0) _ _ _
          w' tenant h4 in
      let usage = summarize_tenant_month tenant_id (month_text readings.month_at) w.events in
      let allows =
        allow_request (quota_policy plan)
          (record { messages_used = usage.messages_used; tokens_used = usage.tokens_used })
          (estimated_tokens request.message) in
      let (quota, h6) = raise_if_ok (not allows) _ _ _ w' tenant h5 in
      let same : t ≡ tenant = cc in
      let after : counted tenant_id request readings w ≡ w' =
        ap (λ (x : Outcome Tenant × World F G). x.1) h6 in
      (
        subst (λ x. Allowed tenant_id customer_user_id request readings w x) same
            (record {
              stored = stored;
              provisioned = active_status t.status (unnegate (is_active t.status) on);
              plan = plan;
              plan_stored = plan_stored;
              plan_active = plan_active;
              entitled = unnegate _ entitled;
              within_rate = unnegate _ allowed;
              within_quota = unnegate _ quota;
            }),
        sym after,
      )

  -- only the cache of JWKS documents may change while the caller is authenticated
  abbrev authenticating :
      String → Headers → RunReadings → World F G → Outcome TenantContext × World F G
  authenticating tenant_id headers readings w =
      authenticate settings (context.decode readings.auth) tenant_id headers.x_tenant_id
        headers.x_customer_user_id headers.x_api_key headers.authorization w

  only_cache :
      (tenant_id : String) (headers : Headers) (readings : RunReadings) (w : World F G)
      → (cache : JwksCache) × ((authenticating tenant_id headers readings w).1
          ≡ record w { jwks = cache })
  only_cache tenant_id headers readings w =
      elim (authenticate_state settings (context.decode readings.auth) tenant_id headers.x_tenant_id
        headers.x_customer_user_id headers.x_api_key headers.authorization w) [
          | inl same ↦ (w.jwks, same)
          | inr decoded ↦ (_, decoded)
        ]

  pub admit_run_ok :
      (tenant_id : String) (request : ExecuteRunRequest) (headers : Headers)
      (readings : RunReadings) (w w' : World F G) (tenant : Tenant)
      → admit_run context tenant_id request headers readings w ≡ (ok tenant, w')
      → (tenant_id ≡ headers.x_tenant_id)
        × Shown settings
            (context.decode readings.auth)
            headers.x_tenant_id
            headers.x_customer_user_id
            headers.x_api_key
            headers.authorization
            w
        × Allowed tenant_id headers.x_customer_user_id request readings w tenant
        × ((cache : JwksCache) × (w'
              ≡ record (counted tenant_id request readings w) { jwks = cache }))
  unfolding admit_run
  admit_run_ok tenant_id request headers readings w w' tenant h =
      let (caller, known, rest) =
        >>=_ok (authenticating tenant_id headers readings) _ w w' tenant h in
      let (cache, state) = only_cache tenant_id headers readings w in
      let (own, given, shown, who) =
        authenticate_ok settings (context.decode readings.auth) tenant_id headers.x_tenant_id
          headers.x_customer_user_id headers.x_api_key headers.authorization caller w
          (authenticating tenant_id headers readings w).1
          (ap (λ r. (r, (authenticating tenant_id headers readings w).1)) known) in
      let (allowed, after) =
        caller_Allowed tenant_id headers.x_customer_user_id request readings
          (record w { jwks = cache }) w' tenant
          (subst
            (λ x.
              admit_caller context tenant_id request readings x (record w { jwks = cache })
              ≡ (ok tenant, w'))
            (who ∙ ap (λ x. named x headers.x_customer_user_id) (sym own))
            (subst (λ y. admit_caller context tenant_id request readings caller y ≡ (ok tenant, w'))
              state rest)) in
      (
        own,
        shown,
        record {
          stored = allowed.stored;
          provisioned = allowed.provisioned;
          plan = allowed.plan;
          plan_stored = allowed.plan_stored;
          plan_active = allowed.plan_active;
          entitled = allowed.entitled;
          within_rate = allowed.within_rate;
          within_quota = allowed.within_quota;
        },
        (cache, after),
      )
