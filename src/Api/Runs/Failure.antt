-- ===== src/Api/Runs/Failure.antt =====
-- A run of main.py that fails, over the in-memory adapters.
use hosted_agents_saa_s_plat.Prelude.{
  ◌≡◌, refl, sym, ap, ◌∙◌, String, Bool, true, false, not, Option, none, some, List, inl, inr,
  if◌then◌else◌,
}
use hosted_agents_saa_s_plat.Domain.Action.{
  Action, Raised, Outcome, ok, err, http, continue, pure, raise, ◌>>=◌,
}
use hosted_agents_saa_s_plat.Domain.Action.Keeps.{continue_keeps, raise_if_keeps, or_raise_keeps}
use hosted_agents_saa_s_plat.Domain.Models.{
  Tenant, Plan, ExecuteRunRequest, ExecuteRunResponse, UsageEvent,
}
use hosted_agents_saa_s_plat.Domain.Interfaces.{AgentGateway}
use hosted_agents_saa_s_plat.Config.{Settings}
use hosted_agents_saa_s_plat.Policies.Auth.Jwks.{Jwt}
use hosted_agents_saa_s_plat.Policies.Auth.Tenant.{TenantContext, authenticate}
use hosted_agents_saa_s_plat.Policies.Auth.Tenant.State.{authenticate_state}
use hosted_agents_saa_s_plat.Adapters.Storage.Catalog.{get_tenant, get_plan}
use hosted_agents_saa_s_plat.Adapters.Storage.Agents.{is_customer_entitled}
use hosted_agents_saa_s_plat.Calendar.{month_text}
use hosted_agents_saa_s_plat.Policies.Quota.{allow_request}
use hosted_agents_saa_s_plat.Policies.RateLimit.{allow}
use hosted_agents_saa_s_plat.Adapters.Storage.Usage.{FloatOps, summarize_tenant_month}
use hosted_agents_saa_s_plat.Api.Context.{World, AppContext}
use hosted_agents_saa_s_plat.Api.Tenants.{find_tenant}
use hosted_agents_saa_s_plat.Api.Agents.{usable}
use hosted_agents_saa_s_plat.Api.Runs.{
  Headers, RunReadings, quota_policy, estimated_tokens, is_active, rate_key, admit_caller,
  admit_run, execute_run,
}
use hosted_agents_saa_s_plat.Api.Runs.Admission.{context, counted}

module _ {F G Key : Type 0} ⦃o : FloatOps F⦄ (settings : Settings) (jwt : Jwt Key)
    (gateway : AgentGateway G) where
  abbrev ctx : AppContext F (World F G)
  ctx = context settings jwt gateway

  abbrev events_of : World F G → List (UsageEvent F)
  events_of w = w.events

  usable_if_keeps :
      (on : Bool) (plan : Plan) (e : Raised) (f : Plan → Action (World F G) Tenant) (w : World F G)
      (v : List (UsageEvent F))
      → w.events ≡ v
      → (f plan w).1.events ≡ v
      → (((if on then pure plan else raise e) >>= f) w).1.events ≡ v
  usable_if_keeps true plan e f w v h k = k
  usable_if_keeps false plan e f w v h k = h

  usable_keeps :
      (found : Option Plan) (e : Raised) (f : Plan → Action (World F G) Tenant) (w : World F G)
      (v : List (UsageEvent F))
      → w.events ≡ v
      → ((plan : Plan) → (f plan w).1.events ≡ v)
      → ((usable found e >>= f) w).1.events ≡ v
  usable_keeps none e f w v h k = h
  usable_keeps (some plan) e f w v h k = usable_if_keeps plan.active plan e f w v h (k plan)

  admit_caller_keeps :
      (tenant_id : String) (request : ExecuteRunRequest) (r : RunReadings) (caller : TenantContext)
      (w : World F G)
      → (admit_caller ctx tenant_id request r caller w).1.events ≡ w.events
  unfolding admit_caller find_tenant
  admit_caller_keeps tenant_id request r caller w =
      let events = w.events in
      let granted = (allow r.limited_at (rate_key caller.tenant_id request.agent_id) w.limiter).0 in
      let w1 = counted settings jwt gateway caller.tenant_id request r w in
      let usage = summarize_tenant_month tenant_id (month_text r.month_at) events in
      or_raise_keeps events_of w events refl (get_tenant tenant_id w.tenants) _ _ (λ tenant.
        raise_if_keeps events_of w events refl (not (is_active tenant.status)) _ _ (
          usable_keeps (get_plan tenant.plan w.plans) _ _ w events refl (λ plan.
            raise_if_keeps events_of w events refl
              (not
                (is_customer_entitled tenant_id caller.customer_user_id request.agent_id w.agents))
              _ _
              (raise_if_keeps events_of w1 events refl (not granted) _ _ (
                raise_if_keeps events_of w1 events refl
                  (not (
                    allow_request (quota_policy plan)
                      (record {
                        messages_used = usage.messages_used;
                        tokens_used = usage.tokens_used;
                      })
                      (estimated_tokens request.message)))
                  (http 429 "tenant monthly quota exceeded") (λ _. pure tenant) refl)))))

  admit_run_keeps :
      (tenant_id : String) (request : ExecuteRunRequest) (h : Headers) (r : RunReadings)
      (w : World F G)
      → (admit_run ctx tenant_id request h r w).1.events ≡ w.events
  unfolding admit_run
  admit_run_keeps tenant_id request h r w =
      let authentication =
        authenticate settings (ctx.decode r.auth) tenant_id h.x_tenant_id h.x_customer_user_id
          h.x_api_key h.authorization w in
      let same : authentication.1.events ≡ w.events =
        elim (authenticate_state settings (ctx.decode r.auth) tenant_id h.x_tenant_id
          h.x_customer_user_id h.x_api_key h.authorization w) [
            | inl same ↦ ap events_of same
            | inr decoded ↦ ap events_of decoded
          ] in
      continue_keeps events_of authentication.1 w.events same authentication.0 _
        (λ caller. admit_caller_keeps tenant_id request r caller authentication.1 ∙ same)

  last_steps :
      (run : Outcome String) (f : String → Action (World F G) ExecuteRunResponse) (w w' : World F G)
      (e : Raised)
      → ((out : String) → (answer : ExecuteRunResponse) × ((f out w).0 ≡ ok answer))
      → continue run f w ≡ (err e, w')
      → w'.events ≡ w.events
  last_steps (ok out) f w w' e answers h =
      let (answer, answered) = answers out in
      let failed : (f out w).0 ≡ err e =
        ap (λ (x : Outcome ExecuteRunResponse × World F G). x.0) h in
      absurd (cc)
  last_steps (err raised) f w w' e answers h =
      sym (ap (λ (x : Outcome ExecuteRunResponse × World F G). x.1.events) h)

  after_admission :
      (admitted : Outcome Tenant) (f : Tenant → Action (World F G) ExecuteRunResponse)
      (w w' : World F G) (e : Raised)
      → ((t : Tenant) → f t w ≡ (err e, w') → w'.events ≡ w.events)
      → continue admitted f w ≡ (err e, w')
      → w'.events ≡ w.events
  after_admission (ok t) f w w' e k h = k t h
  after_admission (err raised) f w w' e k h =
      sym (ap (λ (x : Outcome ExecuteRunResponse × World F G). x.1.events) h)

  -- A run that fails, for whatever reason, records nothing.
  pub failed_run_unmetered :
      (tenant_id : String) (request : ExecuteRunRequest) (headers : Headers)
      (readings : RunReadings) (w w' : World F G) (e : Raised)
      → execute_run ctx tenant_id request headers readings w ≡ (err e, w')
      → w'.events ≡ w.events
  unfolding execute_run
  failed_run_unmetered tenant_id request headers readings w w' e h =
      let admission = admit_run ctx tenant_id request headers readings w in
      after_admission admission.0 _ admission.1 w' e
        (λ t h1.
          last_steps (ctx.gateway.execute tenant_id request.agent_id request.message admission.1).0
            _ _ w' e (λ out. (_, refl)) h1)
        h
      ∙ admit_run_keeps tenant_id request headers readings w
