-- ===== src/Api/Runs/Metering.antt =====
-- What a run of main.py records, over the in-memory adapters.
use hosted_agents_saa_s_plat.Prelude.{
  string_eq, ==_refl, String, Bool, ◌≡◌, sym, ap, ◌∙◌, some, List, [], ◌∷◌, ◌++◌, ◌==◌, pos, ◌+ℤ◌,
  ◌≤ℤ◌, int_laws, length, filter, arith, ◌+◌, if◌then◌else◌, ◌&&◌,
}
use hosted_agents_saa_s_plat.Domain.Action.{Outcome, ok}
use hosted_agents_saa_s_plat.Domain.Action.Success.{>>=_ok}
use hosted_agents_saa_s_plat.Domain.Models.{
  Tenant, Plan, ExecuteRunRequest, ExecuteRunResponse, UsageEvent,
}
use hosted_agents_saa_s_plat.Domain.Interfaces.{AgentGateway}
use hosted_agents_saa_s_plat.Calendar.{month_text}
use hosted_agents_saa_s_plat.Config.{Settings}
use hosted_agents_saa_s_plat.Policies.Quota.{allow_request_iff}
use hosted_agents_saa_s_plat.Policies.Auth.Jwks.{Jwt}
use hosted_agents_saa_s_plat.Adapters.Storage.Catalog.{get_tenant, get_plan}
use hosted_agents_saa_s_plat.Adapters.Storage.Usage.{
  FloatOps, counted, record_event, summarize_tenant_month,
}
use hosted_agents_saa_s_plat.Api.Context.{World}
use hosted_agents_saa_s_plat.Api.Runs.{Headers, RunReadings, run_event, admit_run, execute_run}
use hosted_agents_saa_s_plat.Api.Runs.Admission.{Allowed, context, admit_run_ok}

length-filter-append_one :
    {A : Type 0} (p : A → Bool) (xs : List A) (x : A)
    → length (filter p (xs ++ x ∷ [])) ≡ length (filter p xs) + (if p x then 1 else 0)
length-filter-append_one p [] x = ground arith
length-filter-append_one p (y ∷ xs) x = ground (arith, length-filter-append_one p xs x)

module _ {F : Type 0} ⦃o : FloatOps F⦄ where
  -- one more event counts for its tenant and month, and for no other
  pub messages-record :
      (t month : String) (e : UsageEvent F) (events : List (UsageEvent F))
      → (summarize_tenant_month t month (record_event e events)).messages_used
        ≡ (summarize_tenant_month t month events).messages_used
          +ℤ pos (if counted t month e then 1 else 0)
  unfolding summarize_tenant_month record_event
  messages-record t month e events =
      rw (length-filter-append_one (counted t month) events e) (omega int_laws)

module _ {F G Key : Type 0} ⦃o : FloatOps F⦄ (settings : Settings) (jwt : Jwt Key)
    (gateway : AgentGateway G) where
  execute_run_steps :
      (tenant_id : String) (request : ExecuteRunRequest) (headers : Headers)
      (readings : RunReadings) (w w' : World F G) (response : ExecuteRunResponse)
      → execute_run (context settings jwt gateway) tenant_id request headers readings w
        ≡ (ok response, w')
      → (tenant : Tenant) × Allowed settings jwt gateway tenant_id headers.x_customer_user_id
          request readings w tenant
        × (w'.events
            ≡ record_event (run_event tenant_id request readings response.output_text) w.events)
        × (response.tenant_id ≡ tenant_id)
  unfolding execute_run
  execute_run_steps tenant_id request headers readings w w' response h =
      let (tenant, admitted, h1) =
        >>=_ok (admit_run (context settings jwt gateway) tenant_id request headers readings) _ w w'
          response h in
      let (own, shown, allowed, (cache, after)) =
        admit_run_ok settings jwt gateway tenant_id request headers readings w _ tenant (
          ap
            (λ r. (
              r,
              (admit_run (context settings jwt gateway) tenant_id request headers readings w).1,
            ))
            admitted) in
      let (output_text, ran, h2) =
        >>=_ok
          ((context settings jwt gateway).gateway.execute tenant_id request.agent_id
            request.message)
          _ _ w' response h1 in
      let w1 = (admit_run (context settings jwt gateway) tenant_id request headers readings w).1 in
      let answer : ExecuteRunResponse = record {
        tenant_id = tenant_id;
        request_id = readings.request_id;
        output_text = output_text;
      } in
      let same : answer ≡ response = cc in
      let recorded : record_event (run_event tenant_id request readings output_text) w1.events
          ≡ w'.events =
        ap (λ (x : Outcome ExecuteRunResponse × World F G). x.1.events) h2 in
      (
        tenant,
        allowed,
        sym recorded
            ∙ ap (record_event (run_event tenant_id request readings output_text))
                (ap (λ (x : World F G). x.events) after)
            ∙ ap
                (λ (x : ExecuteRunResponse).
                  record_event (run_event tenant_id request readings x.output_text) w.events)
                same,
        ap (λ (x : ExecuteRunResponse). x.tenant_id) (sym same),
      )

  -- A run that succeeds records one event: the tenant of the path has one message more in the month
  -- in which the event is recorded, and for any other tenant or month the number is the same.
  pub execute_run_metered :
      (tenant_id : String) (request : ExecuteRunRequest) (headers : Headers)
      (readings : RunReadings) (w w' : World F G) (response : ExecuteRunResponse) (t month : String)
      → execute_run (context settings jwt gateway) tenant_id request headers readings w
        ≡ (ok response, w')
      → (summarize_tenant_month t month w'.events).messages_used
        ≡ (summarize_tenant_month t month w.events).messages_used
          +ℤ pos (if tenant_id == t && month_text readings.recorded_at == month then 1 else 0)
  execute_run_metered tenant_id request headers readings w w' response t month h =
      let (tenant, allowed, recorded, answered) =
        execute_run_steps tenant_id request headers readings w w' response h in
      rw recorded (messages-record t month _ w.events)

  -- When a run succeeds within one month, the tenant is on a stored plan and has not more messages
  -- in that month than the plan includes.
  pub execute_run_within :
      (tenant_id : String) (request : ExecuteRunRequest) (headers : Headers)
      (readings : RunReadings) (w w' : World F G) (response : ExecuteRunResponse)
      → execute_run (context settings jwt gateway) tenant_id request headers readings w
        ≡ (ok response, w')
      → month_text readings.recorded_at ≡ month_text readings.month_at
      → (tenant : Tenant) × (plan : Plan) × (get_tenant tenant_id w.tenants ≡ some tenant)
        × (get_plan tenant.plan w.plans ≡ some plan)
        × ((summarize_tenant_month tenant_id (month_text readings.month_at) w'.events).messages_used
            ≤ℤ plan.limits.monthly_messages)
  execute_run_within tenant_id request headers readings w w' response h same_month =
      let (tenant, allowed, recorded, answered) =
        execute_run_steps tenant_id request headers readings w w' response h in
      let month = month_text readings.month_at in
      let more =
        execute_run_metered tenant_id request headers readings w w' response tenant_id month h in
      let more' : (summarize_tenant_month tenant_id month w'.events).messages_used
          ≡ (summarize_tenant_month tenant_id month w.events).messages_used +ℤ pos 1 =
        rw (same_month, ==_refl tenant_id, ==_refl month) at more in
      (
        tenant,
        allowed.plan,
        allowed.stored,
        allowed.plan_stored,
        rw more' ((allow_request_iff _ _ _).0 allowed.within_quota).0,
      )
