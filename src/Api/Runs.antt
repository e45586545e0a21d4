-- ===== src/Api/Runs.antt =====
-- `execute_run` of main.py. Spans are not modelled: they have no effect on what is returned,
-- raised or stored.
pub mod Admission
pub mod Metering
pub mod Failure
use Prim.Native.Nat.{max}
use Prim.Native.String.{◌++◌ as text_append}
use hosted_agents_saa_s_plat.Prelude.{ℕ, ◌/◌, ◌*◌, ℤ, pos, String, Bool, true, false, not}
use hosted_agents_saa_s_plat.Domain.Action.{Action, http, pure, raise_if, ◌>>=◌, ◌>>◌}
use hosted_agents_saa_s_plat.Domain.Models.{
  Datetime, Tenant, TenantStatus, pending, active, Plan, UsageEvent, ExecuteRunRequest,
  ExecuteRunResponse,
}
use hosted_agents_saa_s_plat.Text.{len}
use hosted_agents_saa_s_plat.Calendar.{month_text}
use hosted_agents_saa_s_plat.Policies.Quota.{QuotaPolicy, allow_request}
use hosted_agents_saa_s_plat.Policies.Auth.Jwks.{Reading}
use hosted_agents_saa_s_plat.Policies.Auth.Tenant.{TenantContext, authenticate}
use hosted_agents_saa_s_plat.Adapters.Storage.Usage.{FloatOps}
use hosted_agents_saa_s_plat.Api.Context.{AppContext}
use hosted_agents_saa_s_plat.Api.Tenants.{find_tenant}
use hosted_agents_saa_s_plat.Api.Agents.{usable}

pub record Headers : Type 0 where
  pub x_tenant_id : String
  pub x_customer_user_id : String
  pub x_api_key : String
  pub authorization : String

-- What one run reads from outside, in the order of the readings; `latency_ms` is the difference of
-- two readings of `perf_counter`.
pub record RunReadings : Type 0 where
  pub auth : Reading
  pub limited_at : Datetime
  pub month_at : Datetime
  pub request_id : String
  pub latency_ms : ℤ
  pub recorded_at : Datetime

-- `max(len(text) // 4, 1)`
abbrev pub tokens_of : String → ℕ
tokens_of text = max (len text / 4) 1

-- `max(len(request.message) // 4, 1) * 2`
abbrev pub estimated_tokens : String → ℤ
estimated_tokens message = pos (tokens_of message * 2)

abbrev pub is_active : TenantStatus → Bool
is_active active = true
is_active pending = false

abbrev pub rate_key : String → String → String
rate_key tenant_id agent_id = text_append tenant_id (text_append ":" agent_id)

abbrev pub quota_policy : Plan → QuotaPolicy
quota_policy plan = record {
  included_messages = plan.limits.monthly_messages;
  hard_token_cap = plan.limits.monthly_token_cap;
}

module _ {F : Type 0} ⦃o : FloatOps F⦄ where
  abbrev pub run_event : String → ExecuteRunRequest → RunReadings → String → UsageEvent F
  run_event tenant_id request readings output_text = record {
    tenant_id = tenant_id;
    agent_id = request.agent_id;
    request_id = readings.request_id;
    model = "provider-default";
    latency_ms = readings.latency_ms;
    tokens_in = pos (tokens_of request.message);
    tokens_out = pos (tokens_of output_text);
    cost_estimate = o.zero_float;
    created_at = readings.recorded_at;
  }

module _ {F S : Type 0} ⦃o : FloatOps F⦄ (ctx : AppContext F S) where
  -- what an authenticated caller has to pass before the agent is called
  unfoldable pub admit_caller :
      String → ExecuteRunRequest → RunReadings → TenantContext → Action S Tenant
  unfolding find_tenant
  admit_caller tenant_id request readings tenant_ctx = do
    tenant ← find_tenant ctx tenant_id
    raise_if (not (is_active tenant.status)) (http 409 "tenant is not active yet")
    found ← ctx.plans.get_plan tenant.plan
    plan ← usable found (http 409 "tenant plan is invalid or inactive")
    entitled ←
        ctx.agent_access.is_customer_entitled tenant_id tenant_ctx.customer_user_id request.agent_id
    raise_if (not entitled) (http 403 "customer is not entitled to run this agent")
    allowed ← ctx.allow readings.limited_at (rate_key tenant_ctx.tenant_id request.agent_id)
    raise_if (not allowed) (http 429 "tenant rate limit exceeded")
    usage ← ctx.usage.summarize_tenant_month tenant_id (month_text readings.month_at)
    raise_if
        (not (
          allow_request (quota_policy plan)
            (record { messages_used = usage.messages_used; tokens_used = usage.tokens_used })
            (estimated_tokens request.message)))
        (http 429 "tenant monthly quota exceeded")
    pure tenant

  -- everything before the agent is called: who runs, on which plan, within which limits
  unfoldable pub admit_run : String → ExecuteRunRequest → Headers → RunReadings → Action S Tenant
  unfolding admit_caller
  admit_run tenant_id request headers readings = do
    tenant_ctx ←
        authenticate ctx.settings (ctx.decode readings.auth) tenant_id headers.x_tenant_id
          headers.x_customer_user_id headers.x_api_key headers.authorization
    admit_caller tenant_id request readings tenant_ctx

  unfoldable pub execute_run :
      String → ExecuteRunRequest → Headers → RunReadings → Action S ExecuteRunResponse
  unfolding admit_run
  execute_run tenant_id request headers readings = do
    tenant ← admit_run tenant_id request headers readings
    output_text ← ctx.gateway.execute tenant_id request.agent_id request.message
    ctx.usage.record_event (run_event tenant_id request readings output_text)
    pure (record {
      tenant_id = tenant_id;
      request_id = readings.request_id;
      output_text = output_text;
    })
