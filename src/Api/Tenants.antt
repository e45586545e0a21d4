-- ===== src/Api/Tenants.antt =====
-- The handlers of tenants, of their plan and usage, and of the provisioning job.
pub mod Creation
use Prim.Native.String.{◌++◌ as text_append}
use hosted_agents_saa_s_plat.Prelude.{String, Bool, true, not, Option, none, some, List, [], ◌∷◌}
use hosted_agents_saa_s_plat.Domain.Action.{
  Action, Raised, http, pure, raise_if, lift, or_raise, ◌>>=◌, ◌>>◌,
}
use hosted_agents_saa_s_plat.Domain.Models.{
  Datetime, Tenant, Plan, CreateTenantRequest, CreateTenantResponse, UpdateTenantPlanRequest,
  TenantUsageSummary, TenantBillingRecord, new_tenant, new_job,
}
use hosted_agents_saa_s_plat.Policies.Auth.Jwks.{Reading}
use hosted_agents_saa_s_plat.Provisioning.Worker.{process_next_job}
use hosted_agents_saa_s_plat.Api.Context.{AppContext, require_admin}
use hosted_agents_saa_s_plat.Api.Month.{normalize_month}

-- `selected_plan is None or not selected_plan.active`
abbrev pub is_unusable : Option Plan → Bool
is_unusable none = true
is_unusable (some plan) = not plan.active

abbrev pub bootstrap_key : String → String
bootstrap_key tenant_id = text_append tenant_id ":bootstrap"

module _ {F S : Type 0} (ctx : AppContext F S) where
  -- `tenant_id` and `job_id` are the two uuids; the tenant is created at `now`, and the job reads the clock twice
  unfoldable pub create_tenant :
      CreateTenantRequest
      → String
      → String
      → Datetime
      → Datetime
      → Datetime
      → Action S CreateTenantResponse
  create_tenant request tenant_id job_id now created_at available_at = do
    selected_plan ← ctx.plans.get_plan request.plan
    raise_if (is_unusable selected_plan) (http 400 "invalid or inactive plan")
    ctx.catalog.upsert_tenant (new_tenant tenant_id request.name request.plan now)
    ctx.queue.enqueue (
        new_job job_id tenant_id "bootstrap" (bootstrap_key tenant_id)
          ctx.settings.provisioning_job_max_attempts created_at available_at)
    pure (record { tenant_id = tenant_id; status = "pending"; provisioning_job_id = job_id })

  -- `tenant = ctx.catalog.get_tenant(tenant_id)`, and 404 if there is none
  unfoldable pub find_tenant : String → Action S Tenant
  find_tenant tenant_id = do
    tenant ← ctx.catalog.get_tenant tenant_id
    or_raise tenant (http 404 "tenant not found")

  unfoldable pub get_tenant : String → Action S Tenant
  unfolding find_tenant
  get_tenant tenant_id = find_tenant tenant_id

  unfoldable pub update_tenant_plan :
      Reading → String → UpdateTenantPlanRequest → String → Action S Tenant
  unfolding find_tenant
  update_tenant_plan r tenant_id request authorization = do
    principal ←
        require_admin ctx r authorization ("platform_admin" ∷ "tenant_admin" ∷ [])
          ("tenant.plan.write" ∷ []) (some tenant_id)
    tenant ← find_tenant tenant_id
    selected_plan ← ctx.plans.get_plan request.plan_id
    raise_if (is_unusable selected_plan) (http 400 "invalid or inactive plan")
    let updated = record tenant { plan = request.plan_id }
    ctx.catalog.upsert_tenant updated
    pure updated

  unfoldable pub tenant_usage :
      Reading → String → Option String → String → String → Action S (TenantUsageSummary F)
  unfolding find_tenant
  tenant_usage r tenant_id month current_month authorization = do
    principal ←
        require_admin ctx r authorization
          ("platform_admin" ∷ "tenant_admin" ∷ "billing_reader" ∷ [])
          ("tenant.usage.read" ∷ "billing.read" ∷ []) (some tenant_id)
    tenant ← find_tenant tenant_id
    normalized_month ← lift (normalize_month month current_month)
    ctx.usage.summarize_tenant_month tenant_id normalized_month

  unfoldable pub export_usage :
      Reading → Option String → String → String → Action S (List (TenantBillingRecord F))
  export_usage r month current_month authorization = do
    principal ←
        require_admin ctx r authorization ("platform_admin" ∷ "billing_reader" ∷ [])
          ("usage.export" ∷ "billing.read" ∷ []) none
    normalized_month ← lift (normalize_month month current_month)
    ctx.usage.summarize_all_tenants_month normalized_month

  unfoldable pub run_next_provisioning_job : (Raised → String) → Datetime → Datetime → Action S Bool
  run_next_provisioning_job text_of claimed_at failed_at =
      process_next_job text_of ctx.queue ctx.catalog ctx.settings.provisioning_job_max_attempts
        ctx.settings.provisioning_retry_base_seconds claimed_at failed_at
