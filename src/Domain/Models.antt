-- ===== src/Domain/Models.antt =====
-- src/saas_platform/domain/models.py. A `datetime` is UTC and is counted in microseconds since
-- 1970-01-01; the type of `float` is the parameter `F` of the records that hold one.
use hosted_agents_saa_s_plat.Prelude.{ℕ, String, Bool, Option, none, ℤ, pos}

abbrev pub Datetime : Type 0
Datetime = ℕ

-- the two values of `Tenant.status` that the program writes
pub data TenantStatus : Type 0 where
  pending active : TenantStatus

pub record Tenant : Type 0 where
  pub tenant_id : String
  pub name : String
  pub plan : String
  pub status : TenantStatus
  pub created_at : Datetime

pub record TenantAgent : Type 0 where
  pub tenant_id : String
  pub agent_id : String
  pub display_name : String
  pub active : Bool
  pub created_at : Datetime

pub record CustomerAgentEntitlement : Type 0 where
  pub tenant_id : String
  pub customer_user_id : String
  pub agent_id : String
  pub created_at : Datetime

pub record PlanLimits : Type 0 where
  pub monthly_messages : ℤ
  pub monthly_token_cap : ℤ
  pub max_agents : ℤ

pub record Plan : Type 0 where
  pub plan_id : String
  pub display_name : String
  pub limits : PlanLimits
  pub active : Bool
  pub created_at : Datetime

-- the four values of `ProvisioningJob.state` that the queues write
pub data JobState : Type 0 where
  queued running done dead_letter : JobState

pub record ProvisioningJob : Type 0 where
  pub job_id : String
  pub tenant_id : String
  pub step : String
  pub idempotency_key : Option String
  pub state : JobState
  pub retries : ℤ
  pub max_attempts : ℤ
  pub error : Option String
  pub created_at : Datetime
  pub available_at : Datetime

pub record UsageEvent (F : Type 0) : Type 0 where
  pub tenant_id : String
  pub agent_id : String
  pub request_id : String
  pub model : String
  pub latency_ms : ℤ
  pub tokens_in : ℤ
  pub tokens_out : ℤ
  pub cost_estimate : F
  pub created_at : Datetime

pub record TenantUsageSummary (F : Type 0) : Type 0 where
  pub tenant_id : String
  pub month : String
  pub messages_used : ℤ
  pub tokens_used : ℤ
  pub cost_estimate : F

pub record TenantBillingRecord (F : Type 0) : Type 0 where
  pub tenant_id : String
  pub month : String
  pub messages_used : ℤ
  pub tokens_used : ℤ
  pub cost_estimate : F

pub record CreateTenantRequest : Type 0 where
  pub name : String
  pub plan : String

pub record CreateTenantResponse : Type 0 where
  pub tenant_id : String
  pub status : String
  pub provisioning_job_id : String

pub record CreatePlanRequest : Type 0 where
  pub plan_id : String
  pub display_name : String
  pub monthly_messages : ℤ
  pub monthly_token_cap : ℤ
  pub max_agents : ℤ
  pub active : Bool

pub record UpdateTenantPlanRequest : Type 0 where
  pub plan_id : String

pub record UpsertTenantAgentRequest : Type 0 where
  pub agent_id : String
  pub display_name : String
  pub active : Bool

pub record ExecuteRunRequest : Type 0 where
  pub agent_id : String
  pub user_id : String
  pub message : String

pub record ExecuteRunResponse : Type 0 where
  pub tenant_id : String
  pub request_id : String
  pub output_text : String

-- The constructors with the defaults of the classes; `now` is what `default_factory` reads.
abbrev pub new_tenant : String → String → String → Datetime → Tenant
new_tenant tenant_id name plan now = record {
  tenant_id = tenant_id;
  name = name;
  plan = plan;
  status = pending;
  created_at = now;
}

-- the defaults of `created_at` and `available_at` read the clock one after the other
abbrev pub new_job : String → String → String → String → ℤ → Datetime → Datetime → ProvisioningJob
new_job job_id tenant_id step idempotency_key max_attempts created_at available_at = record {
  job_id = job_id;
  tenant_id = tenant_id;
  step = step;
  idempotency_key = Option.some idempotency_key;
  state = queued;
  retries = pos 0;
  max_attempts = max_attempts;
  error = none;
  created_at = created_at;
  available_at = available_at;
}
