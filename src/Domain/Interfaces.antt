-- ===== src/Domain/Interfaces.antt =====
-- src/saas_platform/domain/interfaces.py: each abstract class as a record of its methods over a
-- state `S`. A method that reads the clock takes the reading as its first argument.
use hosted_agents_saa_s_plat.Prelude.{String, Bool, Option, List, ℤ}
use hosted_agents_saa_s_plat.Domain.Action.{Action}
use hosted_agents_saa_s_plat.Domain.Models.{
  Datetime, Tenant, TenantAgent, CustomerAgentEntitlement, Plan, ProvisioningJob, UsageEvent,
  TenantUsageSummary, TenantBillingRecord,
}

pub record TenantCatalog (S : Type 0) : Type 0 where
  pub upsert_tenant : Tenant → Action S (Unit {0})
  pub get_tenant : String → Action S (Option Tenant)

pub record PlanCatalog (S : Type 0) : Type 0 where
  pub upsert_plan : Plan → Action S (Unit {0})
  pub get_plan : String → Action S (Option Plan)
  pub list_plans : Action S (List Plan)

-- arguments in the source's order: the tenant, the customer, the agent
pub record AgentAccessCatalog (S : Type 0) : Type 0 where
  pub upsert_tenant_agent : TenantAgent → Action S (Unit {0})
  pub get_tenant_agent : String → String → Action S (Option TenantAgent)
  pub list_tenant_agents : String → Action S (List TenantAgent)
  pub grant_customer_agent : CustomerAgentEntitlement → Action S (Unit {0})
  pub revoke_customer_agent : String → String → String → Action S (Unit {0})
  pub list_customer_agents : String → String → Action S (List String)
  pub is_customer_entitled : String → String → String → Action S Bool

pub record ProvisioningQueue (S : Type 0) : Type 0 where
  pub enqueue : ProvisioningJob → Action S (Unit {0})
  pub claim_next : Datetime → Action S (Option ProvisioningJob)
  pub mark_done : String → Action S (Unit {0})
  pub mark_retry : Datetime → String → String → ℤ → Action S (Unit {0})
  pub mark_dead_letter : String → String → Action S (Unit {0})
  pub get_job : String → Action S (Option ProvisioningJob)

pub record UsageMeter (F S : Type 0) : Type 0 where
  pub record_event : UsageEvent F → Action S (Unit {0})
  pub summarize_tenant_month : String → String → Action S (TenantUsageSummary F)
  pub summarize_all_tenants_month : String → Action S (List (TenantBillingRecord F))

pub record AgentGateway (S : Type 0) : Type 0 where
  pub execute : String → String → String → Action S String
