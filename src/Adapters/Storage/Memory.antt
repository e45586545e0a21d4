-- ===== src/Adapters/Storage/Memory.antt =====
-- The in-memory adapters as implementations of the interfaces, over one record of their states.
use hosted_agents_saa_s_plat.Prelude.{List}
use hosted_agents_saa_s_plat.Domain.Action.{Action, ok}
use hosted_agents_saa_s_plat.Domain.Models.{UsageEvent}
use hosted_agents_saa_s_plat.Domain.Interfaces.{
  TenantCatalog, PlanCatalog, AgentAccessCatalog, ProvisioningQueue, UsageMeter,
}
use hosted_agents_saa_s_plat.Adapters.Storage.Catalog
use hosted_agents_saa_s_plat.Adapters.Storage.Catalog.{Tenants, Plans}
use hosted_agents_saa_s_plat.Adapters.Storage.Agents
use hosted_agents_saa_s_plat.Adapters.Storage.Agents.{AgentAccess}
use hosted_agents_saa_s_plat.Adapters.Storage.Queue
use hosted_agents_saa_s_plat.Adapters.Storage.Queue.{JobQueue}
use hosted_agents_saa_s_plat.Adapters.Storage.Usage
use hosted_agents_saa_s_plat.Adapters.Storage.Usage.{FloatOps}

-- methods that do not raise: all but `mark_retry`
abbrev pub reads : {S A : Type 0} → (S → A) → Action S A
reads f s = (ok (f s), s)

abbrev pub writes : {S : Type 0} → (S → S) → Action S (Unit {0})
writes f s = (ok tt, f s)

abbrev pub runs : {S A : Type 0} → (S → A × S) → Action S A
runs f s = let (a, s') = f s in (ok a, s')

abbrev pub tenant_catalog : TenantCatalog Tenants
tenant_catalog = record {
  upsert_tenant = λ tenant. writes (Catalog.upsert_tenant tenant);
  get_tenant = λ tenant_id. reads (Catalog.get_tenant tenant_id);
}

abbrev pub plan_catalog : PlanCatalog Plans
plan_catalog = record {
  upsert_plan = λ plan. writes (Catalog.upsert_plan plan);
  get_plan = λ plan_id. reads (Catalog.get_plan plan_id);
  list_plans = reads Catalog.list_plans;
}

abbrev pub agent_access_catalog : AgentAccessCatalog AgentAccess
agent_access_catalog = record {
  upsert_tenant_agent = λ agent. writes (Agents.upsert_tenant_agent agent);
  get_tenant_agent = λ t a. reads (Agents.get_tenant_agent t a);
  list_tenant_agents = λ t. reads (Agents.list_tenant_agents t);
  grant_customer_agent = λ g. writes (Agents.grant_customer_agent g);
  revoke_customer_agent = λ t c a. writes (Agents.revoke_customer_agent t c a);
  list_customer_agents = λ t c. reads (Agents.list_customer_agents t c);
  is_customer_entitled = λ t c a. reads (Agents.is_customer_entitled t c a);
}

abbrev pub provisioning_queue : ProvisioningQueue JobQueue
provisioning_queue = record {
  enqueue = λ job. writes (Queue.enqueue job);
  claim_next = λ now. runs (Queue.claim_next now);
  mark_done = λ i. writes (Queue.mark_done i);
  mark_retry = Queue.mark_retry;
  mark_dead_letter = λ i error. writes (Queue.mark_dead_letter i error);
  get_job = λ i. reads (Queue.get_job i);
}

abbrev pub usage_meter : {F : Type 0} ⦃o : FloatOps F⦄ → UsageMeter F (List (UsageEvent F))
usage_meter = record {
  record_event = λ event. writes (Usage.record_event event);
  summarize_tenant_month = λ tenant_id month. reads (Usage.summarize_tenant_month tenant_id month);
  summarize_all_tenants_month = λ month. reads (Usage.summarize_all_tenants_month month);
}
