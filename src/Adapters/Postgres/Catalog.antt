-- ===== src/Adapters/Postgres/Catalog.antt =====
-- `PostgresTenantCatalog` and `PostgresPlanCatalog`.
pub mod Refinement
use hosted_agents_saa_s_plat.Prelude.{String, Bool, true, Option, List, ℤ, map}
use mathlib.Core.Option.{map as map_option}
use hosted_agents_saa_s_plat.Domain.Action.{Action, ok}
use hosted_agents_saa_s_plat.Domain.Models.{Datetime, Tenant, TenantStatus, Plan}
use hosted_agents_saa_s_plat.Domain.Interfaces.{TenantCatalog, PlanCatalog}
use hosted_agents_saa_s_plat.Adapters.Database.{Table, upsert}
use hosted_agents_saa_s_plat.Adapters.Storage.Memory.{reads}

pub record TenantRow : Type 0 where
  pub tenant_id : String
  pub name : String
  pub plan : String
  pub status : TenantStatus
  pub created_at : Datetime

pub record PlanRow : Type 0 where
  pub plan_id : String
  pub display_name : String
  pub monthly_messages : ℤ
  pub monthly_token_cap : ℤ
  pub max_agents : ℤ
  pub active : Bool
  pub created_at : Datetime

abbrev pub new_tenant_row : Tenant → TenantRow
new_tenant_row tenant = record {
  tenant_id = tenant.tenant_id;
  name = tenant.name;
  plan = tenant.plan;
  status = tenant.status;
  created_at = tenant.created_at;
}

-- the columns that `upsert_tenant` assigns to a row that is there
abbrev pub set_tenant : Tenant → TenantRow → TenantRow
set_tenant tenant row = record row {
  name = tenant.name;
  plan = tenant.plan;
  status = tenant.status;
}

abbrev pub tenant_of_row : TenantRow → Tenant
tenant_of_row row = record {
  tenant_id = row.tenant_id;
  name = row.name;
  plan = row.plan;
  status = row.status;
  created_at = row.created_at;
}

module _ {S : Type 0} (tenants : Table String TenantRow S) where
  unfoldable pub upsert_tenant : Tenant → Action S (Unit {0})
  upsert_tenant tenant = upsert tenants tenant.tenant_id (set_tenant tenant) (new_tenant_row tenant)

  unfoldable pub get_tenant : String → S → Option Tenant
  get_tenant tenant_id s = map_option tenant_of_row (tenants.find tenant_id s)

  abbrev pub tenant_catalog : TenantCatalog S
  tenant_catalog = record {
    upsert_tenant = upsert_tenant;
    get_tenant = λ tenant_id. reads (get_tenant tenant_id);
  }

abbrev pub new_plan_row : Plan → PlanRow
new_plan_row plan = record {
  plan_id = plan.plan_id;
  display_name = plan.display_name;
  monthly_messages = plan.limits.monthly_messages;
  monthly_token_cap = plan.limits.monthly_token_cap;
  max_agents = plan.limits.max_agents;
  active = plan.active;
  created_at = plan.created_at;
}

abbrev pub set_plan : Plan → PlanRow → PlanRow
set_plan plan row = record row {
  display_name = plan.display_name;
  monthly_messages = plan.limits.monthly_messages;
  monthly_token_cap = plan.limits.monthly_token_cap;
  max_agents = plan.limits.max_agents;
  active = plan.active;
}

abbrev pub plan_of_row : PlanRow → Plan
plan_of_row row = record {
  plan_id = row.plan_id;
  display_name = row.display_name;
  limits = record {
    monthly_messages = row.monthly_messages;
    monthly_token_cap = row.monthly_token_cap;
    max_agents = row.max_agents;
  };
  active = row.active;
  created_at = row.created_at;
}

module _ {S : Type 0} (plans : Table String PlanRow S) where
  unfoldable pub upsert_plan : Plan → Action S (Unit {0})
  upsert_plan plan = upsert plans plan.plan_id (set_plan plan) (new_plan_row plan)

  unfoldable pub get_plan : String → S → Option Plan
  get_plan plan_id s = map_option plan_of_row (plans.find plan_id s)

module _ {S : Type 0} (text_le : String → String → Bool) (plans : Table String PlanRow S) where
  unfoldable pub list_plans : S → List Plan
  list_plans s = map plan_of_row (plans.select (λ _. true) (λ p q. text_le p.plan_id q.plan_id) s)

  abbrev pub plan_catalog : PlanCatalog S
  plan_catalog = record {
    upsert_plan = upsert_plan plans;
    get_plan = λ plan_id. reads (get_plan plans plan_id);
    list_plans = reads list_plans;
  }
