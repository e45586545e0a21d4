-- ===== src/Adapters/Storage/Catalog.antt =====
-- `InMemoryTenantCatalog` and `InMemoryPlanCatalog`.
use hosted_agents_saa_s_plat.Prelude.{string_eq, String, Bool, Option, List, sorted}
use hosted_agents_saa_s_plat.Collections.Dict.{Dict, values, get, put}
use hosted_agents_saa_s_plat.Text.Order.{text_leb}
use hosted_agents_saa_s_plat.Domain.Models.{Tenant, Plan}

abbrev pub Tenants : Type 0
Tenants = Dict String Tenant

unfoldable pub upsert_tenant : Tenant → Tenants → Tenants
upsert_tenant tenant d = put d tenant.tenant_id tenant

unfoldable pub get_tenant : String → Tenants → Option Tenant
get_tenant tenant_id d = get d tenant_id

abbrev pub Plans : Type 0
Plans = Dict String Plan

unfoldable pub upsert_plan : Plan → Plans → Plans
upsert_plan plan d = put d plan.plan_id plan

unfoldable pub get_plan : String → Plans → Option Plan
get_plan plan_id d = get d plan_id

abbrev pub by_plan_id : Plan → Plan → Bool
by_plan_id p q = text_leb p.plan_id q.plan_id

unfoldable pub list_plans : Plans → List Plan
list_plans d = sorted by_plan_id (values d)
