-- ===== src/Adapters/Postgres/Catalog/Refinement.antt =====
-- What an upsert of a tenant or a plan makes of every tenant and plan.
use hosted_agents_saa_s_plat.Prelude.{
  string_eq, String, ◌≡◌, refl, ap, ◌∙◌, Option, none, some, ◌==◌, if◌then◌else◌, Bool-cases, inl,
  inr,
}
use mathlib.Core.Option.{map as map_option}
use hosted_agents_saa_s_plat.Domain.Action.{ok}
use hosted_agents_saa_s_plat.Domain.Models.{Tenant, Plan}
use hosted_agents_saa_s_plat.Adapters.Database.{Table}
use hosted_agents_saa_s_plat.Adapters.Database.Laws.{TableLaws}
use hosted_agents_saa_s_plat.Adapters.Database.Changes.{no_clash, upserted, upsert_lem}
use hosted_agents_saa_s_plat.Adapters.Postgres.Catalog.{
  TenantRow, PlanRow, new_tenant_row, set_tenant, tenant_of_row, new_plan_row, set_plan,
  plan_of_row, upsert_tenant, get_tenant, upsert_plan, get_plan,
}

abbrev pub tenant_key : TenantRow → String
tenant_key row = row.tenant_id

abbrev pub plan_key : PlanRow → String
plan_key row = row.plan_id

-- what an upsert stores: the time of creation stays that of the entity that was there
abbrev pub kept_tenant : Tenant → Option Tenant → Tenant
kept_tenant tenant none = tenant
kept_tenant tenant (some old) = record tenant { created_at = old.created_at }

abbrev pub kept_plan : Plan → Option Plan → Plan
kept_plan plan none = plan
kept_plan plan (some old) = record plan { created_at = old.created_at }

kept_tenant_row :
    (tenant : Tenant) (found : Option TenantRow)
    → ((row : TenantRow) → found ≡ some row → row.tenant_id ≡ tenant.tenant_id)
    → tenant_of_row (upserted (set_tenant tenant) (new_tenant_row tenant) found)
      ≡ kept_tenant tenant (map_option tenant_of_row found)
kept_tenant_row tenant none own = refl
kept_tenant_row tenant (some row) own =
    ap (λ (i : String). record tenant { tenant_id = i; created_at = row.created_at }) (own row refl)

kept_plan_row :
    (plan : Plan) (found : Option PlanRow)
    → ((row : PlanRow) → found ≡ some row → row.plan_id ≡ plan.plan_id)
    → plan_of_row (upserted (set_plan plan) (new_plan_row plan) found)
      ≡ kept_plan plan (map_option plan_of_row found)
kept_plan_row plan none own = refl
kept_plan_row plan (some row) own =
    ap (λ (i : String). record plan { plan_id = i; created_at = row.created_at }) (own row refl)

-- a map over the rows of a table after one write
map-write :
    {R A : Type 0} (f : R → A) (k j : String) (row : R) (found there : Option R) (a : A)
    → f row ≡ a
    → there ≡ (if k == j then some row else found)
    → map_option f there ≡ (if k == j then some a else map_option f found)
map-write f k j row found there a same e = elim (Bool-cases (k == j)) [
  | inl here ↦ rw here (ap (map_option f) e ∙ rw here (ap some same))
  | inr other ↦ rw other (ap (map_option f) e ∙ rw other refl)
]

module _ {S : Type 0} (tenants : Table String TenantRow S)
    (laws : TableLaws tenant_key no_clash tenants) where
  -- An upsert of a tenant returns, and then the tenant is found under its id with the values given, but
  -- for the created_at of a tenant that was there; what is found under any other id is what was.
  pub get-upsert_tenant :
      (tenant : Tenant) (s : S) (i : String)
      → ((upsert_tenant tenants tenant s).0 ≡ ok tt)
        × (get_tenant tenants i (upsert_tenant tenants tenant s).1 ≡ (
            if tenant.tenant_id == i
            then some (kept_tenant tenant (get_tenant tenants tenant.tenant_id s))
            else get_tenant tenants i s))
  unfolding upsert_tenant get_tenant
  get-upsert_tenant tenant s i =
      let (done, each) =
        upsert_lem tenant_key no_clash tenants laws tenant.tenant_id (set_tenant tenant)
          (new_tenant_row tenant) s refl (λ row own. own) (λ _ _ _. refl) in
      (
        done,
        map-write tenant_of_row tenant.tenant_id i _ (tenants.find i s) _ _
            (kept_tenant_row tenant (tenants.find tenant.tenant_id s)
              (λ row h. laws.own_key s tenant.tenant_id row h))
            (each i),
      )

module _ {S : Type 0} (plans : Table String PlanRow S)
    (laws : TableLaws plan_key no_clash plans) where
  -- An upsert of a plan returns, and then the plan is found under its id with the values given, but for
  -- the created_at of a plan that was there; what is found under any other id is what was.
  pub get-upsert_plan :
      (plan : Plan) (s : S) (i : String)
      → ((upsert_plan plans plan s).0 ≡ ok tt)
        × (get_plan plans i (upsert_plan plans plan s).1 ≡ (
            if plan.plan_id == i
            then some (kept_plan plan (get_plan plans plan.plan_id s))
            else get_plan plans i s))
  unfolding upsert_plan get_plan
  get-upsert_plan plan s i =
      let (done, each) =
        upsert_lem plan_key no_clash plans laws plan.plan_id (set_plan plan) (new_plan_row plan) s
          refl (λ row own. own) (λ _ _ _. refl) in
      (
        done,
        map-write plan_of_row plan.plan_id i _ (plans.find i s) _ _
            (kept_plan_row plan (plans.find plan.plan_id s)
              (λ row h. laws.own_key s plan.plan_id row h))
            (each i),
      )
