-- ===== src/Adapters/Storage/Usage.antt =====
-- `InMemoryUsageMeter`, over the type of `float` and what the meter does with it.
pub mod Billing
use hosted_agents_saa_s_plat.Prelude.{
  string_eq, String, Bool, ◌&&◌, Option, none, some, List, [], ◌∷◌, ◌++◌, ◌==◌, ℤ, pos, ◌+ℤ◌,
  filter, map, length, sorted, if◌then◌else◌,
}
use mathlib.Core.List.{foldl}
use hosted_agents_saa_s_plat.Collections.Dict.{Dict, values, get, put}
use hosted_agents_saa_s_plat.Text.Order.{text_leb}
use hosted_agents_saa_s_plat.Calendar.{month_text}
use hosted_agents_saa_s_plat.Domain.Models.{UsageEvent, TenantUsageSummary, TenantBillingRecord}

-- `0.0`, `+` and the builtin `sum`
pub record FloatOps (F : Type 0) : Type 0 where
  pub zero_float : F
  pub add_float : F → F → F
  pub sum_float : List F → F

module _ {F : Type 0} where
  unfoldable pub record_event : UsageEvent F → List (UsageEvent F) → List (UsageEvent F)
  record_event event events = events ++ event ∷ []

  abbrev pub in_month : String → UsageEvent F → Bool
  in_month month event = month_text event.created_at == month

  abbrev pub counted : String → String → UsageEvent F → Bool
  counted tenant_id month event = event.tenant_id == tenant_id && in_month month event

  abbrev pub tokens : UsageEvent F → ℤ
  tokens event = event.tokens_in +ℤ event.tokens_out

  -- `sum(event.tokens_in + event.tokens_out for event in events)`
  unfoldable pub sum_tokens : List (UsageEvent F) → ℤ
  sum_tokens = foldl (λ total event. total +ℤ tokens event) (pos 0)

module _ {F : Type 0} ⦃o : FloatOps F⦄ where
  unfoldable pub summarize_tenant_month :
      String → String → List (UsageEvent F) → TenantUsageSummary F
  summarize_tenant_month tenant_id month all_events =
      let events = filter (counted tenant_id month) all_events in
      record {
        tenant_id = tenant_id;
        month = month;
        messages_used = pos (length events);
        tokens_used = sum_tokens events;
        cost_estimate = o.sum_float (map (λ (event : UsageEvent F). event.cost_estimate) events);
      }

  -- the record of a tenant after one more of its events
  abbrev pub bill_event :
      String → UsageEvent F → Option (TenantBillingRecord F) → TenantBillingRecord F
  bill_event month event none = record {
    tenant_id = event.tenant_id;
    month = month;
    messages_used = pos 1;
    tokens_used = tokens event;
    cost_estimate = event.cost_estimate;
  }
  bill_event month event (some existing) = record {
    tenant_id = existing.tenant_id;
    month = month;
    messages_used = existing.messages_used +ℤ pos 1;
    tokens_used = existing.tokens_used +ℤ event.tokens_in +ℤ event.tokens_out;
    cost_estimate = o.add_float existing.cost_estimate event.cost_estimate;
  }

  -- the body of the `for` over the events
  unfoldable pub group_event :
      String
      → Dict String (TenantBillingRecord F)
      → UsageEvent F
      → Dict String (TenantBillingRecord F)
  group_event month grouped event =
      if in_month month event
      then put grouped event.tenant_id (bill_event month event (get grouped event.tenant_id))
      else grouped

  unfoldable pub group_events : String → List (UsageEvent F) → Dict String (TenantBillingRecord F)
  unfolding group_event
  group_events month events = foldl (group_event month) [] events

  abbrev pub by_tenant_id : TenantBillingRecord F → TenantBillingRecord F → Bool
  by_tenant_id a b = text_leb a.tenant_id b.tenant_id

  unfoldable pub summarize_all_tenants_month :
      String → List (UsageEvent F) → List (TenantBillingRecord F)
  unfolding group_events
  summarize_all_tenants_month month events =
      sorted by_tenant_id (values (group_events month events))
