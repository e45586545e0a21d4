-- ===== src/Adapters/Postgres/Usage.antt =====
-- `PostgresUsageMeter`. `sum` of the database on floats is that of `FloatOps`, on the rows in the order
-- in which the query reads them, and a group comes with its rows in that order.
pub mod Agreement
use hosted_agents_saa_s_plat.Prelude.{
  string_eq, nat_eq, ℕ, ◌+◌, sorted, if◌then◌else◌, String, Bool, ◌&&◌, Option, none, some, List,
  [], ◌∷◌, ◌==◌, ℤ, pos, ◌+ℤ◌, true, filter, map, length, leb, ltb,
}
use hosted_agents_saa_s_plat.Collections.KeySet.{to_set}
use hosted_agents_saa_s_plat.Domain.Action.{Action, Outcome, ok, err, error, lift, ◌>>=◌}
use hosted_agents_saa_s_plat.Domain.Models.{
  Datetime, UsageEvent, TenantUsageSummary, TenantBillingRecord,
}
use hosted_agents_saa_s_plat.Domain.Interfaces.{UsageMeter}
use hosted_agents_saa_s_plat.Calendar.Start.{parse_month, month_start}
use hosted_agents_saa_s_plat.Adapters.Storage.Memory.{reads}
use hosted_agents_saa_s_plat.Adapters.Database.{Table, merge}
use hosted_agents_saa_s_plat.Adapters.Storage.Usage.{FloatOps}

pub record UsageEventRow (F : Type 0) : Type 0 where
  pub request_id : String
  pub tenant_id : String
  pub agent_id : String
  pub model : String
  pub latency_ms : ℤ
  pub tokens_in : ℤ
  pub tokens_out : ℤ
  pub cost_estimate : F
  pub created_at : Datetime

module _ {F : Type 0} where
  abbrev pub new_event_row : UsageEvent F → UsageEventRow F
  new_event_row event = record {
    request_id = event.request_id;
    tenant_id = event.tenant_id;
    agent_id = event.agent_id;
    model = event.model;
    latency_ms = event.latency_ms;
    tokens_in = event.tokens_in;
    tokens_out = event.tokens_out;
    cost_estimate = event.cost_estimate;
    created_at = event.created_at;
  }

-- `start.replace(year=start.year + 1, month=1)`, which the year 9999 does not allow, or
-- `start.replace(month=start.month + 1)`
abbrev pub next_month : ℕ × ℕ → Option (ℕ × ℕ)
next_month (year, month) =
    if month == 12
    then (if year == 9999 then none else some (year + 1, 1))
    else some (year, month + 1)

abbrev pub bounds_to : ℕ × ℕ → Option (ℕ × ℕ) → Outcome (Datetime × Datetime)
unfolding month_start
bounds_to start none = err (error "ValueError" "year 10000 is out of range")
bounds_to (year, month) (some (next_year, after)) =
    ok (month_start year month, month_start next_year after)

abbrev pub bounds_from : Option (ℕ × ℕ) → Outcome (Datetime × Datetime)
bounds_from none = err (error "ValueError" "time data does not match format '%Y-%m'")
bounds_from (some start) = bounds_to start (next_month start)

unfoldable pub month_bounds : String → Outcome (Datetime × Datetime)
unfolding parse_month
month_bounds month = bounds_from (parse_month month)

module _ {F : Type 0} where
  -- `created_at >= start, created_at < end`
  abbrev pub in_bounds : Datetime × Datetime → UsageEventRow F → Bool
  in_bounds (start, stop) row = leb start row.created_at && ltb row.created_at stop

  abbrev pub of_tenant : String → UsageEventRow F → Bool
  of_tenant tenant_id row = row.tenant_id == tenant_id

  -- `coalesce(sum(tokens_in + tokens_out), 0)`
  abbrev pub sum_tokens : List (UsageEventRow F) → ℤ
  sum_tokens [] = pos 0
  sum_tokens (row ∷ rows) = row.tokens_in +ℤ row.tokens_out +ℤ sum_tokens rows

  -- any order
  abbrev pub unordered : UsageEventRow F → UsageEventRow F → Bool
  unordered a b = true

module _ {F S : Type 0} (events : Table String (UsageEventRow F) S) where
  unfoldable pub record_event : UsageEvent F → Action S (Unit {0})
  record_event event = merge events event.request_id (new_event_row event)

module _ {F : Type 0} ⦃o : FloatOps F⦄ where
  abbrev pub summary_of : String → String → List (UsageEventRow F) → TenantUsageSummary F
  summary_of tenant_id month rows = record {
    tenant_id = tenant_id;
    month = month;
    messages_used = pos (length rows);
    tokens_used = sum_tokens rows;
    cost_estimate = o.sum_float (map (λ (row : UsageEventRow F). row.cost_estimate) rows);
  }

  -- a row of the `group_by`
  abbrev pub billed : String → List (UsageEventRow F) → String → TenantBillingRecord F
  billed month rows tenant_id =
      let group = filter (of_tenant tenant_id) rows in
      record {
        tenant_id = tenant_id;
        month = month;
        messages_used = pos (length group);
        tokens_used = sum_tokens group;
        cost_estimate = o.sum_float (map (λ (row : UsageEventRow F). row.cost_estimate) group);
      }

  unfoldable pub bill_rows :
      (String → String → Bool) → String → List (UsageEventRow F) → List (TenantBillingRecord F)
  bill_rows text_le month rows =
      map (billed month rows)
        (sorted text_le (to_set (map (λ (row : UsageEventRow F). row.tenant_id) rows)))

module _ {F S : Type 0} ⦃o : FloatOps F⦄ (events : Table String (UsageEventRow F) S) where
  unfoldable pub summarize_tenant_month : String → String → Action S (TenantUsageSummary F)
  unfolding month_bounds
  summarize_tenant_month tenant_id month = lift (month_bounds month) >>= λ bounds. reads λ s.
      summary_of tenant_id month
        (events.select (λ row. in_bounds bounds row && of_tenant tenant_id row) unordered s)

  unfoldable pub summarize_all_tenants_month :
      (String → String → Bool) → String → Action S (List (TenantBillingRecord F))
  unfolding month_bounds bill_rows
  summarize_all_tenants_month text_le month = lift (month_bounds month) >>= λ bounds.
      reads λ s. bill_rows text_le month (events.select (in_bounds bounds) unordered s)

  abbrev pub usage_meter : (String → String → Bool) → UsageMeter F S
  usage_meter text_le = record {
    record_event = record_event events;
    summarize_tenant_month = summarize_tenant_month;
    summarize_all_tenants_month = summarize_all_tenants_month text_le;
  }
