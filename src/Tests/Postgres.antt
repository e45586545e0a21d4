-- ===== src/Tests/Postgres.antt =====
-- The adapters of postgres.py on tables in memory.
use hosted_agents_saa_s_plat.Prelude.{
  string_eq, pair_eq, triple_eq, string_eq_iff, ℕ, String, Bool, true, false, ◌≡◌, ◌≢◌, refl, some,
  List, [], ◌∷◌, pos, contains, All, ◌==◌, if◌then◌else◌,
}
use mathlib.Core.Option.{map as map_option}
use hosted_agents_saa_s_plat.Text.Order.{text_leb}
use hosted_agents_saa_s_plat.Collections.Dict.{any}
use hosted_agents_saa_s_plat.Calendar.Start.{
  parse_month, month_start, days_of_years, days_of_months,
}
use hosted_agents_saa_s_plat.Domain.Action.{ok}
use hosted_agents_saa_s_plat.Domain.Models.{
  TenantAgent, CustomerAgentEntitlement, Plan, ProvisioningJob, new_job, TenantBillingRecord,
}
use hosted_agents_saa_s_plat.Adapters.Database.{Table}
use hosted_agents_saa_s_plat.Adapters.Database.Changes.{no_clash}
use hosted_agents_saa_s_plat.Adapters.Storage.Agents
use hosted_agents_saa_s_plat.Adapters.Storage.Queue.{key_of}
use hosted_agents_saa_s_plat.Adapters.Postgres.Catalog.{
  PlanRow, upsert_plan, get_plan, new_plan_row,
}
use hosted_agents_saa_s_plat.Adapters.Postgres.Catalog.Refinement.{plan_key, get-upsert_plan}
use hosted_agents_saa_s_plat.Adapters.Postgres.Agents.{
  TenantAgentRow, CustomerAgentEntitlementRow, get_tenant_agent, list_customer_agents,
  is_customer_entitled,
}
use hosted_agents_saa_s_plat.Adapters.Postgres.Agents.Refinement.{run-Refines}
use hosted_agents_saa_s_plat.Adapters.Postgres.Agents.Steps.{
  agent_key, grant_key, Change, write, grant, revoke, run_rows, run_memory, undated,
}
use hosted_agents_saa_s_plat.Adapters.Postgres.Jobs.{
  ProvisioningJobRow, same_key, new_job_row, claim_next, enqueue,
}
use hosted_agents_saa_s_plat.Adapters.Postgres.Jobs.{
  mark_done, mark_retry, mark_dead_letter, get_job,
}
use hosted_agents_saa_s_plat.Adapters.Storage.Queue.{finish, postpone, bury, overflows}
use hosted_agents_saa_s_plat.Adapters.Postgres.Jobs.Marks.{changed_job, get_job-marks}
use hosted_agents_saa_s_plat.Adapters.Postgres.Jobs.Claim.{job_key, Claimed, claim_next-Claimed}
use hosted_agents_saa_s_plat.Adapters.Postgres.Jobs.Once.{enqueue_again}
use hosted_agents_saa_s_plat.Adapters.Postgres.Usage.{
  UsageEventRow, new_event_row, summarize_all_tenants_month, bill_rows, month_bounds,
}
use hosted_agents_saa_s_plat.Adapters.Postgres.Usage.Agreement.{
  event_key, Summarized, export-Summarized,
}
use hosted_agents_saa_s_plat.Tests.Tables.{list_table, list_table-laws}
use hosted_agents_saa_s_plat.Tests.Stores.{units, event}

abbrev plan : String → Plan
plan i = record {
  plan_id = i;
  display_name = "Basic";
  limits = record { monthly_messages = pos 5; monthly_token_cap = pos 9; max_agents = pos 1 };
  active = true;
  created_at = 7;
}

abbrev plans : Table String PlanRow (List PlanRow)
plans = list_table plan_key no_clash

abbrev old_plans : List PlanRow
old_plans = new_plan_row (record (plan "p") { created_at = 3 }) ∷ []

get-upsert_plan_example :
    ((upsert_plan plans (plan "p") old_plans).0 ≡ ok tt)
    × (get_plan plans "p" (upsert_plan plans (plan "p") old_plans).1
        ≡ some (record (plan "p") { created_at = 3 }))
unfolding get_plan
get-upsert_plan_example =
    get-upsert_plan plans (list_table-laws plan_key no_clash) (plan "p") old_plans "p"

abbrev agents : Table (String × String) TenantAgentRow (List TenantAgentRow)
agents = list_table agent_key no_clash

abbrev grants :
    Table (String × String × String) CustomerAgentEntitlementRow (List CustomerAgentEntitlementRow)
grants = list_table grant_key no_clash

abbrev agent : TenantAgent
agent = record {
  tenant_id = "t1";
  agent_id = "a";
  display_name = "Agent";
  active = true;
  created_at = 2;
}

abbrev everybody : CustomerAgentEntitlement
everybody = record { tenant_id = "t1"; customer_user_id = "*"; agent_id = "a"; created_at = 4 }

abbrev changes : List Change
changes = write agent ∷ grant everybody ∷ revoke "t1" "u1" "a" ∷ []

run-Refines_example :
    let (r, s') = run_rows agents grants changes ([], []) in
    let m = run_memory changes Agents.empty in
    (r ≡ ok tt)
    × (is_customer_entitled agents grants "t1" "u1" "a" s'
        ≡ Agents.is_customer_entitled "t1" "u1" "a" m)
    × (contains "a" (list_customer_agents text_leb grants "t1" "u1" s')
        ≡ contains "a" (Agents.list_customer_agents "t1" "u1" m))
    × (map_option undated (get_tenant_agent agents "t1" "a" s')
        ≡ map_option undated (Agents.get_tenant_agent "t1" "a" m))
run-Refines_example =
    run-Refines agents grants (list_table-laws agent_key no_clash)
      (list_table-laws grant_key no_clash) text_leb ([], []) (λ k. refl) (λ k. refl) changes "t1"
      "u1" "a"

abbrev jobs : Table String ProvisioningJobRow (List ProvisioningJobRow)
jobs = list_table job_key same_key

abbrev job : String → ProvisioningJob
job i = new_job i "t1" "provision" "t1:create" (pos 3) 5 5

abbrev two_jobs : List ProvisioningJobRow
two_jobs =
    new_job_row 6 (job "j1")
    ∷ record (new_job_row 6 (job "j2")) { idempotency_key = "k2"; available_at = 4 }
    ∷ []

abbrev locked_second : String → Bool
locked_second i = i == "j2"

claim_next-Claimed_example :
    Claimed jobs locked_second 8 two_jobs (claim_next jobs locked_second 8 two_jobs)
claim_next-Claimed_example =
    claim_next-Claimed jobs locked_second 8 two_jobs (list_table-laws job_key same_key)

abbrev first_id : String
first_id = "j1"

named : first_id ≢ ""
named h = let same : false ≡ true = (string_eq_iff "j1" "").1 h in absurd (cc)

stored_once : (enqueue jobs 6 (job "j1") []).0 ≡ ok tt
unfolding enqueue any key_of
stored_once = refl

enqueue_again_example :
    enqueue jobs 9 (job "j2") (enqueue jobs 6 (job "j1") []).1
    ≡ (ok tt, (enqueue jobs 6 (job "j1") []).1)
unfolding key_of
enqueue_again_example =
    enqueue_again jobs (list_table-laws job_key same_key) 6 9 (job "j1") (job "j2") [] named refl
      stored_once

abbrev usage : Table String (UsageEventRow ℕ) (List (UsageEventRow ℕ))
usage = list_table event_key no_clash

abbrev two_events : List (UsageEventRow ℕ)
two_events =
    new_event_row (event "t2" 5) ∷ record (new_event_row (event "t1" 1)) { request_id = "r2" } ∷ []

-- January 1970 from the first to the last microsecond
january : month_bounds "1970-01" ≡ ok (0, 2678400000000)
unfolding month_bounds parse_month month_start days_of_years days_of_months
january = refl

abbrev exported : List (TenantBillingRecord ℕ)
unfolding bill_rows
exported = bill_rows text_leb "1970-01" two_events

exported-eq : (summarize_all_tenants_month usage text_leb "1970-01" two_events).0 ≡ ok exported
unfolding summarize_all_tenants_month exported month_bounds parse_month month_start days_of_years
    days_of_months bill_rows
exported-eq = refl

export-Summarized_example :
    All
      (Summarized usage (list_table-laws event_key no_clash) text_leb "1970-01" two_events)
      exported
export-Summarized_example =
    export-Summarized usage (list_table-laws event_key no_clash) text_leb "1970-01" two_events
      exported exported-eq

get_job-marks_example :
    (get_job jobs "j1" (mark_done jobs 9 "j1" two_jobs)
      ≡ changed_job finish "j1" "j1" (get_job jobs "j1" two_jobs))
    × (get_job jobs "j1" (mark_retry jobs 9 "j1" "timeout" (pos 4) two_jobs).1 ≡ (
        if overflows 9 (pos 4)
        then get_job jobs "j1" two_jobs
        else changed_job (postpone 9 "timeout" (pos 4)) "j1" "j1" (get_job jobs "j1" two_jobs)))
    × (get_job jobs "j1" (mark_dead_letter jobs 9 "j1" "timeout" two_jobs)
        ≡ changed_job (bury "timeout") "j1" "j1" (get_job jobs "j1" two_jobs))
get_job-marks_example =
    get_job-marks jobs (list_table-laws job_key same_key) 9 "j1" "j1" two_jobs "timeout" (pos 4)
