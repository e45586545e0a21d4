-- ===== src/Tests/Runs.antt =====
-- A run of main.py, by a customer with the tenant's API key.
use hosted_agents_saa_s_plat.Prelude.{
  string_eq, nat_eq, pair_eq, triple_eq, ℕ, true, ◌≡◌, ◌≢◌, refl, some, [], ◌∷◌, pos, ◌+ℤ◌, ◌≤ℤ◌,
  ◌==◌, if◌then◌else◌,
}
use hosted_agents_saa_s_plat.Collections.Dict.{get}
use hosted_agents_saa_s_plat.Calendar.{month_text}
use hosted_agents_saa_s_plat.Domain.Action.{ok, err, error, pure}
use hosted_agents_saa_s_plat.Domain.Models.{
  Tenant, Plan, TenantAgent, ExecuteRunRequest, ExecuteRunResponse, new_tenant, active,
}
use hosted_agents_saa_s_plat.Domain.Interfaces.{AgentGateway}
use hosted_agents_saa_s_plat.Policies.Auth.Tenant.{authenticate}
use hosted_agents_saa_s_plat.Policies.Auth.Tenant.Credentials.{Shown, named, authenticate_ok}
use hosted_agents_saa_s_plat.Adapters.Storage.Catalog.{get_tenant, get_plan}
use hosted_agents_saa_s_plat.Adapters.Storage.Agents
use hosted_agents_saa_s_plat.Adapters.Storage.Usage.{summarize_tenant_month, sum_tokens}
use hosted_agents_saa_s_plat.Policies.RateLimit.{allow, new_limiter}
use hosted_agents_saa_s_plat.Policies.Quota.{allow_request}
use hosted_agents_saa_s_plat.Text.{len}
use hosted_agents_saa_s_plat.Api.Context.{World}
use hosted_agents_saa_s_plat.Api.Runs.{Headers, RunReadings, admit_run, execute_run}
use hosted_agents_saa_s_plat.Api.Runs.Admission
use hosted_agents_saa_s_plat.Api.Runs.Failure.{failed_run_unmetered}
use hosted_agents_saa_s_plat.Api.Runs.Metering.{execute_run_metered, execute_run_within}
use hosted_agents_saa_s_plat.Tests.Admin.{gateway, settings, jwt, whole_floats, world, reading}

abbrev echo : AgentGateway Unit
echo = record { execute = λ tenant_id agent_id message. pure message }

abbrev running_tenant : Tenant
running_tenant = record (new_tenant "t1" "Acme" "starter" 0) { status = active }

abbrev pub starter : Plan
starter = record {
  plan_id = "starter";
  display_name = "Starter";
  limits = record { monthly_messages = pos 2; monthly_token_cap = pos 1000; max_agents = pos 1 };
  active = true;
  created_at = 0;
}

abbrev pub helper : TenantAgent
helper = record {
  tenant_id = "t1";
  agent_id = "a";
  display_name = "Helper";
  active = true;
  created_at = 0;
}

abbrev pub served_world : World ℕ Unit
served_world = record world {
  tenants = ("t1", running_tenant) ∷ [];
  plans = ("starter", starter) ∷ [];
  agents = record {
    tenant_agents = (("t1", "a"), helper) ∷ [];
    entitlements = ("t1", "u1", "a") ∷ [];
  };
}

abbrev headers : Headers
headers = record {
  x_tenant_id = "t1";
  x_customer_user_id = "u1";
  x_api_key = "k1";
  authorization = "";
}

abbrev readings : RunReadings
readings = record {
  auth = reading;
  limited_at = 1;
  month_at = 2;
  request_id = "r1";
  latency_ms = pos 3;
  recorded_at = 4;
}

abbrev request : ExecuteRunRequest
request = record { agent_id = "a"; user_id = "u1"; message = "hello" }

abbrev response : ExecuteRunResponse
response = record { tenant_id = "t1"; request_id = "r1"; output_text = "hello" }

abbrev after_run : World ℕ Unit
after_run =
    (execute_run (Admission.context settings jwt echo) "t1" request headers readings served_world).1

run_succeeds :
    execute_run (Admission.context settings jwt echo) "t1" request headers readings served_world
    ≡ (ok response, after_run)
unfolding execute_run authenticate get get_tenant get_plan Agents.is_customer_entitled allow
    new_limiter allow_request ◌+ℤ◌ summarize_tenant_month sum_tokens len
run_succeeds = refl

same_month : month_text 4 ≡ month_text 2
unfolding month_text
same_month = refl

execute_run_metered_example :
    (summarize_tenant_month "t1" (month_text 4) after_run.events).messages_used
    ≡ (summarize_tenant_month "t1" (month_text 4) served_world.events).messages_used
      +ℤ pos (if month_text 4 == month_text 4 then 1 else 0)
execute_run_metered_example =
    execute_run_metered settings jwt echo "t1" request headers readings served_world after_run
      response "t1" (month_text 4) run_succeeds

execute_run_within_example :
    (tenant : Tenant) × (plan : Plan) × (get_tenant "t1" served_world.tenants ≡ some tenant)
    × (get_plan tenant.plan served_world.plans ≡ some plan)
    × ((summarize_tenant_month "t1" (month_text 2) after_run.events).messages_used
        ≤ℤ plan.limits.monthly_messages)
execute_run_within_example =
    execute_run_within settings jwt echo "t1" request headers readings served_world after_run
      response run_succeeds same_month

abbrev admitted_world : World ℕ Unit
admitted_world =
    (admit_run (Admission.context settings jwt echo) "t1" request headers readings served_world).1

key_accepted :
    authenticate settings
      ((Admission.context settings jwt echo).decode reading)
      "t1"
      "t1"
      "u1"
      "k1"
      ""
      served_world
    ≡ (ok (named "t1" "u1"), served_world)
unfolding authenticate get
key_accepted = refl

authenticate_ok_example :
    ("t1" ≡ headers.x_tenant_id)
    × ((headers.x_tenant_id ≢ "") × (headers.x_customer_user_id ≢ ""))
    × Shown settings
        ((Admission.context settings jwt echo).decode reading)
        "t1"
        "u1"
        "k1"
        ""
        served_world
    × (named "t1" "u1" ≡ named "t1" "u1")
authenticate_ok_example =
    authenticate_ok settings ((Admission.context settings jwt echo).decode reading) "t1" "t1" "u1"
      "k1" "" (named "t1" "u1") served_world served_world key_accepted

abbrev after_failure : World ℕ Unit
after_failure =
    (execute_run (Admission.context settings jwt gateway) "t1" request headers readings
      served_world).1

run_fails :
    execute_run (Admission.context settings jwt gateway) "t1" request headers readings served_world
    ≡ (err (error "RuntimeError" "down"), after_failure)
unfolding execute_run authenticate get get_tenant get_plan Agents.is_customer_entitled allow
    new_limiter allow_request ◌+ℤ◌ summarize_tenant_month sum_tokens len
run_fails = refl

failed_run_unmetered_example : after_failure.events ≡ served_world.events
failed_run_unmetered_example =
    failed_run_unmetered settings jwt gateway "t1" request headers readings served_world
      after_failure (error "RuntimeError" "down") run_fails
