-- ===== src/Tests/Admin.antt =====
-- The admin endpoints of main.py on a context with one administrator.
use hosted_agents_saa_s_plat.Prelude.{
  string_eq, ℕ, ◌+◌, true, false, ◌≡◌, refl, none, some, [], ◌∷◌, pos, ◌==◌, if◌then◌else◌,
}
use mathlib.Core.List.{foldl}
use hosted_agents_saa_s_plat.Collections.Dict.{get}
use hosted_agents_saa_s_plat.Text.{strip, lower, prefix, after_first_space}
use hosted_agents_saa_s_plat.Domain.Action.{ok, err, http, error, raise}
use hosted_agents_saa_s_plat.Domain.Interfaces.{AgentGateway}
use hosted_agents_saa_s_plat.Config.{Settings}
use hosted_agents_saa_s_plat.Policies.RateLimit.{new_limiter}
use hosted_agents_saa_s_plat.Policies.Auth.Claims.{Claims, array, claim}
use hosted_agents_saa_s_plat.Policies.Auth.Jwks.{
  Jwt, Reading, decode_bearer_jwt, decode_token, extract_bearer_token, is_jwks_enabled,
}
use hosted_agents_saa_s_plat.Policies.Auth.Admin.{principal_of, authenticate, authorize_admin}
use hosted_agents_saa_s_plat.Policies.Auth.Admin.Permission.{Permitted}
use hosted_agents_saa_s_plat.Adapters.Storage.Agents
use hosted_agents_saa_s_plat.Adapters.Storage.Queue
use hosted_agents_saa_s_plat.Adapters.Storage.Usage.{FloatOps}
use hosted_agents_saa_s_plat.Api.Context.{AppContext, World, memory_context, require_admin}
use hosted_agents_saa_s_plat.Api.Admin.{list_plans, roles_of, scopes_of, tenant_of, serve}
use hosted_agents_saa_s_plat.Api.Admin.Guard.{serve_refused, serve-Permitted}

abbrev pub settings : Settings
settings = record {
  app_env = "production";
  tenant_catalog_dsn = "";
  provisioning_queue_backend = "database";
  provisioning_worker_poll_seconds = pos 5;
  provisioning_job_max_attempts = pos 3;
  provisioning_retry_base_seconds = pos 2;
  azure_storage_queue_account_url = "";
  azure_storage_queue_connection_string = "";
  azure_storage_queue_name = "jobs";
  azure_storage_queue_dead_letter_queue_name = "dead";
  azure_service_bus_fully_qualified_namespace = "";
  azure_service_bus_connection_string = "";
  azure_service_bus_queue_name = "jobs";
  azure_service_bus_dead_letter_queue_name = "dead";
  azure_ai_project_endpoint = "";
  azure_ai_project_api_key = "";
  azure_use_managed_identity = true;
  azure_managed_identity_client_id = "";
  allow_api_key_fallback = false;
  key_vault_url = "";
  tenant_api_keys = ("t1", "k1") ∷ [];
  rate_limit_backend = "memory";
  rate_limit_redis_url = "";
  rate_limit_redis_key_prefix = "saas:rl";
  rate_limit_redis_fail_open = false;
  jwt_jwks_url = "";
  jwt_issuer = "";
  jwt_audience = "";
  jwt_jwks_cache_ttl_seconds = pos 300;
  jwt_shared_secret = "secret";
  jwt_algorithm = "HS256";
  default_rate_limit_rpm = pos 60;
  postgres_pool_size = pos 5;
  postgres_max_overflow = pos 10;
  postgres_pool_timeout_seconds = pos 30;
  postgres_pool_recycle_seconds = pos 1800;
  foundry_run_poll_interval_seconds = pos 1;
}

abbrev platform_claims : Claims
platform_claims = ("roles", array "['platform_admin']" ("platform_admin" ∷ [])) ∷ []

-- one token is genuine
abbrev pub jwt : Jwt Unit
jwt = record {
  get_unverified_header = λ token. none;
  from_jwk = λ entry. none;
  decode_with_key = λ token key algorithm audience issuer. none;
  decode_with_secret =
      λ token secret algorithm. if token == "genuine" then some platform_claims else none;
}

abbrev pub gateway : AgentGateway Unit
gateway = record { execute = λ tenant_id agent_id message. raise (error "RuntimeError" "down") }

instance pub whole_floats : FloatOps ℕ
whole_floats = record {
  zero_float = 0;
  add_float = λ a b. a + b;
  sum_float = foldl (λ a b. a + b) 0;
}

abbrev pub context : AppContext ℕ (World ℕ Unit)
context = memory_context settings jwt gateway

abbrev pub world : World ℕ Unit
world = record {
  tenants = [];
  plans = [];
  agents = Agents.empty;
  jobs = Queue.empty;
  events = [];
  limiter = new_limiter (pos 60);
  jwks = [];
  provider = tt;
}

abbrev pub reading : Reading
reading = record { now = 0; fetched = none }

refused_nobody :
    require_admin context reading ""
      (roles_of list_plans)
      (scopes_of list_plans)
      (tenant_of list_plans)
      world
    ≡ (err (http 401 "Missing bearer token"), world)
unfolding authorize_admin authenticate decode_bearer_jwt extract_bearer_token lower prefix
refused_nobody = refl

serve_refused_example :
    serve context reading "" list_plans world ≡ (err (http 401 "Missing bearer token"), world)
serve_refused_example = serve_refused context reading "" world list_plans refused_nobody

served_platform : (serve context reading "Bearer genuine" list_plans world).0 ≡ ok tt
unfolding serve authorize_admin authenticate decode_bearer_jwt extract_bearer_token decode_token
    is_jwks_enabled lower prefix strip after_first_space claim get
served_platform = refl

serve-Permitted_example :
    (claims : Claims) × ((context.decode reading "Bearer genuine" world).0 ≡ ok claims)
    × Permitted (principal_of claims) (roles_of list_plans) (scopes_of list_plans) none
serve-Permitted_example =
    serve-Permitted context reading "Bearer genuine" world list_plans served_platform
