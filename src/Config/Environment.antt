-- ===== src/Config/Environment.antt =====
-- `get_settings` of src/saas_platform/config.py. The environment, with what dotenv adds, is a dict;
-- Python's `int` of a text, `json.loads` and `ast.literal_eval` are parameters.
pub mod Bounds
use Prim.Native.Char.{Char, code}
use hosted_agents_saa_s_plat.Prelude.{
  string_eq, nat_beq, ℕ, zero, suc, ◌-◌, String, Bool, true, false, ◌&&◌, ◌||◌, Option, none, some,
  List, [], ◌∷◌, ◌==◌, contains, filter, leb, ℤ, pos, max_ℤ, if◌then◌else◌,
}
use hosted_agents_saa_s_plat.Collections.Dict.{Dict, get}
use hosted_agents_saa_s_plat.Text.{strip, lower, len, prefix}
use hosted_agents_saa_s_plat.Domain.Action.{
  Action, Outcome, ok, err, error, raise, pure, lift, ◌>>=◌, ◌>>◌,
}
use hosted_agents_saa_s_plat.Config.{Settings}
use hosted_agents_saa_s_plat.Policies.Auth.Claims.{non_empty}

unfoldable pub parse_bool : String → Bool → Bool
parse_bool raw default =
    let text = lower (strip raw) in
    if text == "" then default else contains text ("1" ∷ "true" ∷ "yes" ∷ "y" ∷ "on" ∷ [])

-- What `json.loads` and `ast.literal_eval` make of a text: nothing, a value that is no dict, or a dict,
-- with `str` of its keys and values.
pub data Literal : Type 0 where
  invalid : Literal
  other_value : Literal
  dict_value : Dict String String → Literal

abbrev same_quote : Char → Char → Bool
same_quote c d = nat_beq (code c) (code d) && (nat_beq (code c) 39 || nat_beq (code c) 34)

-- the last character, or another that stands for none
abbrev last_char : Char → String → Char
last_char c String.[] = c
last_char c (String.◌∷◌ d s) = last_char d s

-- `text[1:-1].strip()` of a text in quotes
unfoldable pub unquote : String → String
unquote String.[] = ""
unquote (String.◌∷◌ c s) =
    if leb 1 (len s) && same_quote c (last_char c s)
    then strip (prefix (len s - 1) s)
    else String.◌∷◌ c s

abbrev pub usable_keys : Dict String String → Dict String String
usable_keys keys = filter (λ (k : String × String). non_empty k.1) keys

abbrev pub keys_of_literal : Literal → Outcome (Dict String String)
keys_of_literal (dict_value keys) = ok (usable_keys keys)
keys_of_literal other_value = err (error "ValueError" "Invalid TENANT_API_KEYS_JSON")
keys_of_literal invalid = err (error "ValueError" "Invalid TENANT_API_KEYS_JSON")

abbrev pub keys_of_json : Literal → Literal → Outcome (Dict String String)
keys_of_json (dict_value keys) literal = ok (usable_keys keys)
keys_of_json other_value literal =
    err (error "ValueError" "TENANT_API_KEYS_JSON must be a JSON object")
keys_of_json invalid literal = keys_of_literal literal

unfoldable pub parse_tenant_api_keys :
    (String → Literal) → (String → Literal) → String → Outcome (Dict String String)
unfolding unquote
parse_tenant_api_keys json_loads literal_eval raw =
    let text = strip raw in
    if text == ""
    then ok []
    else keys_of_json (json_loads (unquote text)) (literal_eval (unquote text))

abbrev pub int_from : Option ℤ → Action (Dict String String) ℤ
int_from none = raise (error "ValueError" "invalid literal for int() with base 10")
int_from (some n) = pure n

-- `os.getenv(name, default)`
abbrev pub env : Dict String String → String → String → String
env e name default = elim (get e name) [ none ↦ default | some value ↦ value ]

module _ (int_of : String → Option ℤ) (json_loads literal_eval : String → Literal) where
  -- the three kinds of settings: a text, a number and a flag
  abbrev pub text : String → String → Action (Dict String String) String
  text name default e = (ok (env e name default), e)

  abbrev pub int : String → String → Action (Dict String String) ℤ
  int name default e = int_from (int_of (env e name default)) e

  abbrev pub at_least : ℤ → String → String → Action (Dict String String) ℤ
  at_least low name default = int name default >>= λ n. pure (max_ℤ low n)

  abbrev pub flag : String → Bool → Action (Dict String String) Bool
  flag name default e =
      (ok (parse_bool (env e name (if default then "true" else "false")) default), e)

  unfoldable pub get_settings : Action (Dict String String) Settings
  unfolding parse_tenant_api_keys
  get_settings = do
    app_env ← text "APP_ENV" "dev"
    tenant_catalog_dsn ← text "TENANT_CATALOG_DSN" ""
    provisioning_queue_backend ← text "PROVISIONING_QUEUE_BACKEND" "storage_queue"
    provisioning_worker_poll_seconds ← int "PROVISIONING_WORKER_POLL_SECONDS" "2"
    provisioning_job_max_attempts ← int "PROVISIONING_JOB_MAX_ATTEMPTS" "3"
    provisioning_retry_base_seconds ← int "PROVISIONING_RETRY_BASE_SECONDS" "5"
    azure_storage_queue_account_url ← text "AZURE_STORAGE_QUEUE_ACCOUNT_URL" ""
    azure_storage_queue_connection_string ← text "AZURE_STORAGE_QUEUE_CONNECTION_STRING" ""
    azure_storage_queue_name ← text "AZURE_STORAGE_QUEUE_NAME" "provisioning-jobs"
    azure_storage_queue_dead_letter_queue_name ←
        text "AZURE_STORAGE_QUEUE_DEAD_LETTER_QUEUE_NAME" "provisioning-jobs-deadletter"
    azure_service_bus_fully_qualified_namespace ←
        text "AZURE_SERVICE_BUS_FULLY_QUALIFIED_NAMESPACE" ""
    azure_service_bus_connection_string ← text "AZURE_SERVICE_BUS_CONNECTION_STRING" ""
    azure_service_bus_queue_name ← text "AZURE_SERVICE_BUS_QUEUE_NAME" "provisioning-jobs"
    azure_service_bus_dead_letter_queue_name ←
        text "AZURE_SERVICE_BUS_DEAD_LETTER_QUEUE_NAME" "provisioning-jobs-deadletter"
    azure_ai_project_endpoint ← text "AZURE_AI_PROJECT_ENDPOINT" ""
    azure_ai_project_api_key ← text "AZURE_AI_PROJECT_API_KEY" ""
    foundry_run_poll_interval_seconds ← at_least (pos 1) "FOUNDRY_RUN_POLL_INTERVAL_SECONDS" "1"
    azure_use_managed_identity ← flag "AZURE_USE_MANAGED_IDENTITY" true
    azure_managed_identity_client_id ← text "AZURE_MANAGED_IDENTITY_CLIENT_ID" ""
    allow_api_key_fallback ← flag "ALLOW_API_KEY_FALLBACK" false
    key_vault_url ← text "KEY_VAULT_URL" ""
    raw_keys ← text "TENANT_API_KEYS_JSON" ""
    tenant_api_keys ← lift (parse_tenant_api_keys json_loads literal_eval raw_keys)
    rate_limit_backend ← text "RATE_LIMIT_BACKEND" "memory"
    rate_limit_redis_url ← text "RATE_LIMIT_REDIS_URL" ""
    rate_limit_redis_key_prefix ← text "RATE_LIMIT_REDIS_KEY_PREFIX" "saas:ratelimit"
    rate_limit_redis_fail_open ← flag "RATE_LIMIT_REDIS_FAIL_OPEN" true
    jwt_jwks_url ← text "JWT_JWKS_URL" ""
    jwt_issuer ← text "JWT_ISSUER" ""
    jwt_audience ← text "JWT_AUDIENCE" ""
    jwt_jwks_cache_ttl_seconds ← int "JWT_JWKS_CACHE_TTL_SECONDS" "300"
    jwt_shared_secret ← text "JWT_SHARED_SECRET" ""
    jwt_algorithm ← text "JWT_ALGORITHM" "HS256"
    default_rate_limit_rpm ← int "DEFAULT_RATE_LIMIT_RPM" "60"
    postgres_pool_size ← at_least (pos 1) "POSTGRES_POOL_SIZE" "3"
    postgres_max_overflow ← at_least (pos 0) "POSTGRES_MAX_OVERFLOW" "0"
    postgres_pool_timeout_seconds ← at_least (pos 1) "POSTGRES_POOL_TIMEOUT_SECONDS" "10"
    postgres_pool_recycle_seconds ← at_least (pos 30) "POSTGRES_POOL_RECYCLE_SECONDS" "900"
    pure (record {
      app_env = app_env;
      tenant_catalog_dsn = tenant_catalog_dsn;
      provisioning_queue_backend = provisioning_queue_backend;
      provisioning_worker_poll_seconds = provisioning_worker_poll_seconds;
      provisioning_job_max_attempts = provisioning_job_max_attempts;
      provisioning_retry_base_seconds = provisioning_retry_base_seconds;
      azure_storage_queue_account_url = azure_storage_queue_account_url;
      azure_storage_queue_connection_string = azure_storage_queue_connection_string;
      azure_storage_queue_name = azure_storage_queue_name;
      azure_storage_queue_dead_letter_queue_name = azure_storage_queue_dead_letter_queue_name;
      azure_service_bus_fully_qualified_namespace = azure_service_bus_fully_qualified_namespace;
      azure_service_bus_connection_string = azure_service_bus_connection_string;
      azure_service_bus_queue_name = azure_service_bus_queue_name;
      azure_service_bus_dead_letter_queue_name = azure_service_bus_dead_letter_queue_name;
      azure_ai_project_endpoint = azure_ai_project_endpoint;
      azure_ai_project_api_key = azure_ai_project_api_key;
      azure_use_managed_identity = azure_use_managed_identity;
      azure_managed_identity_client_id = azure_managed_identity_client_id;
      allow_api_key_fallback = allow_api_key_fallback;
      key_vault_url = key_vault_url;
      tenant_api_keys = tenant_api_keys;
      rate_limit_backend = rate_limit_backend;
      rate_limit_redis_url = rate_limit_redis_url;
      rate_limit_redis_key_prefix = rate_limit_redis_key_prefix;
      rate_limit_redis_fail_open = rate_limit_redis_fail_open;
      jwt_jwks_url = jwt_jwks_url;
      jwt_issuer = jwt_issuer;
      jwt_audience = jwt_audience;
      jwt_jwks_cache_ttl_seconds = jwt_jwks_cache_ttl_seconds;
      jwt_shared_secret = jwt_shared_secret;
      jwt_algorithm = jwt_algorithm;
      default_rate_limit_rpm = default_rate_limit_rpm;
      postgres_pool_size = postgres_pool_size;
      postgres_max_overflow = postgres_max_overflow;
      postgres_pool_timeout_seconds = postgres_pool_timeout_seconds;
      postgres_pool_recycle_seconds = postgres_pool_recycle_seconds;
      foundry_run_poll_interval_seconds = foundry_run_poll_interval_seconds;
    })
