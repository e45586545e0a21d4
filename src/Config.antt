-- ===== src/Config.antt =====
-- `Settings` of src/saas_platform/config.py.
pub mod Environment
use hosted_agents_saa_s_plat.Prelude.{String, Bool, ℤ}
use hosted_agents_saa_s_plat.Collections.Dict.{Dict}

pub record Settings : Type 0 where
  pub app_env : String
  pub tenant_catalog_dsn : String
  pub provisioning_queue_backend : String
  pub provisioning_worker_poll_seconds : ℤ
  pub provisioning_job_max_attempts : ℤ
  pub provisioning_retry_base_seconds : ℤ
  pub azure_storage_queue_account_url : String
  pub azure_storage_queue_connection_string : String
  pub azure_storage_queue_name : String
  pub azure_storage_queue_dead_letter_queue_name : String
  pub azure_service_bus_fully_qualified_namespace : String
  pub azure_service_bus_connection_string : String
  pub azure_service_bus_queue_name : String
  pub azure_service_bus_dead_letter_queue_name : String
  pub azure_ai_project_endpoint : String
  pub azure_ai_project_api_key : String
  pub azure_use_managed_identity : Bool
  pub azure_managed_identity_client_id : String
  pub allow_api_key_fallback : Bool
  pub key_vault_url : String
  pub tenant_api_keys : Dict String String
  pub rate_limit_backend : String
  pub rate_limit_redis_url : String
  pub rate_limit_redis_key_prefix : String
  pub rate_limit_redis_fail_open : Bool
  pub jwt_jwks_url : String
  pub jwt_issuer : String
  pub jwt_audience : String
  pub jwt_jwks_cache_ttl_seconds : ℤ
  pub jwt_shared_secret : String
  pub jwt_algorithm : String
  pub default_rate_limit_rpm : ℤ
  pub postgres_pool_size : ℤ
  pub postgres_max_overflow : ℤ
  pub postgres_pool_timeout_seconds : ℤ
  pub postgres_pool_recycle_seconds : ℤ
  pub foundry_run_poll_interval_seconds : ℤ
