-- ===== src/Api/Tenants/Creation.antt =====
-- What `create_tenant` of main.py leaves behind, over the in-memory adapters.
use hosted_agents_saa_s_plat.Prelude.{string_eq, String}
use hosted_agents_saa_s_plat.Domain.Models.{Datetime, ProvisioningJob, new_job}
use hosted_agents_saa_s_plat.Config.{Settings}
use hosted_agents_saa_s_plat.Adapters.Storage.Catalog.{Tenants}
use hosted_agents_saa_s_plat.Api.Tenants.{bootstrap_key}

-- the job that provisions a new tenant
abbrev pub bootstrap_job : Settings → String → String → Datetime → Datetime → ProvisioningJob
bootstrap_job settings tenant_id job_id created_at available_at =
    new_job job_id tenant_id "bootstrap" (bootstrap_key tenant_id)
      settings.provisioning_job_max_attempts created_at available_at
