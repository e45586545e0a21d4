-- ===== src/Provisioning/Worker.antt =====
-- `process_next_job` of src/saas_platform/provisioning/worker.py, over any queue and catalog, each
-- call of which may raise. Spans and log lines are not modelled. The text of an exception,
-- `str(err)`, is the argument `text_of`.
pub mod Outcomes
pub mod Retries
pub mod Backoff
use hosted_agents_saa_s_plat.Prelude.{
  ◌*◌, ◌^◌, String, Bool, true, false, Option, none, some, ℤ, pos, ◌+ℤ◌, pos_part, leb_ℤ, max_ℤ,
  if◌then◌else◌,
}
use hosted_agents_saa_s_plat.Domain.Action.{Action, Raised, pure, ◌>>=◌, ◌>>◌, catch}
use hosted_agents_saa_s_plat.Domain.Models.{
  Datetime, Tenant, TenantStatus, pending, active, ProvisioningJob,
}
use hosted_agents_saa_s_plat.Domain.Interfaces.{TenantCatalog, ProvisioningQueue}

-- `max(job.max_attempts, default_max_attempts, 1)`
unfoldable pub attempts_allowed : ℤ → ProvisioningJob → ℤ
attempts_allowed default_max_attempts job =
    max_ℤ (max_ℤ job.max_attempts default_max_attempts) (pos 1)

-- `max(retry_base_seconds, 0) * (2 ** max(job.retries, 0))`
unfoldable pub delay_seconds : ℤ → ProvisioningJob → ℤ
delay_seconds retry_base_seconds job = pos (pos_part retry_base_seconds * 2 ^ pos_part job.retries)

module _ {S : Type 0} (text_of : Raised → String) (queue : ProvisioningQueue S)
    (catalog : TenantCatalog S) where
  abbrev activate_from : TenantStatus → Tenant → Action S (Unit {0})
  activate_from active tenant = pure tt
  activate_from pending tenant = catalog.upsert_tenant (record tenant { status = active })

  abbrev finish_with : ProvisioningJob → Option Tenant → Action S Bool
  finish_with job none = do queue.mark_dead_letter job.job_id "tenant not found"; pure false
  finish_with job (some tenant) = do
    activate_from tenant.status tenant
    queue.mark_done job.job_id
    pure true

  -- the body of the `try`
  unfoldable pub attempt : ProvisioningJob → Action S Bool
  attempt job = do tenant ← catalog.get_tenant job.tenant_id; finish_with job tenant

  -- the `except`; `now` is when `mark_retry` reads the clock
  unfoldable pub on_error : ℤ → ℤ → Datetime → ProvisioningJob → Raised → Action S Bool
  unfolding attempts_allowed delay_seconds
  on_error default_max_attempts retry_base_seconds now job e =
      if leb_ℤ (attempts_allowed default_max_attempts job) (job.retries +ℤ pos 1)
      then (do queue.mark_dead_letter job.job_id (text_of e); pure false)
      else (do
        queue.mark_retry now job.job_id (text_of e) (delay_seconds retry_base_seconds job)
        pure false)

  abbrev process : ℤ → ℤ → Datetime → Option ProvisioningJob → Action S Bool
  process default_max_attempts retry_base_seconds now none = pure false
  process default_max_attempts retry_base_seconds now (some job) =
      catch (attempt job) (on_error default_max_attempts retry_base_seconds now job)

  -- `claimed_at` and `failed_at` are the two readings of the clock
  unfoldable pub process_next_job : ℤ → ℤ → Datetime → Datetime → Action S Bool
  unfolding attempt on_error
  process_next_job default_max_attempts retry_base_seconds claimed_at failed_at = do
    job ← queue.claim_next claimed_at
    process default_max_attempts retry_base_seconds failed_at job
