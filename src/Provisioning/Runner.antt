-- ===== src/Provisioning/Runner.antt =====
-- src/saas_platform/provisioning/runner.py over the queue and the catalog of a context. Of the endless
-- loop the rounds are modelled whose clock readings are given; the sleep after a round is its result.
use hosted_agents_saa_s_plat.Prelude.{
  String, Bool, Option, none, some, List, [], ◌∷◌, ℤ, pos, max_ℤ, if◌then◌else◌,
}
use hosted_agents_saa_s_plat.Config.{Settings}
use hosted_agents_saa_s_plat.Domain.Action.{Action, Raised, pure, ◌>>=◌}
use hosted_agents_saa_s_plat.Domain.Models.{Datetime}
use hosted_agents_saa_s_plat.Domain.Interfaces.{TenantCatalog, ProvisioningQueue}
use hosted_agents_saa_s_plat.Provisioning.Worker.{process_next_job}

module _ {S : Type 0} (text_of : Raised → String) (queue : ProvisioningQueue S)
    (catalog : TenantCatalog S) (settings : Settings) where
  -- `times` are the two readings of the clock by the worker
  unfoldable pub run_worker_once : Datetime × Datetime → Action S Bool
  run_worker_once times =
      process_next_job text_of queue catalog settings.provisioning_job_max_attempts
        settings.provisioning_retry_base_seconds times.0 times.1

  -- `time.sleep(max(poll_seconds, 1))`, where nothing was processed
  abbrev pub sleep_after : Bool → Option ℤ
  sleep_after processed =
      if processed then none else some (max_ℤ settings.provisioning_worker_poll_seconds (pos 1))

  unfoldable pub run_worker_rounds : List (Datetime × Datetime) → Action S (List (Option ℤ))
  unfolding run_worker_once
  run_worker_rounds [] = pure []
  run_worker_rounds (times ∷ later) = run_worker_once times >>= λ processed.
      run_worker_rounds later >>= λ sleeps. pure (sleep_after processed ∷ sleeps)
