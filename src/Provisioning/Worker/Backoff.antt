-- ===== src/Provisioning/Worker/Backoff.antt =====
-- One poll of worker.py while the tenant store fails: the limit of the attempts and the delay.
use native.Mathlib.Nat.{mul-add, two-pow-succ}
use native.Mathlib.Numerals.{unary_clauses}
use hosted_agents_saa_s_plat.Prelude.{
  string_eq, String, Bool, false, ◌&&◌, ◌||◌, ◌≡◌, refl, ◌∙◌, some, ◌==◌, ℤ, pos, ◌+ℤ◌, leb_ℤ, ltb,
  pos_part, ℕ, zero, suc, ◌+◌, ◌*◌, ◌^◌, arith, Bool-cases, inl, inr, if◌then◌else◌,
}
use hosted_agents_saa_s_plat.Text.{prefix}
use hosted_agents_saa_s_plat.Collections.Dict.{get}
use hosted_agents_saa_s_plat.Domain.Action.{Raised, ok, err}
use hosted_agents_saa_s_plat.Domain.Models.{Datetime, ProvisioningJob, queued, dead_letter}
use hosted_agents_saa_s_plat.Adapters.Storage.Queue.{
  JobQueue, claim_next, overflows, overflow_error,
}
use hosted_agents_saa_s_plat.Adapters.Storage.Queue.Valid.{IsValid}
use hosted_agents_saa_s_plat.Provisioning.Worker.{attempts_allowed, delay_seconds}
use hosted_agents_saa_s_plat.Provisioning.Worker.Retries.{poll, poll_result, after_failure, is_last}

-- the seconds to wait after a number of retries: the base, and twice as long after each more
pub backoff : ℕ → ℕ → ℕ
backoff base zero = base
backoff base (suc retries) = 2 * backoff base retries

backoff_lem : (base n : ℕ) → base * 2 ^ n ≡ backoff base n
unfolding backoff
backoff_lem base zero = simp unary_clauses (omega arith)
backoff_lem base (suc n) =
    rw (two-pow-succ n, mul-add base (2 ^ n) (2 ^ n), backoff_lem base n) (omega arith)

module _ (text_of : Raised → String) (e : Raised)
    (default_max_attempts retry_base_seconds : ℤ) where
  -- no attempt is left: the retries after this one reach each of the three limits
  abbrev pub exhausted : ProvisioningJob → Bool
  exhausted job =
      let retries = job.retries +ℤ pos 1 in
      leb_ℤ job.max_attempts retries && leb_ℤ default_max_attempts retries && leb_ℤ (pos 1) retries

  -- the seconds of the delay, and the time of the next attempt
  abbrev pub wait : ProvisioningJob → ℕ
  wait job = backoff (pos_part retry_base_seconds) (pos_part job.retries)

  abbrev pub next_attempt : Datetime → ProvisioningJob → ℕ
  next_attempt failed_at job = failed_at + 1000000 * wait job

  -- the time of the next attempt is after the year 9999
  abbrev pub too_late : Datetime → ProvisioningJob → Bool
  too_late failed_at job = ltb 253402300799999999 (next_attempt failed_at job)

  exhausted-eq :
      (job : ProvisioningJob)
      → is_last text_of e default_max_attempts retry_base_seconds job ≡ exhausted job
  unfolding attempts_allowed
  exhausted-eq job = ground arith

  delay-eq : (job : ProvisioningJob) → delay_seconds retry_base_seconds job ≡ pos (wait job)
  unfolding delay_seconds
  delay-eq job = rw backoff_lem refl

  after_failure-eq :
      (failed_at : Datetime) (job : ProvisioningJob)
      → after_failure text_of e default_max_attempts retry_base_seconds failed_at job ≡ record job {
        state = if exhausted job then dead_letter else queued;
        retries = job.retries +ℤ pos 1;
        error = some (prefix 500 (text_of e));
        available_at =
            if exhausted job || too_late failed_at job
            then job.available_at
            else next_attempt failed_at job;
      }
  unfolding after_failure overflows
  after_failure-eq failed_at job =
      rw (exhausted-eq job, delay-eq job)
        (elim (Bool-cases (exhausted job)) [
          | inl last ↦ rw last refl
          | inr more ↦ elim (Bool-cases (too_late failed_at job)) [
            | inl late ↦ rw (more, late) refl
            | inr fits ↦ rw (more, fits) refl
          ]
        ])

  -- While every read of a tenant fails, take a poll that claims a job from a well-formed queue. If the
  -- retries of the job, with this one, reach its own limit, the default limit and one, the poll answers
  -- false and the job is a dead letter that keeps its time. Else the job is queued again, to be tried
  -- after the base delay, doubled once for each retry before; the poll answers false, or raises an
  -- OverflowError if that time is after the year 9999, and then the job keeps its time. In each case
  -- its retries grow by one, it has the first 500 characters of the reason as its error, every other
  -- job is as before, and the queue stays well formed.
  pub poll_fails :
      (claimed_at failed_at : Datetime) (q : JobQueue) (job : ProvisioningJob)
      → IsValid q
      → (claim_next claimed_at q).0 ≡ some job
      → let (r, q') =
          poll text_of e default_max_attempts retry_base_seconds (claimed_at, failed_at) q in
        (r ≡ (
          if exhausted job
          then ok false
          else if too_late failed_at job
          then err (overflow_error (pos (wait job)))
          else ok false))
        × ((i : String)
            → get q'.jobs i ≡ (
                if job.job_id == i
                then some (record job {
                  state = if exhausted job then dead_letter else queued;
                  retries = job.retries +ℤ pos 1;
                  error = some (prefix 500 (text_of e));
                  available_at =
                      if exhausted job || too_late failed_at job
                      then job.available_at
                      else next_attempt failed_at job;
                })
                else get q.jobs i))
        × IsValid q'
  unfolding overflows
  poll_fails claimed_at failed_at q job v c =
      let (answer, jobs, v') =
        poll_result text_of e default_max_attempts retry_base_seconds claimed_at failed_at q job v
          c in
      (
        answer ∙ rw (exhausted-eq job, delay-eq job) refl,
        (λ i. jobs i ∙ rw (after_failure-eq failed_at job) refl),
        v',
      )
