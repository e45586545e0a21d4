-- ===== src/Provisioning/Worker/Outcomes.antt =====
-- What `process_next_job` of worker.py does over the in-memory catalog and queue.
use hosted_agents_saa_s_plat.Prelude.{
  string_eq, string_eq_iff, String, Bool, true, false, ◌≡◌, ◌≢◌, refl, none, some, ◌==◌, ℤ, arith,
  Option-cases, inl, inr, if◌then◌else◌,
}
use hosted_agents_saa_s_plat.Collections.Dict.{get, get-put}
use hosted_agents_saa_s_plat.Domain.Action.{Action, Raised, Outcome, ok}
use hosted_agents_saa_s_plat.Domain.Models.{
  Datetime, Tenant, pending, active, ProvisioningJob, running,
}
use hosted_agents_saa_s_plat.Domain.Interfaces.{TenantCatalog, ProvisioningQueue}
use hosted_agents_saa_s_plat.Adapters.Storage.Catalog.{Tenants, upsert_tenant, get_tenant}
use hosted_agents_saa_s_plat.Adapters.Storage.Queue.{
  JobQueue, claim_next, mark_done, mark_dead_letter, finish, bury,
}
use hosted_agents_saa_s_plat.Adapters.Storage.Queue.Valid.{
  IsValid, mark_done-IsValid, mark_dead_letter-IsValid,
}
use hosted_agents_saa_s_plat.Adapters.Storage.Queue.Claim.{
  Claimed, claim_next_Claimed, claim_next_idle, claim_next-IsValid,
}
use hosted_agents_saa_s_plat.Adapters.Storage.Queue.Once.{get-mark_done, get-mark_dead_letter}
use hosted_agents_saa_s_plat.Adapters.Storage.Memory
use hosted_agents_saa_s_plat.Provisioning.Worker.{process_next_job}

-- the two stores that the worker touches
abbrev pub Stores : Type 0
Stores = Tenants × JobQueue

abbrev on_left : {A : Type 0} → Action Tenants A → Action Stores A
on_left m (t, q) = let (r, t') = m t in (r, (t', q))

abbrev on_right : {A : Type 0} → Action JobQueue A → Action Stores A
on_right m (t, q) = let (r, q') = m q in (r, (t, q'))

abbrev pub catalog : TenantCatalog Stores
catalog = record {
  upsert_tenant = λ t. on_left (Memory.tenant_catalog.upsert_tenant t);
  get_tenant = λ i. on_left (Memory.tenant_catalog.get_tenant i);
}

abbrev pub queue : ProvisioningQueue Stores
queue = record {
  enqueue = λ job. on_right (Memory.provisioning_queue.enqueue job);
  claim_next = λ now. on_right (Memory.provisioning_queue.claim_next now);
  mark_done = λ i. on_right (Memory.provisioning_queue.mark_done i);
  mark_retry = λ now i e d. on_right (Memory.provisioning_queue.mark_retry now i e d);
  mark_dead_letter = λ i e. on_right (Memory.provisioning_queue.mark_dead_letter i e);
  get_job = λ i. on_right (Memory.provisioning_queue.get_job i);
}

abbrev activated : Tenant → Tenants → Tenants
activated tenant tenants = elim tenant.status [
  | active ↦ tenants
  | pending ↦ upsert_tenant (record tenant { status = active }) tenants
]

get-activated :
    (tenant : Tenant) (tenants : Tenants) (k i : String)
    → get_tenant k tenants ≡ some tenant
    → tenant.tenant_id ≡ k
    → get_tenant i (activated tenant tenants)
      ≡ (if k == i then some (record tenant { status = active }) else get_tenant i tenants)
unfolding get_tenant upsert_tenant
get-activated tenant tenants k i t own = ground (
  arith,
  get-put tenants tenant.tenant_id i (record tenant { status = active }),
  string_eq_iff k i,
)

module _ (text_of : Raised → String) (default_max_attempts retry_base_seconds : ℤ)
    (claimed_at failed_at : Datetime) where
  abbrev pub process : Stores → Outcome Bool × Stores
  process =
      process_next_job text_of queue catalog default_max_attempts retry_base_seconds claimed_at
        failed_at

  module _ (tenants : Tenants) (q : JobQueue) where
    process_claimed :
        (job : ProvisioningJob) (tenant : Tenant)
        → (claim_next claimed_at q).0 ≡ some job
        → get_tenant job.tenant_id tenants ≡ some tenant
        → process (tenants, q)
          ≡ (ok true, (activated tenant tenants, mark_done job.job_id (claim_next claimed_at q).1))
    unfolding process_next_job
    process_claimed job tenant c t = ground (arith)

    process_orphan :
        (job : ProvisioningJob)
        → (claim_next claimed_at q).0 ≡ some job
        → get_tenant job.tenant_id tenants ≡ none
        → process (tenants, q) ≡ (
          ok false,
          (tenants, mark_dead_letter job.job_id "tenant not found" (claim_next claimed_at q).1),
        )
    unfolding process_next_job
    process_orphan job c t = ground (arith)

    process_idle :
        (claim_next claimed_at q).0 ≡ none → process (tenants, q) ≡ (ok false, (tenants, q))
    unfolding process_next_job
    process_idle c = rw (claim_next_idle claimed_at q c) refl

    -- With a job claimed from a well-formed queue, whose tenant is stored under its own id, the
    -- worker answers true, the tenant is active and otherwise unchanged, the job is done, every
    -- other tenant and job is as before, and the queue stays well formed.
    pub process-completes :
        (job : ProvisioningJob) (tenant : Tenant)
        → IsValid q
        → (claim_next claimed_at q).0 ≡ some job
        → get_tenant job.tenant_id tenants ≡ some tenant
        → tenant.tenant_id ≡ job.tenant_id
        → let (r, (tenants', q')) = process (tenants, q) in
          (r ≡ ok true)
          × ((i : String)
              → get_tenant i tenants' ≡ (
                  if job.tenant_id == i
                  then some (record tenant { status = active })
                  else get_tenant i tenants))
          × ((i : String)
              → get q'.jobs i ≡ (if job.job_id == i then some (finish job) else get q.jobs i))
          × IsValid q'
    process-completes job tenant v c t own = rw (process_claimed job tenant c t) (
      refl,
      λ i. tenant_after i,
      λ i. job_after i,
      mark_done-IsValid job.job_id _ (claim_next-IsValid claimed_at q v),
    )
      where
        claimed : Claimed claimed_at q job (claim_next claimed_at q).1
        claimed = claim_next_Claimed claimed_at q job v c

        tenant_after :
            (i : String)
            → get_tenant i (activated tenant tenants) ≡ (
                if job.tenant_id == i
                then some (record tenant { status = active })
                else get_tenant i tenants)
        tenant_after i = get-activated tenant tenants job.tenant_id i t own

        job_after :
            (i : String)
            → get (mark_done job.job_id (claim_next claimed_at q).1).jobs i
              ≡ (if job.job_id == i then some (finish job) else get q.jobs i)
        job_after i = rw (get-mark_done) (ground (arith, claimed.others i))

    -- A job claimed from a well-formed queue whose tenant is not stored: the worker answers false,
    -- no tenant changes, the job is dead with one attempt more and the reason, every other job is
    -- as before, and the queue stays well formed.
    pub process-buries :
        (job : ProvisioningJob)
        → IsValid q
        → (claim_next claimed_at q).0 ≡ some job
        → get_tenant job.tenant_id tenants ≡ none
        → let (r, (tenants', q')) = process (tenants, q) in
          (r ≡ ok false)
          × (tenants' ≡ tenants)
          × ((i : String)
              → get q'.jobs i
                ≡ (if job.job_id == i then some (bury "tenant not found" job) else get q.jobs i))
          × IsValid q'
    process-buries job v c t = rw (process_orphan job c t) (
      refl,
      refl,
      λ i.
          rw get-mark_dead_letter
            (ground (arith, (claim_next_Claimed claimed_at q job v c).others i)),
      mark_dead_letter-IsValid job.job_id "tenant not found" _ (claim_next-IsValid claimed_at q v),
    )

-- No job is marked as running: no worker is at work, or died at work.
pub record IsSettled (q : JobQueue) : Type 0 where
  pub not_running : (i : String) (j : ProvisioningJob) → get q.jobs i ≡ some j → j.state ≢ running

module _ (text_of : Raised → String) (default_max_attempts retry_base_seconds : ℤ)
    (claimed_at failed_at : Datetime) (tenants : Tenants) (q : JobQueue) where
  -- If the queue is well formed, no job is running and each tenant is stored under its own id, the
  -- worker does not raise over the in-memory adapters, and after it the queue is well formed and no
  -- job is running.
  pub process-IsSettled :
      IsValid q
      → IsSettled q
      → ((i : String) (t : Tenant) → get_tenant i tenants ≡ some t → t.tenant_id ≡ i)
      → let (r, (tenants', q')) =
          process text_of default_max_attempts retry_base_seconds claimed_at failed_at
            (tenants, q) in
        ((b : Bool) × (r ≡ ok b)) × IsValid q' × IsSettled q'
  process-IsSettled v s own = elim (Option-cases (claim_next claimed_at q).0) [
    | inl idle ↦
        rw
          (process_idle text_of default_max_attempts retry_base_seconds claimed_at failed_at tenants
            q idle)
          ((false, refl), v, s)
    | inr (job, c) ↦ elim (Option-cases (get_tenant job.tenant_id tenants)) [
      | inl orphan ↦
          let (r, same, jobs, v') =
            process-buries text_of default_max_attempts retry_base_seconds claimed_at failed_at
              tenants q job v c orphan in
          (
            (false, r),
            v',
            record { not_running = λ i j g. ground (arith, jobs i, s.not_running i j) },
          )
      | inr (tenant, t) ↦
          let (r, tenants', jobs, v') =
            process-completes text_of default_max_attempts retry_base_seconds claimed_at failed_at
              tenants q job tenant v c t (own job.tenant_id tenant t) in
          (
            (true, r),
            v',
            record { not_running = λ i j g. ground (arith, jobs i, s.not_running i j) },
          )
    ]
  ]
