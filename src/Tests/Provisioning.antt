-- ===== src/Tests/Provisioning.antt =====
-- The queue of storage.py and the worker, on a queue of one or two jobs.
use hosted_agents_saa_s_plat.Prelude.{
  string_eq, string_eq_iff, ◌||◌, ◌+ℤ◌, String, Bool, true, false, ◌≡◌, ◌↔◌, refl, none, some, List,
  [], ◌∷◌, ◌==◌, pos, inl, if◌then◌else◌, arith,
}
use hosted_agents_saa_s_plat.Text.{prefix}
use hosted_agents_saa_s_plat.Collections.Dict.{get, put, any, values}
use hosted_agents_saa_s_plat.Domain.Action.{Raised, error, ok, err}
use hosted_agents_saa_s_plat.Domain.Models.{
  Datetime, Tenant, ProvisioningJob, new_job, new_tenant, running, queued, dead_letter, active,
}
use hosted_agents_saa_s_plat.Adapters.Storage.Catalog.{Tenants, get_tenant}
use hosted_agents_saa_s_plat.Adapters.Storage.Queue.{
  JobQueue, empty, enqueue, key_of, candidates, is_due, first_due, claim_next, finish, bury,
  overflow_error,
}
use hosted_agents_saa_s_plat.Adapters.Storage.Queue.Valid.{IsValid, empty-IsValid, enqueue-IsValid}
use hosted_agents_saa_s_plat.Adapters.Storage.Queue.Claim.{
  Claimed, claim_next_Claimed, claim_next_none_iff,
}
use hosted_agents_saa_s_plat.Adapters.Storage.Queue.Once.{enqueue_once}
use hosted_agents_saa_s_plat.Provisioning.Worker.{attempts_allowed}
use hosted_agents_saa_s_plat.Provisioning.Worker.Outcomes.{
  IsSettled, process, process-completes, process-buries, process-IsSettled,
}
use hosted_agents_saa_s_plat.Provisioning.Worker.Backoff.{
  exhausted, wait, next_attempt, too_late, poll_fails,
}
use hosted_agents_saa_s_plat.Provisioning.Worker.Retries.{
  Attempted, Bounded, attempts_of, polls, poll, polls-Attempted,
}

abbrev first_job : ProvisioningJob
first_job = new_job "j1" "t1" "bootstrap" "t1:bootstrap" (pos 3) 10 10

abbrev second_job : ProvisioningJob
second_job = new_job "j2" "t1" "bootstrap" "t1:bootstrap" (pos 3) 20 20

abbrev one_job : JobQueue
one_job = enqueue first_job empty

one_job-IsValid : IsValid one_job
one_job-IsValid = enqueue-IsValid first_job empty empty-IsValid

stored_first : get one_job.jobs "j1" ≡ some first_job
unfolding enqueue get put key_of any values
stored_first = refl

claims_first : (claim_next 15 one_job).0 ≡ some (record first_job { state = running })
unfolding claim_next enqueue get put key_of any values candidates first_due is_due
claims_first = refl

enqueue_once_example : enqueue second_job (enqueue first_job empty) ≡ enqueue first_job empty
enqueue_once_example = enqueue_once first_job second_job empty same_key
  where
    same_key : key_of second_job ≡ key_of first_job
    same_key = unfold key_of in refl

claim_next_Claimed_example :
    Claimed 15 one_job (record first_job { state = running }) (claim_next 15 one_job).1
claim_next_Claimed_example =
    claim_next_Claimed 15 one_job (record first_job { state = running }) one_job-IsValid
      claims_first

claim_next_none_iff_example :
    ((claim_next 5 one_job).0 ≡ none)
    ↔ ((i : String) (k : ProvisioningJob) → get one_job.jobs i ≡ some k → is_due 5 k ≡ false)
claim_next_none_iff_example = claim_next_none_iff 5 one_job one_job-IsValid

abbrev text_of : Raised → String
text_of e = "the tenant store is down"

abbrev down : Raised
down = error "ConnectionError" "down"

abbrev poll_times : List (Datetime × Datetime)
poll_times = (15, 16) ∷ (17, 18) ∷ (9000000, 9000001) ∷ []

first_job-Bounded : Bounded text_of down (pos 3) (pos 2) first_job
unfolding attempts_allowed
first_job-Bounded = inl (refl, ground arith)

polls-Attempted_example :
    Attempted text_of down
      (pos 3)
      (pos 2)
      (attempts_of text_of down (pos 3) (pos 2) "j1" poll_times one_job)
      "j1"
      first_job
      (polls text_of down (pos 3) (pos 2) poll_times one_job)
polls-Attempted_example =
    polls-Attempted text_of down (pos 3) (pos 2) poll_times "j1" one_job first_job one_job-IsValid
      stored_first first_job-Bounded

abbrev pending_tenant : Tenant
pending_tenant = new_tenant "t1" "Acme" "starter" 10

abbrev one_tenant : Tenants
one_tenant = ("t1", pending_tenant) ∷ []

poll_fails_example :
    let running_job : ProvisioningJob = record first_job { state = running } in
    let (r, q') = poll text_of down (pos 3) (pos 2) (15, 16) one_job in
    (r ≡ (
      if exhausted text_of down (pos 3) (pos 2) running_job
      then ok false
      else if too_late text_of down (pos 3) (pos 2) 16 running_job
      then err (overflow_error (pos (wait text_of down (pos 3) (pos 2) running_job)))
      else ok false))
    × ((i : String)
        → get q'.jobs i ≡ (
            if "j1" == i
            then some (record first_job {
              state =
                  if exhausted text_of down (pos 3) (pos 2) running_job
                  then dead_letter
                  else queued;
              retries = pos 0 +ℤ pos 1;
              error = some (prefix 500 (text_of down));
              available_at =
                  if exhausted text_of down (pos 3) (pos 2) running_job
                    || too_late text_of down (pos 3) (pos 2) 16 running_job
                  then 10
                  else next_attempt text_of down (pos 3) (pos 2) 16 running_job;
            })
            else get one_job.jobs i))
    × IsValid q'
poll_fails_example =
    poll_fails text_of down (pos 3) (pos 2) 15 16 one_job (record first_job { state = running })
      one_job-IsValid claims_first

get_tenant_first : get_tenant "t1" one_tenant ≡ some pending_tenant
unfolding get_tenant get
get_tenant_first = refl

process-completes_example :
    let (r, (tenants', q')) = process text_of (pos 3) (pos 2) 15 16 (one_tenant, one_job) in
    (r ≡ ok true)
    × ((i : String)
        → get_tenant i tenants' ≡ (
            if "t1" == i
            then some (record pending_tenant { status = active })
            else get_tenant i one_tenant))
    × ((i : String)
        → get q'.jobs i ≡ (
            if "j1" == i
            then some (finish (record first_job { state = running }))
            else get one_job.jobs i))
    × IsValid q'
process-completes_example =
    process-completes text_of (pos 3) (pos 2) 15 16 one_tenant one_job
      (record first_job { state = running }) pending_tenant one_job-IsValid claims_first
      get_tenant_first refl

get_tenant_nobody : get_tenant "t1" [] ≡ none
unfolding get_tenant get
get_tenant_nobody = refl

process-buries_example :
    let (r, (tenants', q')) = process text_of (pos 3) (pos 2) 15 16 ([], one_job) in
    (r ≡ ok false)
    × (tenants' ≡ [])
    × ((i : String)
        → get q'.jobs i ≡ (
            if "j1" == i
            then some (bury "tenant not found" (record first_job { state = running }))
            else get one_job.jobs i))
    × IsValid q'
process-buries_example =
    process-buries text_of (pos 3) (pos 2) 15 16 [] one_job (record first_job { state = running })
      one_job-IsValid claims_first get_tenant_nobody

one_job-IsSettled : IsSettled one_job
unfolding enqueue get put key_of any values
one_job-IsSettled = record { not_running = λ i j g. ground (arith) }

one_tenant_keyed : (i : String) (t : Tenant) → get_tenant i one_tenant ≡ some t → t.tenant_id ≡ i
unfolding get_tenant get
one_tenant_keyed i t h = ground (arith, string_eq_iff "t1" i)

process-IsSettled_example :
    let (r, (tenants', q')) = process text_of (pos 3) (pos 2) 15 16 (one_tenant, one_job) in
    ((b : Bool) × (r ≡ ok b)) × IsValid q' × IsSettled q'
process-IsSettled_example =
    process-IsSettled text_of (pos 3) (pos 2) 15 16 one_tenant one_job one_job-IsValid
      one_job-IsSettled one_tenant_keyed
