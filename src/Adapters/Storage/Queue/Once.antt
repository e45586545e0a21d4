-- ===== src/Adapters/Storage/Queue/Once.antt =====
-- Idempotency keys of the in-memory queue, and what each operation leaves of every job.
use hosted_agents_saa_s_plat.Prelude.{
  string_eq, string_eq_iff, ==_refl, String, true, false, ◌≡◌, refl, Option, none, some, ◌==◌, ℤ,
  arith, Bool-cases, inl, inr, if◌then◌else◌,
}
use hosted_agents_saa_s_plat.Collections.Dict.{values, any, get, get-put, any-put}
use hosted_agents_saa_s_plat.Domain.Models.{Datetime, ProvisioningJob, queued}
use hosted_agents_saa_s_plat.Adapters.Storage.Queue.{
  JobQueue, key_of, has_key, enqueue, update_found, finish, postpone, bury, mark_done, mark_retry,
  mark_dead_letter,
}

key_known :
    (job : ProvisioningJob) (q : JobQueue)
    → any (has_key (key_of job)) (values (enqueue job q).jobs) ≡ true
unfolding enqueue
key_known job q = elim (Bool-cases (any (has_key (key_of job)) (values q.jobs))) [
  | inl known ↦ rw known known
  | inr fresh ↦
      rw fresh (
        any-put (has_key (key_of job)) q.jobs job.job_id _ (unfold has_key in ==_refl (key_of job)))
]

-- A second job with the idempotency key of one that was enqueued changes nothing.
pub enqueue_once :
    (first second : ProvisioningJob) (q : JobQueue)
    → key_of second ≡ key_of first
    → enqueue second (enqueue first q) ≡ enqueue first q
enqueue_once first second q same = ignored (rw same (key_known first q))
  where
    ignored :
        any (has_key (key_of second)) (values (enqueue first q).jobs) ≡ true
        → enqueue second (enqueue first q) ≡ enqueue first q
    ignored h = unfold enqueue in rw h refl

-- A job whose key is new is stored, queued, under its id, and no other job changes.
pub get-enqueue :
    (job : ProvisioningJob) (q : JobQueue) (i : String)
    → any (has_key (key_of job)) (values q.jobs) ≡ false
    → get (enqueue job q).jobs i ≡ (
        if job.job_id == i
        then some (record job { idempotency_key = some (key_of job); state = queued })
        else get q.jobs i)
unfolding enqueue
get-enqueue job q i fresh = rw fresh (get-put q.jobs job.job_id i _)

-- a mark of the job under an id
abbrev marked :
    (ProvisioningJob → ProvisioningJob) → Option ProvisioningJob → Option ProvisioningJob
marked f none = none
marked f (some job) = some (f job)

get-update :
    (f : ProvisioningJob → ProvisioningJob) (q : JobQueue) (i j : String)
    (found : Option ProvisioningJob)
    → get q.jobs i ≡ found
    → get (update_found f i found q).jobs j
      ≡ (if i == j then marked f (get q.jobs j) else get q.jobs j)
get-update f q i j none e = ground (arith, string_eq_iff i j)
get-update f q i j (some job) e = ground (arith, get-put q.jobs i j (f job), string_eq_iff i j)

module _ (q : JobQueue) (i j : String) where
  pub get-mark_done :
      get (mark_done i q).jobs j ≡ (if i == j then marked finish (get q.jobs j) else get q.jobs j)
  unfolding mark_done
  get-mark_done = get-update finish q i j (get q.jobs i) refl

  pub get-mark_retry :
      (now : Datetime) (error : String) (delay : ℤ)
      → get (mark_retry now i error delay q).1.jobs j
        ≡ (if i == j then marked (postpone now error delay) (get q.jobs j) else get q.jobs j)
  unfolding mark_retry
  get-mark_retry now error delay = get-update (postpone now error delay) q i j (get q.jobs i) refl

  pub get-mark_dead_letter :
      (error : String)
      → get (mark_dead_letter i error q).jobs j
        ≡ (if i == j then marked (bury error) (get q.jobs j) else get q.jobs j)
  unfolding mark_dead_letter
  get-mark_dead_letter error = get-update (bury error) q i j (get q.jobs i) refl
