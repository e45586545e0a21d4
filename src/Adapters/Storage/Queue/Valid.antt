-- ===== src/Adapters/Storage/Queue/Valid.antt =====
-- The well-formed queue of storage.py: what each operation keeps.
use hosted_agents_saa_s_plat.Prelude.{
  string_eq, string_eq_iff, ℕ, String, true, ◌≡◌, refl, Option, none, some, List, [], ◌∷◌, ◌++◌,
  ◌==◌, ℤ, arith, ◌∙◌, contains, Bool-cases, inl, inr, ◌||◌, ==_refl,
}
use hosted_agents_saa_s_plat.Collections.Dict.{values, any, get, put, dict_laws, get-put}
use hosted_agents_saa_s_plat.Domain.Models.{ProvisioningJob, queued}
use hosted_agents_saa_s_plat.Adapters.Storage.Queue.{
  JobQueue, empty, key_of, has_key, enqueue, start_job, update_found, mark_done, mark_retry,
  mark_dead_letter,
}

-- Each job is stored under its own id, and the order lists its id.
pub record IsValid (q : JobQueue) : Type 0 where
  pub own_id : (i : String) (j : ProvisioningJob) → get q.jobs i ≡ some j → j.job_id ≡ i
  pub listed :
      (i : String) (j : ProvisioningJob) → get q.jobs i ≡ some j → contains i q.job_order ≡ true

-- The empty queue is well formed.
pub empty-IsValid : IsValid empty
empty-IsValid = record {
  own_id = λ i j h. grind (arith, dict_laws);
  listed = λ i j h. grind (arith, dict_laws);
}

contains-append_one :
    (xs : List String) (a b : String) → contains b (xs ++ a ∷ []) ≡ (b == a || contains b xs)
contains-append_one [] a b = ground arith
contains-append_one (x ∷ xs) a b = ground (arith, contains-append_one xs a b)

-- a job written under its own id, which the order lists
put-IsValid :
    (q : JobQueue) (order : List String) (job : ProvisioningJob)
    → IsValid q
    → contains job.job_id order ≡ true
    → ((i : String) → contains i q.job_order ≡ true → contains i order ≡ true)
    → IsValid (record { jobs = put q.jobs job.job_id job; job_order = order })
put-IsValid q order job v here more = record {
  own_id = λ i j h.
      ground (arith, v.own_id i j, get-put q.jobs job.job_id i job, string_eq_iff job.job_id i);
  listed = λ i j h.
      ground
        (arith, v.listed i j, more i, get-put q.jobs job.job_id i job, string_eq_iff job.job_id i);
}

pub enqueue-IsValid : (job : ProvisioningJob) (q : JobQueue) → IsValid q → IsValid (enqueue job q)
unfolding enqueue
enqueue-IsValid job q v = elim (Bool-cases (any (has_key (key_of job)) (values q.jobs))) [
  | inl known ↦ rw known v
  | inr fresh ↦ rw fresh (
      put-IsValid q (q.job_order ++ job.job_id ∷ [])
        (record job { idempotency_key = some (key_of job); state = queued }) v
        (rw contains-append_one (ground (arith, ==_refl job.job_id)))
        (λ i h. rw contains-append_one (ground arith)))
]

pub start_job-IsValid :
    (found : Option ProvisioningJob) (q : JobQueue)
    → ((j : ProvisioningJob) → found ≡ some j → get q.jobs j.job_id ≡ some j)
    → IsValid q
    → IsValid (start_job found q).1
start_job-IsValid none q stored v = v
start_job-IsValid (some job) q stored v =
    put-IsValid q q.job_order _ v (v.listed job.job_id job (stored job refl)) (λ i h. h)

update_found-IsValid :
    (f : ProvisioningJob → ProvisioningJob) (i : String) (found : Option ProvisioningJob)
    (q : JobQueue)
    → ((j : ProvisioningJob) → (f j).job_id ≡ j.job_id)
    → get q.jobs i ≡ found
    → IsValid q
    → IsValid (update_found f i found q)
update_found-IsValid f i none q keeps stored v = v
update_found-IsValid f i (some job) q keeps stored v =
    let own : (f job).job_id ≡ i = keeps job ∙ v.own_id i job stored in
    rw (← own) (put-IsValid q q.job_order (f job) v (rw own (v.listed i job stored)) (λ j h. h))

-- Each of the marks keeps the queue well formed.
pub mark_done-IsValid : (i : String) (q : JobQueue) → IsValid q → IsValid (mark_done i q)
unfolding mark_done
mark_done-IsValid i q v = update_found-IsValid _ i _ q (λ j. refl) refl v

pub mark_retry-IsValid :
    (now : ℕ) (i error : String) (delay : ℤ) (q : JobQueue)
    → IsValid q
    → IsValid (mark_retry now i error delay q).1
unfolding mark_retry
mark_retry-IsValid now i error delay q v = update_found-IsValid _ i _ q (λ j. refl) refl v

pub mark_dead_letter-IsValid :
    (i error : String) (q : JobQueue) → IsValid q → IsValid (mark_dead_letter i error q)
unfolding mark_dead_letter
mark_dead_letter-IsValid i error q v = update_found-IsValid _ i _ q (λ j. refl) refl v
