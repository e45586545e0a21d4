-- ===== src/Adapters/Storage/Queue.antt =====
-- `InMemoryProvisioningQueue`. A job object that the queue mutates is the one stored under its id.
pub mod Once
pub mod Valid
pub mod Claim
use Prim.Native.String.{◌++◌ as text_append}
use hosted_agents_saa_s_plat.Prelude.{
  string_eq, ℕ, ◌+◌, ◌*◌, String, Bool, true, false, ◌||◌, ◌&&◌, not, Option, none, some, List, [],
  ◌∷◌, ◌++◌, ◌/◌, leb, ltb, ◌==◌, ℤ, pos, ◌+ℤ◌, pos_part, sorted, if◌then◌else◌,
}
use hosted_agents_saa_s_plat.Collections.Dict.{Dict, values, any, get, put}
use hosted_agents_saa_s_plat.Text.{prefix}
use hosted_agents_saa_s_plat.Text.Decimal.{decimal}
use hosted_agents_saa_s_plat.Domain.Action.{Action, Outcome, ok, err, Raised}
use hosted_agents_saa_s_plat.Domain.Models.{
  Datetime, JobState, queued, running, done, dead_letter, ProvisioningJob,
}

pub record JobQueue : Type 0 where
  pub jobs : Dict String ProvisioningJob
  pub job_order : List String

abbrev pub empty : JobQueue
empty = record { jobs = []; job_order = [] }

-- `job.idempotency_key or job.job_id`
abbrev key_or : Option String → String → String
key_or none job_id = job_id
key_or (some key) job_id = if key == "" then job_id else key

unfoldable pub key_of : ProvisioningJob → String
key_of job = key_or job.idempotency_key job.job_id

-- `existing.idempotency_key == idempotency_key`
abbrev has_key_opt : Option String → String → Bool
has_key_opt none key = false
has_key_opt (some k) key = k == key

unfoldable pub has_key : String → ProvisioningJob → Bool
has_key key existing = has_key_opt existing.idempotency_key key

-- `timedelta(seconds=n)` in microseconds
abbrev pub seconds : ℕ → ℕ
seconds n = 1000000 * n

-- `datetime.now(...) + timedelta(seconds=max(retry_in_seconds, 0))` is after `datetime.max`
unfoldable pub overflows : Datetime → ℤ → Bool
overflows now retry_in_seconds = ltb 253402300799999999 (now + seconds (pos_part retry_in_seconds))

-- the exception of the `timedelta`, if its days are too many, or else that of the sum
unfoldable pub overflow_error : ℤ → Raised
unfolding decimal
overflow_error retry_in_seconds =
    let days = pos_part retry_in_seconds / 86400 in
    Raised.error "OverflowError" (
      if leb 2147483648 days
      then "Python int too large to convert to C int"
      else if leb 1000000000 days
      then text_append "days=" (text_append (decimal days) "; must have magnitude <= 999999999")
      else "date value out of range")

unfoldable pub enqueue : ProvisioningJob → JobQueue → JobQueue
enqueue job q =
    let idempotency_key = key_of job in
    if any (has_key idempotency_key) (values q.jobs)
    then q
    else let fresh = record job { idempotency_key = some idempotency_key; state = queued } in
      record { jobs = put q.jobs fresh.job_id fresh; job_order = q.job_order ++ fresh.job_id ∷ [] }

abbrev cons_some : Option ProvisioningJob → List ProvisioningJob → List ProvisioningJob
cons_some none rest = rest
cons_some (some job) rest = job ∷ rest

-- `[self._jobs[job_id] for job_id in self._job_order if job_id in self._jobs]`
unfoldable pub candidates : Dict String ProvisioningJob → List String → List ProvisioningJob
candidates jobs [] = []
candidates jobs (job_id ∷ rest) = cons_some (get jobs job_id) (candidates jobs rest)

abbrev pub earlier : ProvisioningJob → ProvisioningJob → Bool
earlier a b = leb a.available_at b.available_at

abbrev pub is_queued : JobState → Bool
is_queued queued = true
is_queued _ = false

-- the negation of `job.state != "queued" or job.available_at > now`
unfoldable pub is_due : Datetime → ProvisioningJob → Bool
is_due now job = is_queued job.state && leb job.available_at now

-- the `for` of `claim_next`
unfoldable pub first_due : Datetime → List ProvisioningJob → Option ProvisioningJob
first_due now [] = none
first_due now (job ∷ rest) =
    let later = first_due now rest in if is_due now job then some job else later

abbrev start_job : Option ProvisioningJob → JobQueue → Option ProvisioningJob × JobQueue
start_job none q = (none, q)
start_job (some job) q =
    let started = record job { state = running } in
    (some started, record q { jobs = put q.jobs job.job_id started })

unfoldable pub claim_next : Datetime → JobQueue → Option ProvisioningJob × JobQueue
claim_next now q = elim q.jobs [
  | [] ↦ (none, q)
  | _ ∷ _ ↦ start_job (first_due now (sorted earlier (candidates q.jobs q.job_order))) q
]

-- a write to the job with this id, if there is one
abbrev pub update_found :
    (ProvisioningJob → ProvisioningJob) → String → Option ProvisioningJob → JobQueue → JobQueue
update_found f job_id none q = q
update_found f job_id (some job) q = record q { jobs = put q.jobs job_id (f job) }

abbrev pub update : (ProvisioningJob → ProvisioningJob) → String → JobQueue → JobQueue
update f job_id q = update_found f job_id (get q.jobs job_id) q

abbrev pub finish : ProvisioningJob → ProvisioningJob
finish job = record job { state = done }

-- Where the new time overflows, the exception leaves the other fields written.
abbrev pub postpone : Datetime → String → ℤ → ProvisioningJob → ProvisioningJob
postpone now error retry_in_seconds job = record job {
  state = queued;
  retries = job.retries +ℤ pos 1;
  error = some (prefix 500 error);
  available_at =
      if overflows now retry_in_seconds
      then job.available_at
      else now + seconds (pos_part retry_in_seconds);
}

abbrev pub retry_outcome : Datetime → ℤ → Option ProvisioningJob → Outcome (Unit {0})
retry_outcome now retry_in_seconds none = ok tt
retry_outcome now retry_in_seconds (some job) =
    if overflows now retry_in_seconds then err (overflow_error retry_in_seconds) else ok tt

abbrev pub bury : String → ProvisioningJob → ProvisioningJob
bury error job = record job {
  state = dead_letter;
  retries = job.retries +ℤ pos 1;
  error = some (prefix 500 error);
}

unfoldable pub mark_done : String → JobQueue → JobQueue
mark_done = update finish

unfoldable pub mark_retry : Datetime → String → String → ℤ → Action JobQueue (Unit {0})
mark_retry now job_id error retry_in_seconds q = (
  retry_outcome now retry_in_seconds (get q.jobs job_id),
  update (postpone now error retry_in_seconds) job_id q,
)

unfoldable pub mark_dead_letter : String → String → JobQueue → JobQueue
mark_dead_letter job_id error = update (bury error) job_id

unfoldable pub get_job : String → JobQueue → Option ProvisioningJob
get_job job_id q = get q.jobs job_id
