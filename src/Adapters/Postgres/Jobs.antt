-- ===== src/Adapters/Postgres/Jobs.antt =====
-- `PostgresProvisioningQueue`. `locked` tells the jobs whose rows other sessions have locked when a
-- claim is made. The readings of the clock by one call are one.
pub mod Claim
pub mod Once
pub mod Marks
use hosted_agents_saa_s_plat.Prelude.{
  string_eq, ℕ, ◌+◌, String, Bool, true, false, ◌||◌, ◌&&◌, not, Option, none, some, List, [], ◌∷◌,
  leb, ltb, ◌==◌, ℤ, pos, ◌+ℤ◌, pos_part, max_ℤ, if◌then◌else◌,
}
use mathlib.Core.Option.{map as map_option}
use hosted_agents_saa_s_plat.Text.{prefix}
use hosted_agents_saa_s_plat.Domain.Action.{Action, Outcome, ok, Raised, raise, pure}
use hosted_agents_saa_s_plat.Domain.Models.{
  Datetime, JobState, queued, running, done, dead_letter, ProvisioningJob,
}
use hosted_agents_saa_s_plat.Domain.Interfaces.{ProvisioningQueue}
use hosted_agents_saa_s_plat.Adapters.Database.{Table, add, modify}
use hosted_agents_saa_s_plat.Adapters.Storage.Queue.{
  key_of, seconds, is_queued, overflows, overflow_error,
}
use hosted_agents_saa_s_plat.Adapters.Storage.Memory.{reads, writes, runs}

pub record ProvisioningJobRow : Type 0 where
  pub job_id : String
  pub idempotency_key : String
  pub tenant_id : String
  pub step : String
  pub state : JobState
  pub retries : ℤ
  pub max_attempts : ℤ
  pub error : Option String
  pub available_at : Datetime
  pub created_at : Datetime
  pub updated_at : Datetime

abbrev pub same_key : ProvisioningJobRow → ProvisioningJobRow → Bool
same_key r x = r.idempotency_key == x.idempotency_key

abbrev pub new_job_row : Datetime → ProvisioningJob → ProvisioningJobRow
new_job_row now job = record {
  job_id = job.job_id;
  idempotency_key = key_of job;
  tenant_id = job.tenant_id;
  step = job.step;
  state = queued;
  retries = job.retries;
  max_attempts = max_ℤ job.max_attempts (pos 1);
  error = job.error;
  available_at = job.available_at;
  created_at = now;
  updated_at = now;
}

abbrev pub job_of_row : ProvisioningJobRow → ProvisioningJob
job_of_row row = record {
  job_id = row.job_id;
  tenant_id = row.tenant_id;
  step = row.step;
  idempotency_key = Option.some row.idempotency_key;
  state = row.state;
  retries = row.retries;
  max_attempts = row.max_attempts;
  error = row.error;
  created_at = row.created_at;
  available_at = row.available_at;
}

-- `state == "queued", available_at <= now`
abbrev pub row_due : Datetime → ProvisioningJobRow → Bool
row_due now row = is_queued row.state && leb row.available_at now

-- `order_by(available_at, created_at)`
abbrev pub before : ProvisioningJobRow → ProvisioningJobRow → Bool
before a b =
    ltb a.available_at b.available_at
    || (leb a.available_at b.available_at && leb a.created_at b.created_at)

-- `limit(1)` and `scalar_one_or_none()`
abbrev pub first_row : List ProvisioningJobRow → Option ProvisioningJobRow
first_row [] = none
first_row (row ∷ rows) = some row

abbrev pub start_row : Datetime → ProvisioningJobRow → ProvisioningJobRow
start_row now row = record row { state = running; updated_at = now }

abbrev pub finish_row : Datetime → ProvisioningJobRow → ProvisioningJobRow
finish_row now row = record row { state = done; updated_at = now }

abbrev pub postpone_row : Datetime → String → ℤ → ProvisioningJobRow → ProvisioningJobRow
postpone_row now error retry_in_seconds row = record row {
  state = queued;
  retries = row.retries +ℤ pos 1;
  error = some (prefix 500 error);
  available_at = now + seconds (pos_part retry_in_seconds);
  updated_at = now;
}

abbrev pub bury_row : Datetime → String → ProvisioningJobRow → ProvisioningJobRow
bury_row now error row = record row {
  state = dead_letter;
  retries = row.retries +ℤ pos 1;
  error = some (prefix 500 error);
  updated_at = now;
}

module _ {S : Type 0} (jobs : Table String ProvisioningJobRow S) where
  -- the jobs that the query for the key gave; a job whose id is empty counts as none
  abbrev pub add_unless : List ProvisioningJobRow → ProvisioningJobRow → Action S (Unit {0})
  add_unless [] row = add jobs row
  add_unless (x ∷ []) row = if x.job_id == "" then add jobs row else pure tt
  add_unless (x ∷ y ∷ rows) row =
      raise (
        Raised.error "MultipleResultsFound"
          "Multiple rows were found when one or none was required")

  abbrev pub with_key : String → S → List ProvisioningJobRow
  with_key key = jobs.select (λ x. x.idempotency_key == key) (λ _ _. true)

  unfoldable pub enqueue : Datetime → ProvisioningJob → Action S (Unit {0})
  unfolding key_of
  enqueue now job s = add_unless (with_key (key_of job) s) (new_job_row now job) s

  abbrev pub start_found : Datetime → Option ProvisioningJobRow → S → Option ProvisioningJob × S
  start_found now none s = (none, s)
  start_found now (some row) s =
      (some (job_of_row (start_row now row)), jobs.update (start_row now row) s)

  unfoldable pub claim_next : (String → Bool) → Datetime → S → Option ProvisioningJob × S
  claim_next locked now s =
      start_found now
        (first_row (jobs.select (λ row. row_due now row && not (locked row.job_id)) before s)) s

  unfoldable pub mark_done : Datetime → String → S → S
  mark_done now job_id = modify jobs job_id (finish_row now)

  -- An exception of the new time leaves the session without a commit.
  abbrev pub postpone_found :
      Datetime → String → ℤ → Option ProvisioningJobRow → Action S (Unit {0})
  postpone_found now error retry_in_seconds none = pure tt
  postpone_found now error retry_in_seconds (some row) =
      if overflows now retry_in_seconds
      then raise (overflow_error retry_in_seconds)
      else writes (jobs.update (postpone_row now error retry_in_seconds row))

  unfoldable pub mark_retry : Datetime → String → String → ℤ → Action S (Unit {0})
  mark_retry now job_id error retry_in_seconds s =
      postpone_found now error retry_in_seconds (jobs.find job_id s) s

  unfoldable pub mark_dead_letter : Datetime → String → String → S → S
  mark_dead_letter now job_id error = modify jobs job_id (bury_row now error)

  unfoldable pub get_job : String → S → Option ProvisioningJob
  get_job job_id s = map_option job_of_row (jobs.find job_id s)

  -- `now` is what the methods read whose interface shows no clock
  abbrev pub provisioning_queue : (String → Bool) → Datetime → ProvisioningQueue S
  provisioning_queue locked now = record {
    enqueue = enqueue now;
    claim_next = λ time. runs (claim_next locked time);
    mark_done = λ i. writes (mark_done now i);
    mark_retry = λ time i error delay. mark_retry time i error delay;
    mark_dead_letter = λ i error. writes (mark_dead_letter now i error);
    get_job = λ i. reads (get_job i);
  }
