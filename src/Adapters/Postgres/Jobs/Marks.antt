-- ===== src/Adapters/Postgres/Jobs/Marks.antt =====
-- What the marks of a job leave of every job, as `get_job` finds it.
use hosted_agents_saa_s_plat.Prelude.{
  string_eq, String, ◌≡◌, refl, ap, ◌∙◌, Option, none, some, ◌==◌, ℤ, Bool, true, false, Bool-cases,
  inl, inr, if◌then◌else◌,
}
use mathlib.Core.Option.{map as map_option}
use hosted_agents_saa_s_plat.Domain.Models.{Datetime, ProvisioningJob}
use hosted_agents_saa_s_plat.Adapters.Database.{Table, modify, change_found}
use hosted_agents_saa_s_plat.Adapters.Database.Laws.{TableLaws}
use hosted_agents_saa_s_plat.Adapters.Database.Changes.{modified, modify_lem}
use hosted_agents_saa_s_plat.Adapters.Storage.Queue.{finish, postpone, bury, overflows}
use hosted_agents_saa_s_plat.Adapters.Postgres.Jobs.{
  ProvisioningJobRow, same_key, job_of_row, finish_row, postpone_row, bury_row, mark_done,
  mark_retry, mark_dead_letter, get_job, postpone_found,
}
use hosted_agents_saa_s_plat.Adapters.Postgres.Jobs.Claim.{job_key}

-- a job under an id, once the job under `i` was changed
abbrev pub changed_job :
    (ProvisioningJob → ProvisioningJob)
    → String
    → String
    → Option ProvisioningJob
    → Option ProvisioningJob
changed_job change i j found = if i == j then map_option change found else found

map-modified :
    (here : Bool) (change : ProvisioningJobRow → ProvisioningJobRow)
    (as_job : ProvisioningJob → ProvisioningJob) (found : Option ProvisioningJobRow)
    → ((row : ProvisioningJobRow) → job_of_row (change row) ≡ as_job (job_of_row row))
    → map_option job_of_row (if here then modified change found else found) ≡ (
        if here
        then map_option as_job (map_option job_of_row found)
        else map_option job_of_row found)
map-modified false change as_job found same = refl
map-modified true change as_job none same = refl
map-modified true change as_job (some row) same = ap some (same row)

module _ {S : Type 0} (jobs : Table String ProvisioningJobRow S)
    (laws : TableLaws job_key same_key jobs) (now : Datetime) (i j : String) (s : S) where
  marked_job :
      (change : ProvisioningJobRow → ProvisioningJobRow)
      (as_job : ProvisioningJob → ProvisioningJob)
      → ((row : ProvisioningJobRow) → (change row).job_id ≡ row.job_id)
      → ((row : ProvisioningJobRow) → job_of_row (change row) ≡ as_job (job_of_row row))
      → map_option job_of_row (jobs.find j (modify jobs i change s))
        ≡ changed_job as_job i j (map_option job_of_row (jobs.find j s))
  marked_job change as_job keyed same =
      ap (map_option job_of_row)
        (modify_lem job_key same_key jobs laws i change s j (λ row own. keyed row ∙ own))
      ∙ map-modified (i == j) change as_job (jobs.find j s) same

  kept :
      (error : String) (delay : ℤ) (found : Option ProvisioningJobRow)
      → overflows now delay ≡ true
      → (postpone_found jobs now error delay found s).1 ≡ s
  kept error delay none late = refl
  kept error delay (some row) late = rw late refl

  postponed :
      (error : String) (delay : ℤ) (found : Option ProvisioningJobRow)
      → overflows now delay ≡ false
      → (postpone_found jobs now error delay found s).1
        ≡ change_found jobs (postpone_row now error delay) found s
  postponed error delay none fits = refl
  postponed error delay (some row) fits = rw fits refl

  -- A mark through Postgres makes of the job with the id, where there is one, what the mark of the
  -- in-memory queue makes of it, and leaves every other job as it was; but a retry whose new time
  -- overflows leaves every job as it was.
  pub get_job-marks :
      (error : String) (delay : ℤ)
      → (get_job jobs j (mark_done jobs now i s) ≡ changed_job finish i j (get_job jobs j s))
        × (get_job jobs j (mark_retry jobs now i error delay s).1 ≡ (
            if overflows now delay
            then get_job jobs j s
            else changed_job (postpone now error delay) i j (get_job jobs j s)))
        × (get_job jobs j (mark_dead_letter jobs now i error s)
            ≡ changed_job (bury error) i j (get_job jobs j s))
  unfolding get_job mark_done mark_retry mark_dead_letter
  get_job-marks error delay = (
    marked_job (finish_row now) finish (λ row. refl) (λ row. refl),
    elim (Bool-cases (overflows now delay)) [
      | inl late ↦
          rw late (
            ap (λ x. map_option job_of_row (jobs.find j x)) (kept error delay (jobs.find i s) late))
      | inr fits ↦ rw fits (
          ap (λ x. map_option job_of_row (jobs.find j x))
            (postponed error delay (jobs.find i s) fits)
          ∙ marked_job (postpone_row now error delay) (postpone now error delay) (λ row. refl)
              (λ row. rw fits refl))
    ],
    marked_job (bury_row now error) (bury error) (λ row. refl) (λ row. refl),
  )
