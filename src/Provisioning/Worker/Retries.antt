-- ===== src/Provisioning/Worker/Retries.antt =====
-- A tenant store that always fails: how `process_next_job` of worker.py retries, and when it stops.
use hosted_agents_saa_s_plat.Prelude.{
  string_eq, string_eq_iff, ==_refl, String, Bool, true, false, ◌≡◌, refl, ap, sym, ◌∙◌, Option,
  none, some, List, [], ◌∷◌, ◌==◌, ℤ, pos, ◌+ℤ◌, ◌<ℤ◌, leb_ℤ, int_laws, +ℤ_parts, eq_of_parts, ℕ,
  ◌+◌, arith, Bool-cases, Option-cases, inl, inr, ◌⊎◌, if◌then◌else◌,
}
use mathlib.Core.Path.{subst}
use hosted_agents_saa_s_plat.Collections.Dict.{get}
use hosted_agents_saa_s_plat.Domain.Action.{Raised, Outcome, ok, err, raise, pure, ◌>>◌}
use hosted_agents_saa_s_plat.Domain.Models.{Datetime, ProvisioningJob, queued, running, dead_letter}
use hosted_agents_saa_s_plat.Domain.Interfaces.{TenantCatalog}
use hosted_agents_saa_s_plat.Adapters.Storage.Queue.{
  JobQueue, claim_next, mark_retry, postpone, bury, overflows, overflow_error,
}
use hosted_agents_saa_s_plat.Adapters.Storage.Queue.Valid.{
  IsValid, mark_retry-IsValid, mark_dead_letter-IsValid,
}
use hosted_agents_saa_s_plat.Adapters.Storage.Queue.Claim.{
  claim_next_Claimed, claim_next_idle, claim_next-IsValid,
}
use hosted_agents_saa_s_plat.Adapters.Storage.Queue.Once.{get-mark_retry, get-mark_dead_letter}
use hosted_agents_saa_s_plat.Adapters.Storage.Memory.{provisioning_queue}
use hosted_agents_saa_s_plat.Provisioning.Worker.{process_next_job, attempts_allowed, delay_seconds}

-- every read of a tenant raises `e`
abbrev pub failing : Raised → TenantCatalog JobQueue
failing e = record { upsert_tenant = λ tenant. raise e; get_tenant = λ tenant_id. raise e }

last_attempt : (a r : ℤ) → r <ℤ a → leb_ℤ a (r +ℤ pos 1) ≡ true → r +ℤ pos 1 ≡ a
last_attempt a r h l = eq_of_parts _ _ (ground (arith, +ℤ_parts r (pos 1)))

attempt_left : (a r : ℤ) → leb_ℤ a (r +ℤ pos 1) ≡ false → r +ℤ pos 1 <ℤ a
attempt_left a r l = ground (arith, +ℤ_parts r (pos 1))

add_zero : (r : ℤ) → r ≡ r +ℤ pos 0
add_zero r = omega int_laws

add_both : (r s : ℤ) (m n : ℕ) → s ≡ r +ℤ pos m → s +ℤ pos n ≡ r +ℤ pos (m + n)
add_both r s m n h = rw h (omega int_laws)

after_retry :
    (now : Datetime) (i error : String) (delay : ℤ) (q : JobQueue) (job : ProvisioningJob)
    → get q.jobs i ≡ some job
    → (mark_retry now i error delay >> pure false) q ≡ (
      (if overflows now delay then err (overflow_error delay) else ok false),
      (mark_retry now i error delay q).1,
    )
unfolding mark_retry
after_retry now i error delay q job g = elim (Bool-cases (overflows now delay)) [
  | inl late ↦ rw (g, late) refl
  | inr fits ↦ rw (g, fits) refl
]

module _ (text_of : Raised → String) (e : Raised)
    (default_max_attempts retry_base_seconds : ℤ) where
  -- what a failed attempt leaves of the job
  unfoldable pub after_failure : Datetime → ProvisioningJob → ProvisioningJob
  after_failure failed_at job =
      if leb_ℤ (attempts_allowed default_max_attempts job) (job.retries +ℤ pos 1)
      then bury (text_of e) job
      else postpone failed_at (text_of e) (delay_seconds retry_base_seconds job) job

  pub poll : Datetime × Datetime → JobQueue → Outcome Bool × JobQueue
  poll (claimed_at, failed_at) =
      process_next_job text_of provisioning_queue (failing e) default_max_attempts
        retry_base_seconds claimed_at failed_at

  abbrev pub is_last : ProvisioningJob → Bool
  is_last job = leb_ℤ (attempts_allowed default_max_attempts job) (job.retries +ℤ pos 1)

  pub poll_result :
      (claimed_at failed_at : Datetime) (q : JobQueue) (job : ProvisioningJob)
      → IsValid q
      → (claim_next claimed_at q).0 ≡ some job
      → let (r, q') = poll (claimed_at, failed_at) q in
        let delay = delay_seconds retry_base_seconds job in
        (r ≡ (
          if is_last job
          then ok false
          else if overflows failed_at delay
          then err (overflow_error delay)
          else ok false))
        × ((i : String)
            → get q'.jobs i
              ≡ (if job.job_id == i then some (after_failure failed_at job) else get q.jobs i))
        × IsValid q'
  unfolding poll process_next_job after_failure
  poll_result claimed_at failed_at q job v c =
      let claimed = claim_next_Claimed claimed_at q job v c in
      let v' = claim_next-IsValid claimed_at q v in
      elim (Bool-cases (is_last job)) [
        | inl last ↦
            rw (c, last)
              (
                refl,
                λ i. rw get-mark_dead_letter (ground (arith, claimed.others i)),
                mark_dead_letter-IsValid _ _ _ v',
              )
        | inr more ↦
            rw
              (
                c,
                more,
                after_retry failed_at job.job_id (text_of e) (delay_seconds retry_base_seconds job)
                    (claim_next claimed_at q).1 job
                    (claimed.others job.job_id ∙ rw (==_refl job.job_id) refl),
              )
              (
                refl,
                λ i. rw get-mark_retry (ground (arith, claimed.others i)),
                mark_retry-IsValid _ _ _ _ _ v',
              )
      ]

  -- an attempt is left, or the job is buried after exactly the allowed number of attempts
  abbrev pub Bounded : ProvisioningJob → Type 0
  Bounded j =
      ((j.state ≡ queued) × (j.retries <ℤ attempts_allowed default_max_attempts j))
      ⊎ ((j.state ≡ dead_letter) × (j.retries ≡ attempts_allowed default_max_attempts j))

  after_failure-Bounded :
      (failed_at : Datetime) (j : ProvisioningJob)
      → j.retries <ℤ attempts_allowed default_max_attempts j
      → Bounded (after_failure failed_at (record j { state = running }))
  unfolding after_failure attempts_allowed
  after_failure-Bounded failed_at j h =
      elim (Bool-cases (leb_ℤ (attempts_allowed default_max_attempts j) (j.retries +ℤ pos 1))) [
        | inl last ↦ rw last (inr (refl, last_attempt _ j.retries h last))
        | inr more ↦ rw more (inl (refl, attempt_left _ j.retries more))
      ]

  retries-after_failure :
      (failed_at : Datetime) (j : ProvisioningJob)
      → ((after_failure failed_at j).retries ≡ j.retries +ℤ pos 1)
        × ((after_failure failed_at j).max_attempts ≡ j.max_attempts)
  unfolding after_failure
  retries-after_failure failed_at j = ground arith

  pub polls : List (Datetime × Datetime) → JobQueue → JobQueue
  polls [] q = q
  polls (times ∷ rest) q = polls rest (poll times q).1

  abbrev has_id : String → Option ProvisioningJob → Bool
  has_id i none = false
  has_id i (some job) = job.job_id == i

  -- how many of the polls attempt the job
  pub attempts_of : String → List (Datetime × Datetime) → JobQueue → ℕ
  attempts_of i [] q = 0
  attempts_of i (times ∷ rest) q =
      (if has_id i (claim_next times.0 q).0 then 1 else 0) + attempts_of i rest (poll times q).1

  -- the job under an id, some attempts later
  pub record Attempted (n : ℕ) (i : String) (j : ProvisioningJob) (q : JobQueue) : Type 0 where
    pub job : ProvisioningJob
    pub stored : get q.jobs i ≡ some job
    pub counted : job.retries ≡ j.retries +ℤ pos n
    pub same_limit : job.max_attempts ≡ j.max_attempts
    pub bounded : Bounded job

  poll_idle :
      (times : Datetime × Datetime) (q : JobQueue)
      → (claim_next times.0 q).0 ≡ none
      → poll times q ≡ (ok false, q)
  unfolding poll process_next_job
  poll_idle times q c = rw (claim_next_idle times.0 q c) refl

  unattempted :
      (i : String) (j : ProvisioningJob) (q : JobQueue)
      → get q.jobs i ≡ some j
      → Bounded j
      → Attempted 0 i j q
  unattempted i j q g b = record {
    job = j;
    stored = g;
    counted = add_zero j.retries;
    same_limit = refl;
    bounded = b;
  }

  room :
      (j : ProvisioningJob)
      → Bounded j
      → j.state ≡ queued
      → j.retries <ℤ attempts_allowed default_max_attempts j
  room j (inl (_, h)) e = h
  room j (inr (dead, _)) e = absurd (cc)

  poll-claimed :
      (times : Datetime × Datetime) (q : JobQueue) (job j : ProvisioningJob)
      → IsValid q
      → (claim_next times.0 q).0 ≡ some job
      → get q.jobs job.job_id ≡ some j
      → Bounded j
      → Attempted 1 job.job_id j (poll times q).1
  poll-claimed times q job j v c g b =
      let claimed = claim_next_Claimed times.0 q job v c in
      let old_eq : claimed.stored ≡ j = cc (claimed.was_stored, g) in
      let job_eq : job ≡ record j { state = running } =
        claimed.now_running ∙ ap (λ (x : ProvisioningJob). record x { state = running }) old_eq in
      let free : j.retries <ℤ attempts_allowed default_max_attempts j =
        room j b (ap (λ (x : ProvisioningJob). x.state) (sym old_eq) ∙ claimed.was_queued) in
      record {
        job = after_failure times.1 (record j { state = running });
        stored =
            (poll_result times.0 times.1 q job v c).1 job.job_id
            ∙ rw (==_refl job.job_id) (ap (λ x. some (after_failure times.1 x)) job_eq);
        counted = (retries-after_failure times.1 (record j { state = running })).0;
        same_limit = (retries-after_failure times.1 (record j { state = running })).1;
        bounded = after_failure-Bounded times.1 j free;
      }

  poll-Attempted :
      (times : Datetime × Datetime) (i : String) (q : JobQueue) (j : ProvisioningJob)
      → IsValid q
      → get q.jobs i ≡ some j
      → Bounded j
      → Attempted (if has_id i (claim_next times.0 q).0 then 1 else 0) i j (poll times q).1
        × IsValid (poll times q).1
  poll-Attempted times i q j v g b = elim (Option-cases (claim_next times.0 q).0) [
    | inl idle ↦ rw (poll_idle times q idle, idle) (unattempted i j q g b, v)
    | inr (job, c) ↦
        let (r, after, v') = poll_result times.0 times.1 q job v c in
        elim (Bool-cases (job.job_id == i)) [
          | inr other ↦ rw (c, other) (unattempted i j _ (rw (after i, other) g) b, v')
          | inl same ↦
              rw (c, same)
                (
                  subst (λ k. get q.jobs k ≡ some j → Attempted 1 k j (poll times q).1)
                      ((string_eq_iff job.job_id i).0 same)
                      (λ g'. poll-claimed times q job j v c g' b) g,
                  v',
                )
        ]
  ]

  -- While every read of a tenant fails, take a job of a well-formed queue that has an attempt left
  -- or is a dead letter after all of them. However often and whenever the worker polls, it stays
  -- under its id, its retries grow by exactly the polls that attempt it, and it is queued while
  -- they are fewer than the attempts allowed and a dead letter once they reach them, never more.
  pub polls-Attempted :
      (times : List (Datetime × Datetime)) (i : String) (q : JobQueue) (j : ProvisioningJob)
      → IsValid q
      → get q.jobs i ≡ some j
      → Bounded j
      → Attempted (attempts_of i times q) i j (polls times q)
  unfolding polls attempts_of
  polls-Attempted [] i q j v g b = unattempted i j q g b
  polls-Attempted (t ∷ times) i q j v g b =
      let (first, v') = poll-Attempted t i q j v g b in
      let later = polls-Attempted times i (poll t q).1 first.job v' first.stored first.bounded in
      record {
        job = later.job;
        stored = later.stored;
        counted = later.counted ∙ add_both j.retries first.job.retries _ _ first.counted;
        same_limit = later.same_limit ∙ first.same_limit;
        bounded = later.bounded;
      }
