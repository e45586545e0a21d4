-- ===== src/Adapters/Postgres/Jobs/Once.antt =====
-- Idempotency keys of the Postgres queue.
use hosted_agents_saa_s_plat.Prelude.{
  string_eq, string_eq_iff, ==_refl, String, Bool, true, false, ◌||◌, ◌≡◌, ◌≢◌, refl, sym, ◌∙◌,
  Option, none, some, List, [], ◌∷◌, ◌==◌, arith, if◌then◌else◌, Bool-cases, inl, inr, Perm, All,
}
use mathlib.Core.List.Perm
use mathlib.Core.Path.{subst}
use hosted_agents_saa_s_plat.Collections.Dict.{any}
use hosted_agents_saa_s_plat.Domain.Action.{ok}
use hosted_agents_saa_s_plat.Domain.Models.{Datetime, ProvisioningJob}
use hosted_agents_saa_s_plat.Adapters.Storage.Queue.{key_of}
use hosted_agents_saa_s_plat.Adapters.Database.{Table, committed}
use hosted_agents_saa_s_plat.Adapters.Database.Laws.{TableLaws}
use hosted_agents_saa_s_plat.Adapters.Database.Changes.{Wrote, add_lem}
use hosted_agents_saa_s_plat.Adapters.Postgres.Jobs.{
  ProvisioningJobRow, same_key, new_job_row, add_unless, with_key, enqueue,
}
use hosted_agents_saa_s_plat.Adapters.Postgres.Jobs.Claim.{job_key}

one_of : {A : Type 0} (xs : List A) (a : A) → Perm xs (a ∷ []) → (x : A) × (xs ≡ x ∷ [])
one_of [] a p = let e = Perm.length-eq p in absurd (cc)
one_of (x ∷ []) a p = (x, refl)
one_of (x ∷ y ∷ xs) a p = let e = Perm.length-eq p in absurd (cc)

perm_at :
    {A : Type 0} {xs ys rows : List A} {r : A} (b : Bool)
    → b ≡ true
    → Perm xs (if b then r ∷ ys else ys)
    → xs ≡ rows
    → ys ≡ []
    → Perm rows (r ∷ [])
perm_at {xs} {ys} {rows} {r} b known p here empty =
    subst (λ z. Perm z (r ∷ [])) here (subst (λ z. Perm xs (r ∷ z)) empty (rw known at p))

clashes :
    (i key : String) (x : ProvisioningJobRow)
    → (x.idempotency_key == key) ≡ true
    → (i == x.job_id || key == x.idempotency_key) ≡ true
clashes i key x same =
    ground (arith, string_eq_iff x.idempotency_key key, string_eq_iff key x.idempotency_key)

-- the job of the row has another idempotency key
abbrev pub OtherKey : String → ProvisioningJobRow → Type 0
OtherKey key row = (row.idempotency_key == key) ≡ false

module _ {S : Type 0} (jobs : Table String ProvisioningJobRow S)
    (laws : TableLaws job_key same_key jobs) where
  abbrev Listed : String → S → ProvisioningJobRow → Type 0
  Listed key s x = ((x.idempotency_key == key) ≡ true) × (jobs.find x.job_id s ≡ some x)

  listed :
      (key : String) (s : S) (rows : List ProvisioningJobRow)
      → with_key jobs key s ≡ rows
      → All (Listed key s) rows
  listed key s rows e =
      subst (All (Listed key s)) e (laws.selected (λ x. x.idempotency_key == key) (λ _ _. true) s)

  -- no row has the key if the query gives none, and the other way round
  unlisted :
      (key : String) (s : S) (k : String) (x : ProvisioningJobRow)
      → with_key jobs key s ≡ []
      → jobs.find k s ≡ some x
      → OtherKey key x
  unfolding any
  unlisted key s k x e stored = elim (Bool-cases (x.idempotency_key == key)) [
    | inl same ↦
        let there =
          subst (λ rows. any (λ y. job_key y == k) rows ≡ true) e
            (laws.select_all (λ y. y.idempotency_key == key) (λ _ _. true) s k x stored same) in
        absurd (cc)
    | inr other ↦ other
  ]

  none_listed :
      (key : String) (s : S) (rows : List ProvisioningJobRow)
      → All (Listed key s) rows
      → ((k : String) (x : ProvisioningJobRow) → jobs.find k s ≡ some x → OtherKey key x)
      → rows ≡ []
  none_listed key s [] h fresh = refl
  none_listed key s (x ∷ rows) ((same, stored), h) fresh =
      let other = fresh x.job_id x stored in absurd (cc)

  -- A job whose id and whose idempotency key no row has is stored under its id, queued and with at
  -- least one attempt, and no other row changes.
  pub enqueue_new :
      (now : Datetime) (job : ProvisioningJob) (s : S)
      → jobs.find job.job_id s ≡ none
      → ((k : String) (x : ProvisioningJobRow) → jobs.find k s ≡ some x → OtherKey (key_of job) x)
      → Wrote jobs job.job_id (new_job_row now job) s (enqueue jobs now job)
  unfolding enqueue
  enqueue_new now job s free fresh =
      let empty =
        none_listed (key_of job) s (with_key jobs (key_of job) s) (listed (key_of job) s _ refl)
          fresh in
      rw empty (
        add_lem job_key same_key jobs laws (new_job_row now job) s free (λ k x stored. ground (
          arith,
          fresh k x stored,
          string_eq_iff (key_of job) x.idempotency_key,
          string_eq_iff x.idempotency_key (key_of job),
        )))

  -- the only row with the key, after a job with the key was added
  only_row :
      (now : Datetime) (job : ProvisioningJob) (s s' : S) (x : ProvisioningJobRow)
      → job.job_id ≢ ""
      → with_key jobs (key_of job) s ≡ []
      → jobs.insert (new_job_row now job) s ≡ some s'
      → Listed (key_of job) s' x
      → (x.job_id == "") ≡ false
  only_row now job s s' x named e stored (same, there) =
      let known = laws.find-insert (new_job_row now job) s s' x.job_id stored in
      elim (Bool-cases (job.job_id == x.job_id)) [
        | inl here ↦
            ground (arith, string_eq_iff job.job_id x.job_id, string_eq_iff x.job_id "", named)
        | inr old ↦
            let before = sym (rw old at known) ∙ there in
            let other = unlisted (key_of job) s x.job_id x e before in absurd (cc)
      ]

  added_once :
      (now : Datetime) (job : ProvisioningJob) (s s' : S) (next : ProvisioningJobRow)
      (rows : List ProvisioningJobRow)
      → job.job_id ≢ ""
      → with_key jobs (key_of job) s ≡ []
      → jobs.insert (new_job_row now job) s ≡ some s'
      → with_key jobs (key_of job) s' ≡ rows
      → add_unless jobs rows next s' ≡ (ok tt, s')
  added_once now job s s' next rows named e stored now_with =
      let p =
        laws.select-insert (λ y. y.idempotency_key == key_of job) (λ _ _. true)
          (new_job_row now job) s s' stored in
      let (x, only) =
        one_of rows (new_job_row now job)
          (perm_at (key_of job == key_of job) (==_refl (key_of job)) p now_with e) in
      let (found, _) = listed (key_of job) s' (x ∷ []) (now_with ∙ only) in
      let known = only_row now job s s' x named e stored found in
      subst (λ r. add_unless jobs r next s' ≡ (ok tt, s')) (sym only) (rw known refl)

  -- what a second enqueue finds, by the outcome of the first
  twice :
      (now : Datetime) (first : ProvisioningJob) (next : ProvisioningJobRow) (s : S)
      (stored : Option S)
      → first.job_id ≢ ""
      → with_key jobs (key_of first) s ≡ []
      → jobs.insert (new_job_row now first) s ≡ stored
      → (committed jobs stored s).0 ≡ ok tt
      → let s' = (committed jobs stored s).1 in
        add_unless jobs (with_key jobs (key_of first) s') next s' ≡ (ok tt, s')
  twice now first next s none named e stored done = absurd (cc)
  twice now first next s (some s') named e stored done =
      added_once now first s s' next (with_key jobs (key_of first) s') named e stored refl

  not_added : (o : Option S) (s : S) → o ≡ none → (committed jobs o s).0 ≢ ok tt
  not_added o s gone h = let h' = rw gone at h in cc

  enqueued_twice :
      (now : Datetime) (first : ProvisioningJob) (next : ProvisioningJobRow) (s : S)
      (rows : List ProvisioningJobRow)
      → first.job_id ≢ ""
      → with_key jobs (key_of first) s ≡ rows
      → (add_unless jobs rows (new_job_row now first) s).0 ≡ ok tt
      → let s' = (add_unless jobs rows (new_job_row now first) s).1 in
        add_unless jobs (with_key jobs (key_of first) s') next s' ≡ (ok tt, s')
  enqueued_twice now first next s [] named e done =
      twice now first next s (jobs.insert (new_job_row now first) s) named e refl done
  enqueued_twice now first next s (x ∷ []) named e done = elim (Bool-cases (x.job_id == "")) [
    | inl empty ↦
        let ((same, stored), _) = listed (key_of first) s (x ∷ []) e in
        let taken =
          laws.insert_taken (new_job_row now first) s x.job_id x stored
            (clashes first.job_id (key_of first) x same) in
        absurd (not_added _ s taken (rw empty at done))
    | inr other ↦ rw (other, e) (rw other refl)
  ]
  enqueued_twice now first next s (x ∷ y ∷ rows) named e done = absurd (cc)

  -- Once a job with a non-empty id was enqueued without an error, a job with the same idempotency key
  -- is enqueued without an error and changes nothing.
  pub enqueue_again :
      (now later : Datetime) (first second : ProvisioningJob) (s : S)
      → first.job_id ≢ ""
      → key_of second ≡ key_of first
      → (enqueue jobs now first s).0 ≡ ok tt
      → let s' = (enqueue jobs now first s).1 in enqueue jobs later second s' ≡ (ok tt, s')
  unfolding enqueue
  enqueue_again now later first second s named same done =
      let s' = (add_unless jobs (with_key jobs (key_of first) s) (new_job_row now first) s).1 in
      subst (λ k. add_unless jobs (with_key jobs k s') (new_job_row later second) s' ≡ (ok tt, s'))
        (sym same)
        (enqueued_twice now first (new_job_row later second) s (with_key jobs (key_of first) s)
          named refl done)
