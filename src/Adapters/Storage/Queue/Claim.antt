-- ===== src/Adapters/Storage/Queue/Claim.antt =====
-- What `claim_next` of storage.py hands out: a due job that became available first, whenever one is due.
use hosted_agents_saa_s_plat.Prelude.{
  string_eq, string_eq_iff, String, true, false, ◌≡◌, refl, Option, none, some, List, [], ◌∷◌, ◌==◌,
  ◌↔◌, ◌≤◌, arith, contains, All, Bool-cases, Option-cases, inl, inr, if◌then◌else◌, IsSorted,
  All-sorted, sorted, sorted-IsSorted, sorted-All, sym,
}
use mathlib.Core.Path.{subst}
use hosted_agents_saa_s_plat.Collections.Dict.{Dict, get, get-put}
use hosted_agents_saa_s_plat.Domain.Models.{Datetime, ProvisioningJob, queued, running}
use hosted_agents_saa_s_plat.Adapters.Storage.Queue.{
  JobQueue, candidates, earlier, is_due, first_due, start_job, claim_next,
}
use hosted_agents_saa_s_plat.Adapters.Storage.Queue.Valid.{IsValid, start_job-IsValid}

-- A property of every stored job is one of every candidate, and the other way round for the jobs
-- that the order lists.
All-candidates :
    (P : ProvisioningJob → Type 0) (jobs : Dict String ProvisioningJob) (order : List String)
    → ((i : String) (j : ProvisioningJob) → get jobs i ≡ some j → P j)
    → All P (candidates jobs order)
unfolding candidates
All-candidates P jobs [] h = tt
All-candidates P jobs (i ∷ order) h = elim (Option-cases (get jobs i)) [
  | inl missing ↦ rw missing (All-candidates P jobs order h)
  | inr (j, found) ↦ rw found (h i j found, All-candidates P jobs order h)
]

candidates-All :
    (P : ProvisioningJob → Type 0) (jobs : Dict String ProvisioningJob) (order : List String)
    → All P (candidates jobs order)
    → (i : String) (j : ProvisioningJob) → contains i order ≡ true
    → get jobs i ≡ some j
    → P j
unfolding candidates
candidates-All P jobs [] h i j listed found = ground arith
candidates-All P jobs (k ∷ order) h i j listed found = elim (Bool-cases (i == k)) [
  | inl here ↦
      let e : get jobs k ≡ some j = rw (← (string_eq_iff i k).0 here) found in (rw e at h).0
  | inr later ↦ elim (Option-cases (get jobs k)) [
    | inl missing ↦ candidates-All P jobs order (rw missing at h) i j (ground arith) found
    | inr (other, e) ↦ candidates-All P jobs order (rw e at h).1 i j (ground arith) found
  ]
]

first_due_sound :
    (P : ProvisioningJob → Type 0) (now : Datetime) (xs : List ProvisioningJob)
    (j : ProvisioningJob)
    → All P xs
    → first_due now xs ≡ some j
    → P j × (is_due now j ≡ true)
unfolding first_due
first_due_sound P now [] j h e = ground arith
first_due_sound P now (x ∷ xs) j h e = elim (Bool-cases (is_due now x)) [
  | inl due ↦ let same : x ≡ j = ground arith in (subst P same h.0, rw same at due)
  | inr idle ↦ first_due_sound P now xs j h.1 (ground arith)
]

first_due-none :
    (now : Datetime) (xs : List ProvisioningJob)
    → first_due now xs ≡ none
    → All (λ k. is_due now k ≡ false) xs
unfolding first_due
first_due-none now [] e = tt
first_due-none now (x ∷ xs) e = ground (arith, first_due-none now xs)

none-first_due :
    (now : Datetime) (xs : List ProvisioningJob)
    → All (λ k. is_due now k ≡ false) xs
    → first_due now xs ≡ none
unfolding first_due
none-first_due now [] h = refl
none-first_due now (x ∷ xs) h = ground (arith, none-first_due now xs h.1)

abbrev NotBefore : Datetime → ProvisioningJob → ProvisioningJob → Type 0
NotBefore now j k = is_due now k ≡ true → earlier j k ≡ true

weaken :
    (now : Datetime) (x : ProvisioningJob) (xs : List ProvisioningJob)
    → All (λ k. earlier x k ≡ true) xs
    → All (NotBefore now x) xs
weaken now x [] h = tt
weaken now x (k ∷ xs) h = (λ _. h.0, weaken now x xs h.1)

first_due_first :
    (now : Datetime) (xs : List ProvisioningJob) (j : ProvisioningJob)
    → IsSorted earlier xs
    → first_due now xs ≡ some j
    → All (NotBefore now j) xs
unfolding first_due
first_due_first now [] j h e = tt
first_due_first now (x ∷ xs) j h e = elim (Bool-cases (is_due now x)) [
  | inl due ↦
      let same : x ≡ j = ground arith in
      subst (λ y. All (NotBefore now y) (x ∷ xs)) same (λ _. ground arith, weaken now x xs h.0)
  | inr idle ↦ (λ due. ground arith, first_due_first now xs j h.1 (ground arith))
]

candidates_of_nil : (order : List String) → candidates [] order ≡ []
unfolding candidates get
candidates_of_nil [] = refl
candidates_of_nil (i ∷ order) = candidates_of_nil order

pub next_job : Datetime → JobQueue → Option ProvisioningJob
next_job now q = first_due now (sorted earlier (candidates q.jobs q.job_order))

claim_next_at :
    (now : Datetime) (jobs : Dict String ProvisioningJob) (order : List String)
    → let q : JobQueue = record { jobs = jobs; job_order = order } in
      claim_next now q ≡ start_job (next_job now q) q
unfolding claim_next next_job first_due
claim_next_at now [] order = rw candidates_of_nil refl
claim_next_at now (x ∷ jobs) order = refl

-- The early return on an empty dict is no case of its own.
pub claim_next_lem :
    (now : Datetime) (q : JobQueue) → claim_next now q ≡ start_job (next_job now q) q
claim_next_lem now q = claim_next_at now q.jobs q.job_order

module _ (now : Datetime) (q : JobQueue) (v : IsValid q) where
  next_job_stored :
      (j : ProvisioningJob)
      → next_job now q ≡ some j
      → (get q.jobs j.job_id ≡ some j) × (is_due now j ≡ true)
  unfolding next_job
  next_job_stored j e =
      first_due_sound (λ k. get q.jobs k.job_id ≡ some k) now _ j
        (All-sorted earlier _ _ (
          All-candidates _ q.jobs q.job_order
            (λ i k g. subst (λ x. get q.jobs x ≡ some k) (sym (v.own_id i k g)) g)))
        e

  next_job_first :
      (j k : ProvisioningJob) (i : String)
      → next_job now q ≡ some j
      → get q.jobs i ≡ some k
      → NotBefore now j k
  unfolding next_job
  next_job_first j k i e g =
      candidates-All (NotBefore now j) q.jobs q.job_order
        (sorted-All earlier _ _ (
          first_due_first now _ j
            (sorted-IsSorted earlier (λ a b h. ground arith) (λ a b c h h'. ground arith)
              (candidates q.jobs q.job_order))
            e))
        i k (v.listed i k g) g

  next_job-none :
      (k : ProvisioningJob) (i : String)
      → next_job now q ≡ none
      → get q.jobs i ≡ some k
      → is_due now k ≡ false
  unfolding next_job
  next_job-none k i e g =
      candidates-All (λ x. is_due now x ≡ false) q.jobs q.job_order
        (sorted-All earlier _ _ (first_due-none now _ e)) i k (v.listed i k g) g

-- The job that `claim_next` returned, against the queue before and after.
pub record Claimed (now : Datetime) (q : JobQueue) (j : ProvisioningJob) (q' : JobQueue)
    : Type 0 where
  pub stored : ProvisioningJob
  pub was_stored : get q.jobs j.job_id ≡ some stored
  pub was_queued : stored.state ≡ queued
  pub was_due : stored.available_at ≤ now
  pub now_running : j ≡ record stored { state = running }
  pub first :
      (i : String) (k : ProvisioningJob)
      → get q.jobs i ≡ some k
      → k.state ≡ queued
      → k.available_at ≤ now
      → stored.available_at ≤ k.available_at
  pub others : (i : String) → get q'.jobs i ≡ (if j.job_id == i then some j else get q.jobs i)
  pub same_order : q'.job_order ≡ q.job_order

claimed :
    (now : Datetime) (q : JobQueue) (old : ProvisioningJob)
    → IsValid q
    → next_job now q ≡ some old
    → Claimed now q (record old { state = running }) (start_job (some old) q).1
unfolding is_due
claimed now q old v found =
    let (was_stored, due) = next_job_stored now q v old found in
    record {
      stored = old;
      was_stored = was_stored;
      was_queued = ground arith;
      was_due = ground arith;
      now_running = refl;
      first = λ i k g h h'. ground (arith, next_job_first now q v old k i found g);
      others = λ i. get-put q.jobs old.job_id i _;
      same_order = refl;
    }

-- What a claim of a well-formed queue returns was stored under its id, queued and due, and no
-- queued job that is due became available earlier; it comes back, and is now stored, as running,
-- and nothing else changes.
pub claim_next_Claimed :
    (now : Datetime) (q : JobQueue) (j : ProvisioningJob)
    → IsValid q
    → (claim_next now q).0 ≡ some j
    → Claimed now q j (claim_next now q).1
claim_next_Claimed now q j v e = elim (Option-cases (next_job now q)) [
  | inl idle ↦ let e' : none ≡ some j = rw (claim_next_lem, idle) at e in absurd (cc)
  | inr (old, found) ↦
      let e' : some (record old { state = running }) ≡ some j = rw (claim_next_lem, found) at e in
      let same : record old { state = running } ≡ j = cc in
      subst (λ x. Claimed now q x (claim_next now q).1) same
        (rw (claim_next_lem, found) (claimed now q old v found))
]

-- A claim of a well-formed queue returns nothing exactly when no stored job is queued and due.
pub claim_next_none_iff :
    (now : Datetime) (q : JobQueue)
    → IsValid q
    → ((claim_next now q).0 ≡ none)
      ↔ ((i : String) (k : ProvisioningJob) → get q.jobs i ≡ some k → is_due now k ≡ false)
claim_next_none_iff now q v = elim (Option-cases (next_job now q)) [
  | inl idle ↦ (λ e i k g. next_job-none now q v k i idle g, λ h. rw (claim_next_lem, idle) refl)
  | inr (old, found) ↦
      let (was_stored, due) = next_job_stored now q v old found in
      (
        λ e i k g.
            let e' : some (record old { state = running }) ≡ none =
              rw (claim_next_lem, found) at e in
            absurd (cc),
        λ h. let idle : is_due now old ≡ false = h old.job_id old was_stored in absurd (cc),
      )
]

-- A claim keeps the queue well formed.
pub claim_next-IsValid : (now : Datetime) (q : JobQueue) → IsValid q → IsValid (claim_next now q).1
claim_next-IsValid now q v =
    rw claim_next_lem
      (start_job-IsValid (next_job now q) q (λ j e. (next_job_stored now q v j e).0) v)

pub claim_next_idle :
    (now : Datetime) (q : JobQueue) → (claim_next now q).0 ≡ none → claim_next now q ≡ (none, q)
claim_next_idle now q e = elim (Option-cases (next_job now q)) [
  | inl idle ↦ rw (claim_next_lem, idle) refl
  | inr (old, found) ↦
      let e' : some (record old { state = running }) ≡ none = rw (claim_next_lem, found) at e in
      absurd (cc)
]
