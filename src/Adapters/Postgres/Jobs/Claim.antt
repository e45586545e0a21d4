-- ===== src/Adapters/Postgres/Jobs/Claim.antt =====
-- What `claim_next` of postgres.py hands out and what it leaves of every row.
use hosted_agents_saa_s_plat.Prelude.{
  All-both, string_eq, string_eq_iff, String, Bool, true, false, ◌&&◌, not, ◌≡◌, refl, sym, ◌∙◌,
  Option, none, some, List, [], ◌∷◌, ◌==◌, arith, All, IsSorted, Bool-cases, inl, inr,
  if◌then◌else◌, ◌≤◌, ◌<◌, ◌⊎◌, ltb,
}
use mathlib.Core.Path.{subst}
use hosted_agents_saa_s_plat.Collections.Dict.{any}
use hosted_agents_saa_s_plat.Domain.Models.{Datetime, ProvisioningJob, queued, running}
use hosted_agents_saa_s_plat.Adapters.Database.{Table}
use hosted_agents_saa_s_plat.Adapters.Database.Laws.{TableLaws}
use hosted_agents_saa_s_plat.Adapters.Database.Queries.{any_found}
use hosted_agents_saa_s_plat.Adapters.Postgres.Jobs.{
  ProvisioningJobRow, same_key, row_due, before, first_row, start_row, start_found, claim_next,
}

abbrev pub job_key : ProvisioningJobRow → String
job_key row = row.job_id

before_total : (x y : ProvisioningJobRow) → before x y ≡ false → before y x ≡ true
before_total x y h = ground arith

before_trans :
    (x y z : ProvisioningJobRow) → before x y ≡ true → before y z ≡ true → before x z ≡ true
before_trans x y z h k = ground arith

before_refl : (x : ProvisioningJobRow) → before x x ≡ true
before_refl x = ground arith

All-second : {A : Type 0} (P Q : A → Type 0) (xs : List A) → All (λ x. P x × Q x) xs → All Q xs
All-second P Q [] h = tt
All-second P Q (x ∷ xs) h = (h.0.1, All-second P Q xs h.1)

abbrev is_free : (String → Bool) → Datetime → ProvisioningJobRow → Bool
is_free locked now row = row_due now row && not (locked row.job_id)

-- a row that may be claimed
pub record Free (locked : String → Bool) (now : Datetime) (row : ProvisioningJobRow) : Type 0 where
  pub was_queued : row.state ≡ queued
  pub was_due : row.available_at ≤ now
  pub unlocked : locked row.job_id ≡ false

is_free-Free :
    (locked : String → Bool) (now : Datetime) (row : ProvisioningJobRow)
    → is_free locked now row ≡ true
    → Free locked now row
is_free-Free locked now row h = record {
  was_queued = ground arith;
  was_due = ground arith;
  unlocked = ground arith;
}

Free-is_free :
    (locked : String → Bool) (now : Datetime) (row : ProvisioningJobRow)
    → Free locked now row
    → is_free locked now row ≡ true
Free-is_free locked now row free = ground (arith, free.was_queued, free.was_due, free.unlocked)

-- the order of the claims: by available_at and, where that is the same, by created_at
abbrev pub Precedes : ProvisioningJobRow → ProvisioningJobRow → Type 0
Precedes row x =
    (row.available_at < x.available_at)
    ⊎ ((row.available_at ≡ x.available_at) × (row.created_at ≤ x.created_at))

before-Precedes : (row x : ProvisioningJobRow) → before row x ≡ true → Precedes row x
before-Precedes row x h = elim (Bool-cases (ltb row.available_at x.available_at)) [
  | inl earlier ↦ inl (ground arith)
  | inr late ↦ inr (ground arith, ground arith)
]

module _ {S : Type 0} (jobs : Table String ProvisioningJobRow S) (locked : String → Bool)
    (now : Datetime) (s : S) where
  -- the row that was claimed, against the job handed out and the rows afterwards
  pub record ClaimedRow (job : ProvisioningJob) (s' : S) : Type 0 where
    pub row : ProvisioningJobRow
    pub was_stored : jobs.find row.job_id s ≡ some row
    pub free : Free locked now row
    pub first :
        (k : String) (x : ProvisioningJobRow)
        → jobs.find k s ≡ some x
        → Free locked now x
        → Precedes row x
    pub handed_out : job ≡ record {
      job_id = row.job_id;
      tenant_id = row.tenant_id;
      step = row.step;
      idempotency_key = some row.idempotency_key;
      state = running;
      retries = row.retries;
      max_attempts = row.max_attempts;
      error = row.error;
      created_at = row.created_at;
      available_at = row.available_at;
    }
    pub rows :
        (k : String)
        → jobs.find k s' ≡ (
            if row.job_id == k
            then some (record row { state = running; updated_at = now })
            else jobs.find k s)

  -- What a claim has to do: where nothing is handed out, no row was free and nothing changes.
  abbrev pub Claimed : Option ProvisioningJob × S → Type 0
  Claimed (none, s') =
      (s' ≡ s)
      × ((k : String) (x : ProvisioningJobRow) → jobs.find k s ≡ some x → ¬ Free locked now x)
  Claimed (some job, s') = ClaimedRow job s'

  module _ (laws : TableLaws job_key same_key jobs) where
    abbrev free_rows : List ProvisioningJobRow
    free_rows = jobs.select (is_free locked now) before s

    -- a free row is among those that the query gives
    listed_free :
        (rows : List ProvisioningJobRow) (k : String) (x : ProvisioningJobRow)
        → free_rows ≡ rows
        → jobs.find k s ≡ some x
        → is_free locked now x ≡ true
        → any (λ y. job_key y == k) rows ≡ true
    listed_free rows k x e stored free =
        subst (λ r. any (λ y. job_key y == k) r ≡ true) e
          (laws.select_all (is_free locked now) before s k x stored free)

    abbrev Minimal : ProvisioningJobRow → ProvisioningJobRow → Type 0
    Minimal row y = (before row y ≡ true) × (jobs.find y.job_id s ≡ some y)

    none_free :
        (k : String) (x : ProvisioningJobRow)
        → free_rows ≡ []
        → jobs.find k s ≡ some x
        → is_free locked now x ≡ false
    unfolding any
    none_free k x e stored = elim (Bool-cases (is_free locked now x)) [
      | inl free ↦ let gone : false ≡ true = listed_free [] k x e stored free in absurd (cc)
      | inr busy ↦ busy
    ]

    first_minimal :
        (row : ProvisioningJobRow) (rows : List ProvisioningJobRow) (k : String)
        (x : ProvisioningJobRow)
        → free_rows ≡ row ∷ rows
        → jobs.find k s ≡ some x
        → is_free locked now x ≡ true
        → before row x ≡ true
    first_minimal row rows k x e stored free =
        let (least, _) =
          subst (IsSorted before) e
            (laws.in_order (is_free locked now) before s before_total before_trans) in
        let (y, (first, there), same) =
          any_found (Minimal row) (λ y. job_key y == k) (row ∷ rows)
            (All-both (λ y. before row y ≡ true) (λ y. jobs.find y.job_id s ≡ some y) (row ∷ rows)
              (before_refl row, least)
              (subst (All (λ r. jobs.find r.job_id s ≡ some r)) e stored_rows))
            (listed_free (row ∷ rows) k x e stored free) in
        let at_k : jobs.find k s ≡ some y =
          subst (λ j. jobs.find j s ≡ some y) ((string_eq_iff y.job_id k).0 same) there in
        let agree : some x ≡ some y = sym stored ∙ at_k in ground (arith, first)
      where
        stored_rows : All (λ r. jobs.find r.job_id s ≡ some r) free_rows
        stored_rows =
            All-second (λ r. is_free locked now r ≡ true) _ free_rows
              (laws.selected (is_free locked now) before s)

    first-Claimed :
        (rows : List ProvisioningJobRow)
        → free_rows ≡ rows
        → Claimed (start_found jobs now (first_row rows) s)
    first-Claimed [] e = (
      refl,
      λ k x stored free.
          let busy : is_free locked now x ≡ false = none_free k x e stored in
          let claimable : is_free locked now x ≡ true = Free-is_free locked now x free in
          absurd (cc),
    )
    first-Claimed (row ∷ rows) e =
        let ((free, stored), rest) =
          subst (All (λ r. (is_free locked now r ≡ true) × (jobs.find r.job_id s ≡ some r))) e
            (laws.selected (is_free locked now) before s) in
        record {
          row = row;
          was_stored = stored;
          free = is_free-Free locked now row free;
          first = λ k x there claimable.
              before-Precedes row x
                (first_minimal row rows k x e there (Free-is_free locked now x claimable));
          handed_out = refl;
          rows = λ k. laws.find-update (start_row now row) s k row stored;
        }

    -- A claim that hands out nothing finds no row that is queued, due and locked by no other session,
    -- and changes nothing. Any other claim takes such a row that precedes every other one, by
    -- available_at and, where that is the same, by created_at. It hands out the job with the columns of
    -- that row, as running; the row is stored as running with the time of the claim, and no other row
    -- has changed.
    pub claim_next-Claimed : Claimed (claim_next jobs locked now s)
    unfolding claim_next
    claim_next-Claimed = first-Claimed free_rows refl
