-- ===== src/Adapters/Postgres/Usage/Agreement.antt =====
-- The export of a month and the summary of one tenant, on the same table.
use hosted_agents_saa_s_plat.Prelude.{
  string_eq, ℕ, suc, String, Bool, ◌&&◌, ◌≡◌, refl, sym, ap, List, [], ◌∷◌, ℤ, pos, ◌+ℤ◌, filter,
  map, length, All, Perm, arith, int_laws,
}
use mathlib.Core.List.{foldr}
use mathlib.Core.List.Perm
use mathlib.Core.Path.{subst}
use hosted_agents_saa_s_plat.Domain.Action.{Outcome, ok, err, continue}
use hosted_agents_saa_s_plat.Domain.Models.{Datetime, TenantBillingRecord, TenantUsageSummary}
use hosted_agents_saa_s_plat.Adapters.Database.{Table}
use hosted_agents_saa_s_plat.Adapters.Database.Changes.{no_clash}
use hosted_agents_saa_s_plat.Adapters.Database.Laws.{TableLaws}
use hosted_agents_saa_s_plat.Adapters.Storage.Usage.{FloatOps}
use hosted_agents_saa_s_plat.Adapters.Storage.Memory.{reads}
use hosted_agents_saa_s_plat.Adapters.Postgres.Usage.{
  UsageEventRow, month_bounds, in_bounds, of_tenant, sum_tokens, unordered, summary_of,
  summarize_tenant_month, billed, bill_rows, summarize_all_tenants_month,
}

abbrev pub event_key : {F : Type 0} → UsageEventRow F → String
event_key row = row.request_id

set_ℕ : IsSet ℕ
set_ℕ = hlevel

set_ℤ : IsSet ℤ
set_ℤ = hlevel

All-map :
    {A B : Type 0} (P : B → Type 0) (f : A → B) (xs : List A)
    → ((a : A) → P (f a))
    → All P (map f xs)
All-map P f [] h = tt
All-map P f (x ∷ xs) h = (h x, All-map P f xs h)

length-foldr : {A : Type 0} (xs : List A) → length xs ≡ foldr (λ _ n. suc n) 0 xs
length-foldr [] = refl
length-foldr (x ∷ xs) = ap suc (length-foldr xs)

pub length-Perm : {A : Type 0} {xs ys : List A} → Perm xs ys → length xs ≡ length ys
length-Perm {xs} {ys} p = rw length-foldr (Perm.foldr-eq set_ℕ (λ _ n. suc n) (λ a b n. refl) p 0)

add_comm : (a b x : ℤ) → a +ℤ (b +ℤ x) ≡ b +ℤ (a +ℤ x)
add_comm a b x = grind int_laws

module _ {F : Type 0} where
  sum-foldr :
      (rows : List (UsageEventRow F))
      → sum_tokens rows ≡ foldr (λ row n. row.tokens_in +ℤ row.tokens_out +ℤ n) (pos 0) rows
  sum-foldr [] = refl
  sum-foldr (row ∷ rows) = ap (λ n. row.tokens_in +ℤ row.tokens_out +ℤ n) (sum-foldr rows)

  pub sum-Perm : {xs ys : List (UsageEventRow F)} → Perm xs ys → sum_tokens xs ≡ sum_tokens ys
  sum-Perm {xs} {ys} p = rw sum-foldr (
      Perm.foldr-eq set_ℤ (λ (row : UsageEventRow F) n. row.tokens_in +ℤ row.tokens_out +ℤ n)
        (λ a b n. add_comm (a.tokens_in +ℤ a.tokens_out) (b.tokens_in +ℤ b.tokens_out) n) p (pos 0))

module _ {F S : Type 0} ⦃o : FloatOps F⦄ (events : Table String (UsageEventRow F) S)
    (laws : TableLaws event_key no_clash events) (text_le : String → String → Bool) (month : String)
    (s : S) where
  -- the summary of the record's tenant for the month, with the record's messages and tokens
  abbrev pub Summarized : TenantBillingRecord F → Type 0
  Summarized r =
      (summary : TenantUsageSummary F) × ((summarize_tenant_month events r.tenant_id month s).0
        ≡ ok summary)
      × (r.month ≡ month)
      × (r.messages_used ≡ summary.messages_used)
      × (r.tokens_used ≡ summary.tokens_used)

  same_group :
      (bounds : Datetime × Datetime) (t : String)
      → Perm
          (events.select (λ row. in_bounds bounds row && of_tenant t row) unordered s)
          (filter (of_tenant t) (events.select (in_bounds bounds) unordered s))
  same_group bounds t = laws.select-filter (in_bounds bounds) (of_tenant t) unordered unordered s

  summarized :
      (bounds : Outcome (Datetime × Datetime)) (records : List (TenantBillingRecord F))
      → month_bounds month ≡ bounds
      → (continue bounds
          (λ b. reads λ s. bill_rows text_le month (events.select (in_bounds b) unordered s))
          s).0
        ≡ ok records
      → All Summarized records
  unfolding bill_rows summarize_tenant_month
  summarized (err e) records known h = absurd (cc)
  summarized (ok b) records known h =
      let same : bill_rows text_le month (events.select (in_bounds b) unordered s) ≡ records =
        ground (arith, h) in
      subst (All Summarized) same (
        All-map Summarized (billed month (events.select (in_bounds b) unordered s)) _ (λ t. (
          summary_of t month
              (events.select (λ row. in_bounds b row && of_tenant t row) unordered s),
          rw known refl,
          refl,
          ap pos (sym (length-Perm (same_group b t))),
          sym (sum-Perm (same_group b t)),
        )))

  -- Each record of the month's export has the messages and the tokens of its tenant's summary for the
  -- month.
  pub export-Summarized :
      (records : List (TenantBillingRecord F))
      → (summarize_all_tenants_month events text_le month s).0 ≡ ok records
      → All Summarized records
  unfolding summarize_all_tenants_month
  export-Summarized records h = summarized (month_bounds month) records refl h
