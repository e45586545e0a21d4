-- ===== src/Adapters/Storage/Usage/Billing.antt =====
-- The usage export agrees with the summaries of the single tenants.
use hosted_agents_saa_s_plat.Prelude.{
  string_eq, string_eq_iff, ==_refl, String, Bool, false, ◌≡◌, refl, sym, ap, ◌∙◌, Option, none,
  some, List, [], ◌∷◌, ◌++◌, ◌==◌, pos, ◌+ℤ◌, int_laws, filter, map, length, length-append,
  sorted-All, sorted-IsSorted, IsSorted, All, All-sorted, arith, Bool-cases, inl, inr,
  if◌then◌else◌,
}
use mathlib.Core.Path.{subst}
use mathlib.Core.List.{foldl, foldl-append, append-nil, append_assoc, map-append}
use hosted_agents_saa_s_plat.Collections.Dict.{Dict, values, get, get-put, get-empty, All-get}
use hosted_agents_saa_s_plat.Collections.Dict.Distinct.{
  IsDistinct, put-IsDistinct, IsDistinct-Found,
}
use hosted_agents_saa_s_plat.Text.Order.{text_leb_total, text_leb_trans}
use hosted_agents_saa_s_plat.Domain.Models.{UsageEvent, TenantUsageSummary, TenantBillingRecord}
use hosted_agents_saa_s_plat.Adapters.Storage.Usage.{
  FloatOps, in_month, counted, tokens, sum_tokens, summarize_tenant_month, bill_event, group_event,
  group_events, summarize_all_tenants_month, by_tenant_id,
}

-- `sum` adds from the left, and adds nothing to a single value.
pub record FloatLaws (F : Type 0) ⦃o : FloatOps F⦄ : Type 0 where
  pub sum_one : (x : F) → o.sum_float (x ∷ []) ≡ x
  pub sum_more : (xs : List F) (x : F) → o.sum_float (xs ++ x ∷ []) ≡ o.add_float (o.sum_float xs) x

module _ {F : Type 0} where
  sum_tokens-append_one :
      (xs : List (UsageEvent F)) (e : UsageEvent F)
      → sum_tokens (xs ++ e ∷ []) ≡ sum_tokens xs +ℤ tokens e
  unfolding sum_tokens
  sum_tokens-append_one xs e = rw foldl-append refl

  filter-append_one :
      (p : UsageEvent F → Bool) (xs : List (UsageEvent F)) (e : UsageEvent F)
      → filter p (xs ++ e ∷ []) ≡ (if p e then filter p xs ++ e ∷ [] else filter p xs)
  filter-append_one p [] e = ground arith
  filter-append_one p (x ∷ xs) e = ground (arith, filter-append_one p xs e)

module _ {F : Type 0} ⦃o : FloatOps F⦄ where
  -- the summary of a tenant as a billing record
  abbrev pub as_record : TenantUsageSummary F → TenantBillingRecord F
  as_record s = record {
    tenant_id = s.tenant_id;
    month = s.month;
    messages_used = s.messages_used;
    tokens_used = s.tokens_used;
    cost_estimate = s.cost_estimate;
  }

  abbrev cost : UsageEvent F → F
  cost e = e.cost_estimate

  abbrev record_of : String → String → List (UsageEvent F) → TenantBillingRecord F
  record_of t month events = record {
    tenant_id = t;
    month = month;
    messages_used = pos (length events);
    tokens_used = sum_tokens events;
    cost_estimate = o.sum_float (map cost events);
  }

  -- what is billed for events of one tenant
  abbrev bill_of : String → String → List (UsageEvent F) → Option (TenantBillingRecord F)
  bill_of t month [] = none
  bill_of t month (e ∷ events) = some (record_of t month (e ∷ events))

  bill_of-append_one :
      (t month : String) (xs : List (UsageEvent F)) (e : UsageEvent F)
      → bill_of t month (xs ++ e ∷ []) ≡ some (record_of t month (xs ++ e ∷ []))
  bill_of-append_one t month [] e = refl
  bill_of-append_one t month (x ∷ xs) e = refl

  module _ (laws : FloatLaws F) (month : String) where
    bill_event_lem :
        (xs : List (UsageEvent F)) (e : UsageEvent F)
        → bill_event month e (bill_of e.tenant_id month xs)
          ≡ record_of e.tenant_id month (xs ++ e ∷ [])
    bill_event_lem [] e =
        let sum_one : tokens e ≡ sum_tokens (e ∷ []) = unfold sum_tokens in omega int_laws in
        λ i. record {
          tenant_id = e.tenant_id;
          month = month;
          messages_used = pos 1;
          tokens_used = sum_one i;
          cost_estimate = sym (laws.sum_one e.cost_estimate) i;
        }
    bill_event_lem (x ∷ xs) e =
        let before = x ∷ xs in
        let counted_one : pos (length before) +ℤ pos 1 ≡ pos (length (before ++ e ∷ [])) =
          omega (int_laws, length-append {0} before (e ∷ [])) in
        let added : sum_tokens before +ℤ e.tokens_in +ℤ e.tokens_out
            ≡ sum_tokens (before ++ e ∷ []) =
          rw (sum_tokens-append_one before e) (omega int_laws) in
        let summed : o.add_float (o.sum_float (map cost before)) e.cost_estimate
            ≡ o.sum_float (map cost (before ++ e ∷ [])) =
          rw (map-append) (sym (laws.sum_more (map cost before) e.cost_estimate)) in
        λ i. record {
          tenant_id = e.tenant_id;
          month = month;
          messages_used = counted_one i;
          tokens_used = added i;
          cost_estimate = summed i;
        }

    abbrev Billed : List (UsageEvent F) → Dict String (TenantBillingRecord F) → Type 0
    Billed events grouped =
        (t : String) → get grouped t ≡ bill_of t month (filter (counted t month) events)

    group_event-Billed :
        (events : List (UsageEvent F)) (e : UsageEvent F)
        (grouped : Dict String (TenantBillingRecord F))
        → Billed events grouped
        → Billed (events ++ e ∷ []) (group_event month grouped e)
    unfolding group_event
    group_event-Billed events e grouped h t =
        let mine = λ (u : String). filter (counted u month) events in
        elim (Bool-cases (in_month month e)) [
          | inr outside ↦ rw (filter-append_one, outside) (ground (arith, h t))
          | inl inside ↦
              rw (filter-append_one, inside)
                (rw (get-put, h e.tenant_id)
                  (elim (Bool-cases (e.tenant_id == t)) [
                    | inr another ↦ rw another (h t)
                    | inl this ↦ rw this (
                        subst
                          (λ u.
                            some (bill_event month e (bill_of e.tenant_id month (mine e.tenant_id)))
                            ≡ bill_of u month (mine u ++ e ∷ []))
                          ((string_eq_iff e.tenant_id t).0 this)
                          (ap some (bill_event_lem (mine e.tenant_id) e)
                            ∙ sym (bill_of-append_one e.tenant_id month (mine e.tenant_id) e)))
                  ]))
        ]

    fold-Billed :
        (rest events : List (UsageEvent F)) (grouped : Dict String (TenantBillingRecord F))
        → Billed events grouped
        → Billed (events ++ rest) (foldl (group_event month) grouped rest)
    fold-Billed [] events grouped h = rw append-nil h
    fold-Billed (e ∷ rest) events grouped h = rw (← append_assoc events (e ∷ []) rest) (
        fold-Billed rest (events ++ e ∷ []) (group_event month grouped e)
          (group_event-Billed events e grouped h))

    fold-IsDistinct :
        (rest : List (UsageEvent F)) (grouped : Dict String (TenantBillingRecord F))
        → IsDistinct grouped
        → IsDistinct (foldl (group_event month) grouped rest)
    unfolding group_event
    fold-IsDistinct [] grouped h = h
    fold-IsDistinct (e ∷ rest) grouped h = elim (Bool-cases (in_month month e)) [
      | inl inside ↦ rw inside (fold-IsDistinct rest _ (put-IsDistinct grouped e.tenant_id _ h))
      | inr outside ↦ rw outside (fold-IsDistinct rest grouped h)
    ]

    module _ (events : List (UsageEvent F)) where
      group_events-Billed : Billed events (group_events month events)
      unfolding group_events
      group_events-Billed = fold-Billed events [] [] (λ t. get-empty t)

      -- a record is the summary of its tenant
      abbrev pub AgreesWith : TenantBillingRecord F → Type 0
      AgreesWith r = r ≡ as_record (summarize_tenant_month r.tenant_id month events)

      of_bill :
          (t : String) (mine : List (UsageEvent F)) (r : TenantBillingRecord F)
          → filter (counted t month) events ≡ mine
          → bill_of t month mine ≡ some r
          → AgreesWith r
      unfolding summarize_tenant_month
      of_bill t [] r e b = ground arith
      of_bill t (x ∷ mine) r e b =
          let same : record_of t month (x ∷ mine) ≡ r = cc in
          let agrees : AgreesWith (record_of t month (x ∷ mine)) = rw e refl in
          subst AgreesWith same agrees

      values-Agree :
          (d : Dict String (TenantBillingRecord F))
          → All (λ x. get (group_events month events) x.0 ≡ some x.1) d
          → All AgreesWith (values d)
      unfolding values
      values-Agree [] h = tt
      values-Agree (x ∷ d) h =
          (of_bill x.0 _ x.1 refl (sym (group_events-Billed x.0) ∙ h.0), values-Agree d h.1)

      bill_none :
          (t : String) (mine : List (UsageEvent F))
          → filter (counted t month) events ≡ mine
          → All (λ r. (r.tenant_id == t) ≡ false) (values (group_events month events))
          → mine ≡ []
      bill_none t [] e h = refl
      bill_none t (x ∷ mine) e h =
          let found : get (group_events month events) t ≡ some (record_of t month (x ∷ mine)) =
            rw (group_events-Billed t) (rw e refl) in
          let other : (t == t) ≡ false =
            All-get (λ (r : TenantBillingRecord F). (r.tenant_id == t) ≡ false)
              (group_events month events) t _ h found in
          absurd (cc (other, ==_refl t))

      -- For a `sum` that adds from the left, the export of a month is sorted by tenant, and each of
      -- its records is the summary of its tenant for that month.
      pub export-agrees :
          All AgreesWith (summarize_all_tenants_month month events)
          × IsSorted by_tenant_id (summarize_all_tenants_month month events)
      unfolding summarize_all_tenants_month
      export-agrees =
          let grouped = group_events month events in
          let distinct : IsDistinct grouped = unfold group_events in fold-IsDistinct events [] tt in
          (
            All-sorted by_tenant_id AgreesWith (values grouped)
                (values-Agree grouped (IsDistinct-Found grouped distinct)),
            sorted-IsSorted by_tenant_id (λ a b h. text_leb_total a.tenant_id b.tenant_id h)
                (λ a b c h k. text_leb_trans a.tenant_id b.tenant_id c.tenant_id h k)
                (values grouped),
          )

      -- For a `sum` that adds from the left, a tenant that has no record in the export of a month
      -- has no message in that month.
      pub export_complete :
          (t : String)
          → All (λ r. (r.tenant_id == t) ≡ false) (summarize_all_tenants_month month events)
          → (summarize_tenant_month t month events).messages_used ≡ pos 0
      unfolding summarize_all_tenants_month summarize_tenant_month
      export_complete t h =
          let none_for_t =
            sorted-All by_tenant_id (λ (r : TenantBillingRecord F). (r.tenant_id == t) ≡ false)
              (values (group_events month events)) h in
          rw (bill_none t _ refl none_for_t) refl
