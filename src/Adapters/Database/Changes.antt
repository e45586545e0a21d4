-- ===== src/Adapters/Database/Changes.antt =====
-- What a change by one session makes of every row of a table.
use hosted_agents_saa_s_plat.Prelude.{
  Bool, false, ◌≡◌, refl, Option, none, some, Eq, ◌==◌, ==_refl, if◌then◌else◌, Bool-cases, inl,
  inr, ◌∙◌,
}
use mathlib.Core.Path.{subst}
use hosted_agents_saa_s_plat.Domain.Action.{Action, ok}
use hosted_agents_saa_s_plat.Adapters.Database.{
  Table, add, upsert, modify, remove, write_found, change_found, delete_found,
}
use hosted_agents_saa_s_plat.Adapters.Database.Laws.{TableLaws}

-- a table without unique columns
abbrev pub no_clash : {R : Type 0} → R → R → Bool
no_clash r x = false

-- the row that `upsert` leaves
abbrev pub upserted : {R : Type 0} → (R → R) → R → Option R → R
upserted change fresh none = fresh
upserted change fresh (some row) = change row

-- the row that `modify` leaves
abbrev pub modified : {R : Type 0} → (R → R) → Option R → Option R
modified change none = none
modified change (some row) = some (change row)

-- the action returned, and the row `row` stands under the key `k`, and no other row changed
abbrev pub Wrote :
    {K R S : Type 0} ⦃e : Eq K⦄ → Table K R S → K → R → S → Action S (Unit {0}) → Type 0
Wrote {K} t k row s act =
    ((act s).0 ≡ ok tt) × ((j : K) → t.find j (act s).1 ≡ (if k == j then some row else t.find j s))

module _ {K R S : Type 0} ⦃e : Eq K⦄ (key : R → K) (clash : R → R → Bool) (t : Table K R S)
    (laws : TableLaws key clash t) where
  pub add_lem :
      (r : R) (s : S)
      → t.find (key r) s ≡ none
      → ((k : K) (x : R) → t.find k s ≡ some x → clash r x ≡ false)
      → Wrote t (key r) r s (add t r)
  add_lem r s free apart =
      let (s', stored) = laws.insert_free r s free apart in
      rw stored (refl, λ j. laws.find-insert r s s' j stored)

  write_found_lem :
      (change : R → R) (fresh : R) (s : S) (found : Option R)
      → t.find (key fresh) s ≡ found
      → ((row : R) → key row ≡ key fresh → key (change row) ≡ key fresh)
      → ((k : K) (x : R) → t.find k s ≡ some x → clash fresh x ≡ false)
      → Wrote t (key fresh) (upserted change fresh found) s (write_found t change fresh found)
  write_found_lem change fresh s none h same apart = add_lem fresh s h apart
  write_found_lem change fresh s (some row) h same apart =
      let keyed : key (change row) ≡ key fresh = same row (laws.own_key s (key fresh) row h) in
      (
        refl,
        λ j.
            subst
              (λ k.
                t.find j (t.update (change row) s)
                ≡ (if k == j then some (change row) else t.find j s))
              keyed (laws.find-update (change row) s j row (rw keyed h)),
      )

  pub upsert_lem :
      (k : K) (change : R → R) (fresh : R) (s : S)
      → key fresh ≡ k
      → ((row : R) → key row ≡ k → key (change row) ≡ k)
      → ((j : K) (x : R) → t.find j s ≡ some x → clash fresh x ≡ false)
      → Wrote t k (upserted change fresh (t.find k s)) s (upsert t k change fresh)
  upsert_lem k change fresh s keyed same apart =
      subst
        (λ k.
          ((row : R) → key row ≡ k → key (change row) ≡ k)
          → Wrote t k (upserted change fresh (t.find k s)) s (upsert t k change fresh))
        keyed (λ same. write_found_lem change fresh s (t.find (key fresh) s) refl same apart) same

  change_found_lem :
      (k : K) (change : R → R) (s : S) (found : Option R) (j : K)
      → t.find k s ≡ found
      → ((row : R) → key row ≡ k → key (change row) ≡ k)
      → t.find j (change_found t change found s)
        ≡ (if k == j then modified change found else t.find j s)
  change_found_lem k change s none j h same = elim (Bool-cases (k == j)) [
    | inl here ↦ rw here (rw (← (e.equals_iff k j).0 here) h)
    | inr other ↦ rw other refl
  ]
  change_found_lem k change s (some row) j h same =
      let keyed : key (change row) ≡ k = same row (laws.own_key s k row h) in
      subst
        (λ k.
          t.find j (t.update (change row) s) ≡ (if k == j then some (change row) else t.find j s))
        keyed (laws.find-update (change row) s j row (rw keyed h))

  pub modify_lem :
      (k : K) (change : R → R) (s : S) (j : K)
      → ((row : R) → key row ≡ k → key (change row) ≡ k)
      → t.find j (modify t k change s)
        ≡ (if k == j then modified change (t.find j s) else t.find j s)
  modify_lem k change s j same = elim (Bool-cases (k == j)) [
    | inl here ↦
        subst
          (λ i.
            t.find i (modify t k change s)
            ≡ (if k == i then modified change (t.find i s) else t.find i s))
          ((e.equals_iff k j).0 here)
          (change_found_lem k change s (t.find k s) k refl same ∙ rw ==_refl refl)
    | inr other ↦ rw other (change_found_lem k change s (t.find k s) j refl same ∙ rw other refl)
  ]

  delete_found_lem :
      (k : K) (s : S) (found : Option R) (j : K)
      → t.find k s ≡ found
      → t.find j (delete_found t k found s) ≡ (if k == j then none else t.find j s)
  delete_found_lem k s none j h = elim (Bool-cases (k == j)) [
    | inl here ↦ rw here (rw (← (e.equals_iff k j).0 here) h)
    | inr other ↦ rw other refl
  ]
  delete_found_lem k s (some row) j h = laws.find-delete k s j

  pub remove_lem :
      (k : K) (s : S) (j : K) → t.find j (remove t k s) ≡ (if k == j then none else t.find j s)
  remove_lem k s j = delete_found_lem k s (t.find k s) j refl
