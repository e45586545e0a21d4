-- ===== src/Adapters/Database/Laws.antt =====
-- What the adapters rely on: the primary key and the unique columns of a table, and what a select
-- gives. The order of rows that `order_by` leaves open stays open. No change by an adapter touches the
-- key or a unique column of a row that is there. The widths of columns are not modelled.
use mathlib.Core.List.{Perm}
use hosted_agents_saa_s_plat.Prelude.{
  Bool, true, false, ◌||◌, ◌&&◌, filter, ◌≡◌, none, some, ◌∷◌, All, IsSorted, Eq, ◌==◌,
  if◌then◌else◌,
}
use hosted_agents_saa_s_plat.Collections.Dict.{any}
use hosted_agents_saa_s_plat.Adapters.Database.{Table}

-- `key` gives the primary key of a row; `clash` tells rows with an equal value in a unique column.
pub record TableLaws {K R S : Type 0} ⦃e : Eq K⦄ (key : R → K) (clash : R → R → Bool)
    (t : Table K R S) : Type 0 where
  pub own_key : (s : S) (k : K) (r : R) → t.find k s ≡ some r → key r ≡ k
  pub find-insert :
      (r : R) (s s' : S) (k : K)
      → t.insert r s ≡ some s'
      → t.find k s' ≡ (if key r == k then some r else t.find k s)
  pub insert_free :
      (r : R) (s : S)
      → t.find (key r) s ≡ none
      → ((k : K) (x : R) → t.find k s ≡ some x → clash r x ≡ false)
      → (s' : S) × (t.insert r s ≡ some s')
  pub insert_taken :
      (r : R) (s : S) (k : K) (x : R)
      → t.find k s ≡ some x
      → (key r == k || clash r x) ≡ true
      → t.insert r s ≡ none
  pub find-update :
      (r : R) (s : S) (k : K) (x : R)
      → t.find (key r) s ≡ some x
      → t.find k (t.update r s) ≡ (if key r == k then some r else t.find k s)
  pub find-delete :
      (j : K) (s : S) (k : K) → t.find k (t.delete j s) ≡ (if j == k then none else t.find k s)
  pub selected :
      (p : R → Bool) (le : R → R → Bool) (s : S)
      → All (λ r. (p r ≡ true) × (t.find (key r) s ≡ some r)) (t.select p le s)
  pub select_all :
      (p : R → Bool) (le : R → R → Bool) (s : S) (k : K) (r : R)
      → t.find k s ≡ some r
      → p r ≡ true
      → any (λ x. key x == k) (t.select p le s) ≡ true
  pub in_order :
      (p : R → Bool) (le : R → R → Bool) (s : S)
      → ((x y : R) → le x y ≡ false → le y x ≡ true)
      → ((x y z : R) → le x y ≡ true → le y z ≡ true → le x z ≡ true)
      → IsSorted le (t.select p le s)
  pub select-insert :
      (p : R → Bool) (le : R → R → Bool) (r : R) (s s' : S)
      → t.insert r s ≡ some s'
      → Perm (t.select p le s') (if p r then r ∷ t.select p le s else t.select p le s)
  -- a further condition of the query takes its rows away, in whatever order they come
  pub select-filter :
      (p q : R → Bool) (le le' : R → R → Bool) (s : S)
      → Perm (t.select (λ r. p r && q r) le s) (filter q (t.select p le' s))
