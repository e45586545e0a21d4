-- ===== src/Adapters/Database/Queries.antt =====
-- Whether a query gives a row that passes a test.
use hosted_agents_saa_s_plat.Prelude.{
  Bool, true, ◌≡◌, some, List, [], ◌∷◌, All, Eq, ◌==◌, arith, Bool-cases, inl, inr, sym, ◌∙◌,
}
use mathlib.Core.Path.{subst}
use hosted_agents_saa_s_plat.Collections.Dict.{any}
use hosted_agents_saa_s_plat.Adapters.Database.{Table}
use hosted_agents_saa_s_plat.Adapters.Database.Laws.{TableLaws}

pub Bool-ext : (a b : Bool) → (a ≡ true → b ≡ true) → (b ≡ true → a ≡ true) → a ≡ b
Bool-ext a b f g = ground (arith, f, g)

module _ {A : Type 0} (P : A → Type 0) where
  pub any_found :
      (q : A → Bool) (xs : List A) → All P xs → any q xs ≡ true → (x : A) × P x × (q x ≡ true)
  unfolding any
  any_found q [] h e = absurd (cc)
  any_found q (x ∷ xs) h e = elim (Bool-cases (q x)) [
    | inl here ↦ (x, h.0, here)
    | inr later ↦ any_found q xs h.1 (rw later at e)
  ]

  pub any_weaken :
      (q q' : A → Bool) (xs : List A)
      → All P xs
      → ((x : A) → P x → q x ≡ true → q' x ≡ true)
      → any q xs ≡ true
      → any q' xs ≡ true
  unfolding any
  any_weaken q q' [] h f e = e
  any_weaken q q' (x ∷ xs) h f e = ground (arith, f x h.0, any_weaken q q' xs h.1 f)

module _ {K R S : Type 0} ⦃e : Eq K⦄ (key : R → K) (clash : R → R → Bool) (t : Table K R S)
    (laws : TableLaws key clash t) (p q : R → Bool) (le : R → R → Bool) (s : S) where
  -- a row of the query that passes the test is a row of the table
  pub any-select :
      any q (t.select p le s) ≡ true
      → (row : R) × (p row ≡ true) × (t.find (key row) s ≡ some row) × (q row ≡ true)
  any-select h =
      let (row, (passed, stored), tested) =
        any_found _ q (t.select p le s) (laws.selected p le s) h in
      (row, passed, stored, tested)

  -- a row of the table that passes the condition and the test is among those of the query
  pub select-any :
      (k : K) (row : R)
      → t.find k s ≡ some row
      → p row ≡ true
      → q row ≡ true
      → any q (t.select p le s) ≡ true
  select-any k row stored passed tested =
      any_weaken _ (λ x. key x == k) q (t.select p le s) (laws.selected p le s)
        (λ x h same.
          let at_k : t.find k s ≡ some x =
            subst (λ j. t.find j s ≡ some x) ((e.equals_iff (key x) k).0 same) h.1 in
          the_same x at_k)
        (laws.select_all p le s k row stored passed)
    where
      the_same : (x : R) → t.find k s ≡ some x → q x ≡ true
      the_same x h = let e : some row ≡ some x = sym stored ∙ h in ground arith
