-- ===== src/Tests/Tables.antt =====
-- A table in memory: a list of rows in which the first row with a key is the one that counts.
mod Rows
use hosted_agents_saa_s_plat.Prelude.{
  All-both, Bool, true, false, ◌&&◌, ◌||◌, not, ◌≡◌, refl, sym, ap, ◌∙◌, Option, none, some, List,
  [], ◌∷◌, Eq, ◌==◌, ==_refl, arith, All, All-filter, All-sorted, filter_sound, filter, sorted,
  sorted-perm, sorted-IsSorted, insert_sorted, Perm, if◌then◌else◌, Bool-cases, inl, inr,
}
use mathlib.Core.List.Perm
use mathlib.Core.Path.{subst}
use hosted_agents_saa_s_plat.Collections.Dict.{any, any-eq-false}
use hosted_agents_saa_s_plat.Adapters.Database.{Table}
use hosted_agents_saa_s_plat.Adapters.Database.Laws.{TableLaws}
use hosted_agents_saa_s_plat.Adapters.Database.Queries.{any_found, any_weaken}
use hosted_agents_saa_s_plat.Tests.Tables.Rows.{
  any-filter, any-sorted, filter-Perm_sorted, filter_twice, filter_all,
}

module _ {K R : Type 0} ⦃e : Eq K⦄ (key : R → K) where
  abbrev pub find_row : K → List R → Option R
  find_row k [] = none
  find_row k (x ∷ xs) = let rest = find_row k xs in if key x == k then some x else rest

  abbrev pub rows : List R → List R
  rows [] = []
  rows (x ∷ xs) = x ∷ filter (λ y. not (key x == key y)) (rows xs)

  abbrev pub without : K → List R → List R
  without j s = filter (λ x. not (key x == j)) s

  abbrev pub insert_row : (R → R → Bool) → R → List R → Option (List R)
  insert_row clash r s =
      if any (λ x. key r == key x || clash r x) (rows s) then none else some (r ∷ s)

abbrev pub list_table : {K R : Type 0} ⦃e : Eq K⦄ → (R → K) → (R → R → Bool) → Table K R (List R)
list_table key clash = record {
  find = find_row key;
  insert = insert_row key clash;
  update = λ r s. r ∷ s;
  delete = without key;
  select = λ p le s. sorted le (filter p (rows key s));
}

some_inj : {A : Type 0} {a b : A} → some a ≡ some b → a ≡ b
some_inj h = ground (arith, h)

module _ {K R : Type 0} ⦃e : Eq K⦄ (key : R → K) (clash : R → R → Bool) where
  row_key : (s : List R) (k : K) (r : R) → find_row key k s ≡ some r → key r ≡ k
  row_key [] k r h = absurd (cc)
  row_key (x ∷ xs) k r h = ground (arith, row_key xs k r, e.equals_iff (key x) k)

  abbrev Found : List R → R → Type 0
  Found s x = find_row key (key x) s ≡ some x

  Found-later :
      (x : R) (xs ys : List R)
      → All (Found xs) ys
      → All (Found (x ∷ xs)) (filter (λ y. not (key x == key y)) ys)
  Found-later x xs [] h = tt
  Found-later x xs (y ∷ ys) h = elim (Bool-cases (key x == key y)) [
    | inl same ↦ rw same (Found-later x xs ys h.1)
    | inr other ↦ rw other (rw other h.0, Found-later x xs ys h.1)
  ]

  rows-Found : (s : List R) → All (Found s) (rows key s)
  rows-Found [] = tt
  rows-Found (x ∷ xs) = (rw ==_refl refl, Found-later x xs (rows key xs) (rows-Found xs))

  apart :
      (x y : R) (k : K)
      → (key x == k) ≡ false
      → (key y == k) ≡ true
      → (not (key x == key y) && key y == k) ≡ true
  apart x y k later at_k =
      ground (arith, e.equals_iff (key y) k, e.equals_iff (key x) (key y), e.equals_iff (key x) k)

  clashed : (r x : R) → clash r x ≡ false → (key r == key x || clash r x) ≡ true → key r ≡ key x
  clashed r x clear h = ground (arith, e.equals_iff (key r) (key x))

  any-rows :
      (s : List R) (k : K) (r : R)
      → find_row key k s ≡ some r
      → any (λ x. key x == k) (rows key s) ≡ true
  unfolding any
  any-rows [] k r h = absurd (cc)
  any-rows (x ∷ xs) k r h = elim (Bool-cases (key x == k)) [
    | inl here ↦ rw here refl
    | inr later ↦ rw later (
        any-filter (λ y. key y == k) (λ y. not (key x == key y)) (rows key xs)
        ∙ any_weaken (Found xs) (λ y. key y == k) (λ y. not (key x == key y) && key y == k)
            (rows key xs) (rows-Found xs) (λ y _ at_k. apart x y k later at_k)
            (any-rows xs k r (rw later at h)))
  ]

  free_row :
      (r : R) (s : List R)
      → find_row key (key r) s ≡ none
      → ((k : K) (x : R) → find_row key k s ≡ some x → clash r x ≡ false)
      → any (λ x. key r == key x || clash r x) (rows key s) ≡ false
  free_row r s free clear =
      elim (Bool-cases (any (λ x. key r == key x || clash r x) (rows key s))) [
        | inr none_there ↦ none_there
        | inl there ↦
            let (x, stored, h) =
              any_found (Found s) (λ x. key r == key x || clash r x) (rows key s) (rows-Found s)
                there in
            let taken = clashed r x (clear (key x) x stored) h in
            let gone : none ≡ some x = sym (rw taken at free) ∙ stored in absurd (cc)
      ]

  taken_row :
      (r : R) (s : List R) (k : K) (x : R)
      → find_row key k s ≡ some x
      → (key r == k || clash r x) ≡ true
      → any (λ x. key r == key x || clash r x) (rows key s) ≡ true
  taken_row r s k x stored h =
      any_weaken (Found s) (λ y. key y == k) (λ x. key r == key x || clash r x) (rows key s)
        (rows-Found s)
        (λ y found at_k.
          let y_k = (e.equals_iff (key y) k).0 at_k in
          let same : some x ≡ some y =
            sym stored ∙ subst (λ j. find_row key j s ≡ some y) y_k found in
          subst (λ z. (key r == key z || clash r z) ≡ true) (some_inj same)
            (rw (row_key s k x stored) h))
        (any-rows s k x stored)

  inserted :
      (r : R) (s s' : List R)
      → insert_row key clash r s ≡ some s'
      → (any (λ x. key r == key x || clash r x) (rows key s) ≡ false) × (s' ≡ r ∷ s)
  inserted r s s' h = elim (Bool-cases (any (λ x. key r == key x || clash r x) (rows key s))) [
    | inl taken ↦ let gone : none ≡ some s' = rw taken at h in absurd (cc)
    | inr free ↦ let same : some (r ∷ s) ≡ some s' = rw free at h in (free, sym (some_inj same))
  ]

  row_deleted :
      (j : K) (s : List R) (k : K)
      → find_row key k (without key j s) ≡ (if j == k then none else find_row key k s)
  row_deleted j [] k = ground arith
  row_deleted j (x ∷ xs) k =
      ground (
        arith,
        row_deleted j xs k,
        e.equals_iff (key x) j,
        e.equals_iff (key x) k,
        e.equals_iff j k,
      )

  selected_rows :
      (p : R → Bool) (le : R → R → Bool) (s : List R)
      → All
          (λ r. (p r ≡ true) × (find_row key (key r) s ≡ some r))
          (sorted le (filter p (rows key s)))
  selected_rows p le s = All-sorted le _ _ (
      All-both (λ r. p r ≡ true) (Found s) (filter p (rows key s)) (filter_sound p (rows key s))
        (All-filter (Found s) p (rows key s) (rows-Found s)))

  selected_key :
      (p : R → Bool) (le : R → R → Bool) (s : List R) (k : K) (r : R)
      → find_row key k s ≡ some r
      → p r ≡ true
      → any (λ x. key x == k) (sorted le (filter p (rows key s))) ≡ true
  selected_key p le s k r stored passed =
      any-sorted (λ x. key x == k) le (filter p (rows key s))
      ∙ any-filter (λ x. key x == k) p (rows key s)
      ∙ any_weaken (Found s) (λ x. key x == k) (λ x. p x && key x == k) (rows key s) (rows-Found s)
          (λ y found at_k.
            let y_k = (e.equals_iff (key y) k).0 at_k in
            let same : some r ≡ some y =
              sym stored ∙ subst (λ j. find_row key j s ≡ some y) y_k found in
            rw at_k (subst (λ z. (p z && true) ≡ true) (some_inj same) (rw passed refl)))
          (any-rows s k r stored)

  rows_inserted :
      (r : R) (s : List R)
      → any (λ x. key r == key x || clash r x) (rows key s) ≡ false
      → rows key (r ∷ s) ≡ r ∷ rows key s
  rows_inserted r s free =
      rw
        (filter_all (λ y. not (key r == key y)) (rows key s)
          (clear (rows key s) (any-eq-false _ (rows key s) free)))
        refl
    where
      clear :
          (xs : List R)
          → All (λ x. (key r == key x || clash r x) ≡ false) xs
          → All (λ x. not (key r == key x) ≡ true) xs
      clear [] h = tt
      clear (x ∷ xs) h = (ground (arith, h.0), clear xs h.1)

  inserted-Perm :
      (p : R → Bool) (le : R → R → Bool) (r : R) (xs : List R)
      → Perm
          (sorted le (filter p (r ∷ xs)))
          (if p r then r ∷ sorted le (filter p xs) else sorted le (filter p xs))
  inserted-Perm p le r xs = elim (Bool-cases (p r)) [
    | inl passed ↦ rw passed (
        Perm.trans (sorted-perm le (r ∷ filter p xs))
          (Perm.cons r (Perm.symm (sorted-perm le (filter p xs)))))
    | inr other ↦ rw other (Perm.refl _)
  ]

  select_inserted :
      (p : R → Bool) (le : R → R → Bool) (r : R) (s s' : List R)
      → insert_row key clash r s ≡ some s'
      → Perm
          (sorted le (filter p (rows key s')))
          (if p r then r ∷ sorted le (filter p (rows key s)) else sorted le (filter p (rows key s)))
  select_inserted p le r s s' h =
      let (free, same) = inserted r s s' h in
      subst
        (λ z. Perm (sorted le (filter p z)) (
          if p r then r ∷ sorted le (filter p (rows key s)) else sorted le (filter p (rows key s))))
        (sym (ap (rows key) same ∙ rows_inserted r s free)) (inserted-Perm p le r (rows key s))

  pub list_table-laws : TableLaws key clash (list_table key clash)
  list_table-laws = record {
    own_key = row_key;
    find-insert = λ r s s' k h. let (_, same) = inserted r s s' h in rw same refl;
    insert_free = λ r s free clear. (r ∷ s, rw (free_row r s free clear) refl);
    insert_taken = λ r s k x stored h. rw (taken_row r s k x stored h) refl;
    find-update = λ r s k x h. refl;
    find-delete = row_deleted;
    selected = selected_rows;
    select_all = selected_key;
    in_order = λ p le s total trans. sorted-IsSorted le total trans (filter p (rows key s));
    select-insert = select_inserted;
    select-filter = λ p q le le' s.
        Perm.trans (sorted-perm le (filter (λ x. p x && q x) (rows key s))) (
          subst (λ z. Perm z (filter q (sorted le' (filter p (rows key s)))))
            (filter_twice p q (rows key s))
            (Perm.symm (filter-Perm_sorted q le' (filter p (rows key s)))));
  }
