-- ===== src/Tests/Tables/Rows.antt =====
-- Filters and orders of rows.
use hosted_agents_saa_s_plat.Prelude.{
  Bool, true, false, ◌&&◌, ◌||◌, ◌≡◌, refl, List, [], ◌∷◌, arith, All, filter, sorted,
  insert_sorted, Perm, if◌then◌else◌, Bool-cases, inl, inr,
}
use mathlib.Core.List.Perm
use hosted_agents_saa_s_plat.Collections.Dict.{any}

pub any-filter :
    {A : Type 0} (q p : A → Bool) (xs : List A) → any q (filter p xs) ≡ any (λ x. p x && q x) xs
unfolding any
any-filter q p [] = refl
any-filter q p (x ∷ xs) = ground (arith, any-filter q p xs)

pub any-insert_sorted :
    {A : Type 0} (q : A → Bool) (le : A → A → Bool) (x : A) (ys : List A)
    → any q (insert_sorted le x ys) ≡ (q x || any q ys)
unfolding any
any-insert_sorted q le x [] = refl
any-insert_sorted q le x (y ∷ ys) = elim (Bool-cases (le x y)) [
  | inl first ↦ rw first refl
  | inr later ↦ rw later (ground (arith, any-insert_sorted q le x ys))
]

pub any-sorted :
    {A : Type 0} (q : A → Bool) (le : A → A → Bool) (xs : List A) → any q (sorted le xs) ≡ any q xs
unfolding any
any-sorted q le [] = refl
any-sorted q le (x ∷ xs) =
    ground (arith, any-insert_sorted q le x (sorted le xs), any-sorted q le xs)

pub filter-Perm_insert :
    {A : Type 0} (q : A → Bool) (le : A → A → Bool) (x : A) (ys : List A)
    → Perm (filter q (insert_sorted le x ys)) (filter q (x ∷ ys))
filter-Perm_insert q le x [] = Perm.refl _
filter-Perm_insert q le x (y ∷ ys) = elim (Bool-cases (le x y)) [
  | inl first ↦ rw first (Perm.refl _)
  | inr later ↦ rw later (swapped (q x) (q y) (filter-Perm_insert q le x ys))
]
  where
    swapped :
        (b c : Bool)
        → Perm (filter q (insert_sorted le x ys)) (if b then x ∷ filter q ys else filter q ys)
        → Perm
            (if c then y ∷ filter q (insert_sorted le x ys) else filter q (insert_sorted le x ys))
            (if b
              then x ∷ (if c then y ∷ filter q ys else filter q ys)
              else if c
              then y ∷ filter q ys
              else filter q ys)
    swapped true true p = Perm.trans (Perm.cons y p) (Perm.swap x y _)
    swapped true false p = p
    swapped false true p = Perm.cons y p
    swapped false false p = p

pub filter-Perm_sorted :
    {A : Type 0} (q : A → Bool) (le : A → A → Bool) (xs : List A)
    → Perm (filter q (sorted le xs)) (filter q xs)
filter-Perm_sorted q le [] = Perm.refl []
filter-Perm_sorted q le (x ∷ xs) =
    Perm.trans (filter-Perm_insert q le x (sorted le xs)) (kept (q x) (filter-Perm_sorted q le xs))
  where
    kept :
        (b : Bool)
        → Perm (filter q (sorted le xs)) (filter q xs)
        → Perm
            (if b then x ∷ filter q (sorted le xs) else filter q (sorted le xs))
            (if b then x ∷ filter q xs else filter q xs)
    kept true p = Perm.cons x p
    kept false p = p

pub filter_twice :
    {A : Type 0} (p q : A → Bool) (xs : List A)
    → filter q (filter p xs) ≡ filter (λ x. p x && q x) xs
filter_twice p q [] = refl
filter_twice p q (x ∷ xs) = ground (arith, filter_twice p q xs)

pub filter_all :
    {A : Type 0} (p : A → Bool) (xs : List A) → All (λ x. p x ≡ true) xs → filter p xs ≡ xs
filter_all p [] h = refl
filter_all p (x ∷ xs) h = ground (arith, h.0, filter_all p xs h.1)
