-- ===== src/Prelude/Lists.antt =====
-- Lists measured by native numbers, membership tests, and the stable `sorted` of Python.
use Prim.Native.Nat.{ℕ, suc, ◌+◌}
use mathlib.Core.Path.{◌≡◌, refl}
use mathlib.Core.Bool.{Bool, true, false, ◌||◌}
use mathlib.Core.List.{List, [], ◌∷◌, ◌++◌, Perm}
use mathlib.Core.List.Perm
use native.Mathlib.Omega.{arith}
use hosted_agents_saa_s_plat.Prelude.Tests.{if◌then◌else◌, Eq, ◌==◌, Bool-cases}
use mathlib.Core.Logic.{inl, inr}

module _ {ℓ} {A : Type ℓ} where
  abbrev pub length : List A → ℕ
  length [] = 0
  length (x ∷ xs) = suc (length xs)

  pub length-append : (xs ys : List A) → length (xs ++ ys) ≡ length xs + length ys
  length-append [] ys = omega arith
  length-append (x ∷ xs) ys = omega (arith, length-append xs ys)

  -- a list comprehension's `if`
  abbrev pub filter : (A → Bool) → List A → List A
  filter p [] = []
  filter p (x ∷ xs) = let rest = filter p xs in if p x then x ∷ rest else rest

  abbrev pub All {κ} : (A → Type κ) → List A → Type κ
  All P [] = Unit
  All P (x ∷ xs) = P x × All P xs

  pub All-append {κ} : (P : A → Type κ) (xs ys : List A) → All P xs → All P ys → All P (xs ++ ys)
  All-append P [] ys h k = k
  All-append P (x ∷ xs) ys h k = (h.0, All-append P xs ys h.1 k)

  pub All-filter {κ} :
      (P : A → Type κ) (p : A → Bool) (xs : List A) → All P xs → All P (filter p xs)
  All-filter P p [] h = tt
  All-filter P p (x ∷ xs) h = ground (arith, All-filter P p xs h.1)

  pub All-both {κ} :
      (P Q : A → Type κ) (xs : List A) → All P xs → All Q xs → All (λ x. P x × Q x) xs
  All-both P Q [] p q = tt
  All-both P Q (x ∷ xs) p q = ((p.0, q.0), All-both P Q xs p.1 q.1)

  -- every element of the filtered list passes the test
  pub filter_sound : (p : A → Bool) (xs : List A) → All (λ x. p x ≡ true) (filter p xs)
  filter_sound p [] = tt
  filter_sound p (x ∷ xs) = ground (arith, filter_sound p xs)

module _ {ℓ} {A : Type ℓ} ⦃e : Eq A⦄ where
  -- `a in xs`
  abbrev pub contains : A → List A → Bool
  contains a [] = false
  contains a (x ∷ xs) = a == x || contains a xs

module _ {ℓ} {A : Type ℓ} (le : A → A → Bool) where
  -- before the first element that is not smaller: what stood first stays first among equals
  abbrev pub insert_sorted : A → List A → List A
  insert_sorted x [] = x ∷ []
  insert_sorted x (y ∷ ys) = if le x y then x ∷ y ∷ ys else y ∷ insert_sorted x ys

  abbrev pub sorted : List A → List A
  sorted [] = []
  sorted (x ∷ xs) = insert_sorted x (sorted xs)

  insert_sorted-perm : (x : A) (ys : List A) → Perm (insert_sorted x ys) (x ∷ ys)
  insert_sorted-perm x [] = Perm.refl (x ∷ [])
  insert_sorted-perm x (y ∷ ys) = elim (Bool-cases (le x y)) [
    | inl first ↦ rw first (Perm.refl (x ∷ y ∷ ys))
    | inr later ↦ rw later (Perm.trans (Perm.cons y (insert_sorted-perm x ys)) (Perm.swap x y ys))
  ]

  pub sorted-perm : (xs : List A) → Perm (sorted xs) xs
  sorted-perm [] = Perm.refl []
  sorted-perm (x ∷ xs) =
      Perm.trans (insert_sorted-perm x (sorted xs)) (Perm.cons x (sorted-perm xs))

  -- each element is at most all that follow it
  abbrev pub IsSorted : List A → Type ℓ
  IsSorted [] = Unit
  IsSorted (x ∷ xs) = All (λ y. le x y ≡ true) xs × IsSorted xs

  pub All-insert_sorted {κ} :
      (P : A → Type κ) (x : A) (ys : List A) → P x → All P ys → All P (insert_sorted x ys)
  All-insert_sorted P x [] p h = (p, tt)
  All-insert_sorted P x (y ∷ ys) p h = elim (Bool-cases (le x y)) [
    | inl first ↦ rw first (p, h)
    | inr later ↦ rw later (h.0, All-insert_sorted P x ys p h.1)
  ]

  pub insert_sorted-All {κ} :
      (P : A → Type κ) (x : A) (ys : List A) → All P (insert_sorted x ys) → P x × All P ys
  insert_sorted-All P x [] h = (h.0, tt)
  insert_sorted-All P x (y ∷ ys) h = elim (Bool-cases (le x y)) [
    | inl first ↦ rw first at h
    | inr later ↦
        let h' : P y × All P (insert_sorted x ys) = rw later at h in
        let (p, rest) = insert_sorted-All P x ys h'.1 in (p, (h'.0, rest))
  ]

  pub sorted-All {κ} : (P : A → Type κ) (xs : List A) → All P (sorted xs) → All P xs
  sorted-All P [] h = tt
  sorted-All P (x ∷ xs) h =
      let (p, rest) = insert_sorted-All P x (sorted xs) h in (p, sorted-All P xs rest)

  pub All-sorted {κ} : (P : A → Type κ) (xs : List A) → All P xs → All P (sorted xs)
  All-sorted P [] h = tt
  All-sorted P (x ∷ xs) h = All-insert_sorted P x (sorted xs) h.0 (All-sorted P xs h.1)

module _ {ℓ} {A : Type ℓ} (le : A → A → Bool) (total : (x y : A) → le x y ≡ false → le y x ≡ true)
    (trans : (x y z : A) → le x y ≡ true → le y z ≡ true → le x z ≡ true) where
  All-trans :
      (x y : A) (ys : List A)
      → le x y ≡ true
      → All (λ z. le y z ≡ true) ys
      → All (λ z. le x z ≡ true) ys
  All-trans x y [] h k = tt
  All-trans x y (z ∷ zs) h k = (trans x y z h k.0, All-trans x y zs h k.1)

  insert_sorted-IsSorted :
      (x : A) (ys : List A) → IsSorted le ys → IsSorted le (insert_sorted le x ys)
  insert_sorted-IsSorted x [] h = (tt, tt)
  insert_sorted-IsSorted x (y ∷ ys) h = elim (Bool-cases (le x y)) [
    | inl first ↦ rw first ((first, All-trans x y ys first h.0), h)
    | inr later ↦ rw later (
      All-insert_sorted le (λ z. le y z ≡ true) x ys (total x y later) h.0,
      insert_sorted-IsSorted x ys h.1,
    )
  ]

  pub sorted-IsSorted : (xs : List A) → IsSorted le (sorted le xs)
  sorted-IsSorted [] = tt
  sorted-IsSorted (x ∷ xs) = insert_sorted-IsSorted x (sorted le xs) (sorted-IsSorted xs)

module _ {ℓ} {A : Type ℓ} (le : A → A → Bool) where
  length-filter-insert_sorted :
      (p : A → Bool) (x : A) (ys : List A)
      → length (filter p (insert_sorted le x ys)) ≡ length (filter p (x ∷ ys))
  length-filter-insert_sorted p x [] = refl
  length-filter-insert_sorted p x (y ∷ ys) = elim (Bool-cases (le x y)) [
    | inl first ↦ rw first refl
    | inr later ↦ rw later (ground (arith, length-filter-insert_sorted p x ys))
  ]

  -- sorting keeps the number of the elements that pass a test
  pub length-filter-sorted :
      (p : A → Bool) (xs : List A) → length (filter p (sorted le xs)) ≡ length (filter p xs)
  length-filter-sorted p [] = refl
  length-filter-sorted p (x ∷ xs) =
      ground (arith, length-filter-sorted p xs, length-filter-insert_sorted p x (sorted le xs))

module _ {ℓ} {A : Type ℓ} ⦃e : Eq A⦄ (le : A → A → Bool) where
  contains-insert_sorted :
      (a x : A) (ys : List A) → contains a (insert_sorted le x ys) ≡ contains a (x ∷ ys)
  contains-insert_sorted a x [] = refl
  contains-insert_sorted a x (y ∷ ys) = elim (Bool-cases (le x y)) [
    | inl first ↦ rw first refl
    | inr later ↦ rw later (ground (arith, contains-insert_sorted a x ys))
  ]

  -- sorting keeps the elements
  pub contains-sorted : (a : A) (xs : List A) → contains a (sorted le xs) ≡ contains a xs
  contains-sorted a [] = refl
  contains-sorted a (x ∷ xs) =
      ground (arith, contains-sorted a xs, contains-insert_sorted a x (sorted le xs))
