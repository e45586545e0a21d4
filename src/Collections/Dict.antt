-- ===== src/Collections/Dict.antt =====
-- Python's `dict` in insertion order: a write to a key that is there keeps its place.
pub mod Distinct
use hosted_agents_saa_s_plat.Prelude.{
  ◌≡◌, refl, Bool, true, false, ◌||◌, Option, none, some, List, [], ◌∷◌, arith, Eq, ◌==◌, All,
  if◌then◌else◌, Bool-cases, inl, inr,
}

abbrev pub Dict : Type 0 → Type 0 → Type 0
Dict K V = List (K × V)

-- `d.values()`
unfoldable pub values : {K V : Type 0} → Dict K V → List V
values [] = []
values (e ∷ d) = e.1 ∷ values d

-- a generator's `any(p(x) for x in xs)`
unfoldable pub any : {A : Type 0} → (A → Bool) → List A → Bool
any p [] = false
any p (x ∷ xs) = p x || any p xs

pub any-eq-false :
    {A : Type 0} (p : A → Bool) (xs : List A) → any p xs ≡ false → All (λ x. p x ≡ false) xs
unfolding any
any-eq-false p [] h = tt
any-eq-false p (x ∷ xs) h = ground (arith, any-eq-false p xs)

module _ {K V : Type 0} ⦃e : Eq K⦄ where
  -- `d.get(k)`
  unfoldable pub get : Dict K V → K → Option V
  get [] k = none
  get ((j, v) ∷ d) k = if j == k then some v else get d k

  -- `d[k] = v`
  unfoldable pub put : Dict K V → K → V → Dict K V
  put [] k v = (k, v) ∷ []
  put ((j, w) ∷ d) k v = if j == k then (j, v) ∷ d else (j, w) ∷ put d k v

  -- what `d.pop(k, None)` leaves
  unfoldable pub pop : Dict K V → K → Dict K V
  pop [] k = []
  pop ((j, v) ∷ d) k = let rest = pop d k in if j == k then rest else (j, v) ∷ rest

  pub get-pop : (d : Dict K V) (k j : K) → get (pop d k) j ≡ (if k == j then none else get d j)
  unfolding get pop
  get-pop [] k j = ground arith
  get-pop ((i, w) ∷ d) k j =
      ground (arith, get-pop d k j, e.equals_iff i k, e.equals_iff i j, e.equals_iff k j)

  pub get-put :
      (d : Dict K V) (k j : K) (v : V) → get (put d k v) j ≡ (if k == j then some v else get d j)
  unfolding get put
  get-put [] k j v = refl
  get-put ((i, w) ∷ d) k j v =
      ground (arith, get-put d k j v, e.equals_iff i k, e.equals_iff i j, e.equals_iff k j)

  pub get-put_self : (d : Dict K V) (k : K) (v : V) → get (put d k v) k ≡ some v
  get-put_self d k v = ground (arith, get-put d k k v, e.equals_iff k k)

  -- what holds of every value holds of the one that is found
  pub All-get :
      (P : V → Type 0) (d : Dict K V) (k : K) (v : V) → All P (values d) → get d k ≡ some v → P v
  unfolding get values
  All-get P ((j, w) ∷ d) k v h g = elim (Bool-cases (j == k)) [
    | inl here ↦ ground (arith, h.0)
    | inr later ↦ All-get P d k v h.1 (ground arith)
  ]
  All-get P [] k v h g = ground arith

  -- a value that is written is among the values
  pub any-put :
      (p : V → Bool) (d : Dict K V) (k : K) (v : V) → p v ≡ true → any p (values (put d k v)) ≡ true
  unfolding any values put
  any-put p [] k v h = ground arith
  any-put p ((j, w) ∷ d) k v h = ground (arith, any-put p d k v h)

  pub All-put :
      (P : V → Type 0) (d : Dict K V) (k : K) (v : V)
      → All P (values d)
      → P v
      → All P (values (put d k v))
  unfolding values put
  All-put P [] k v h q = (q, tt)
  All-put P ((j, w) ∷ d) k v h q = elim (Bool-cases (j == k)) [
    | inl here ↦ rw here (q, h.1)
    | inr later ↦ rw later (h.0, All-put P d k v h.1 q)
  ]

pub get-empty : {K V : Type 0} ⦃e : Eq K⦄ (k : K) → get {V = V} [] k ≡ none
unfolding get
get-empty k = refl

pub ruleset dict_laws = (get-empty, get-put)
