-- ===== src/Collections/Dict/Distinct.antt =====
-- No key is listed twice: then every listed entry is the one that `get` finds.
use hosted_agents_saa_s_plat.Prelude.{
  ◌+◌, ◌≡◌, refl, Bool, true, ◌&&◌, not, none, some, [], ◌∷◌, arith, Eq, ◌==◌, ==_refl, All, length,
  filter, if◌then◌else◌, Bool-cases, inl, inr,
}
use hosted_agents_saa_s_plat.Collections.Dict.{Dict, get, put, get-put}

module _ {K V : Type 0} ⦃e : Eq K⦄ where
  abbrev pub IsDistinct : Dict K V → Type 0
  IsDistinct [] = Unit
  IsDistinct (x ∷ d) = (get d x.0 ≡ none) × IsDistinct d

  pub put-IsDistinct : (d : Dict K V) (k : K) (v : V) → IsDistinct d → IsDistinct (put d k v)
  unfolding put get
  put-IsDistinct [] k v h = (refl, tt)
  put-IsDistinct (x ∷ d) k v h = elim (Bool-cases (x.0 == k)) [
    | inl here ↦ rw here h
    | inr later ↦ rw later (
      ground (arith, get-put d k x.0 v, e.equals_iff k x.0, e.equals_iff x.0 k),
      put-IsDistinct d k v h.1,
    )
  ]

  abbrev Found : Dict K V → K × V → Type 0
  Found d x = get d x.0 ≡ some x.1

  Found-later :
      (x : K × V) (d rest : Dict K V)
      → get d x.0 ≡ none
      → All (Found d) rest
      → All (Found (x ∷ d)) rest
  unfolding get
  Found-later x d [] fresh h = tt
  Found-later x d (y ∷ rest) fresh h =
      (ground (arith, h.0, e.equals_iff x.0 y.0), Found-later x d rest fresh h.1)

  pub IsDistinct-Found : (d : Dict K V) → IsDistinct d → All (Found d) d
  unfolding get
  IsDistinct-Found [] h = tt
  IsDistinct-Found (x ∷ d) h =
      (rw (==_refl x.0) refl, Found-later x d d h.0 (IsDistinct-Found d h.1))

  -- the entries under other keys that pass a test
  abbrev pub others : (K × V → Bool) → K → Dict K V → Dict K V
  others p k d = filter (λ x. p x && not (x.0 == k)) d

  others_fresh :
      (p : K × V → Bool) (k : K) (d : Dict K V) → get d k ≡ none → others p k d ≡ filter p d
  unfolding get
  others_fresh p k [] h = refl
  others_fresh p k (x ∷ d) h = ground (arith, others_fresh p k d)

  -- A write leaves exactly one entry under its key.
  pub length-filter-put :
      (p : K × V → Bool) (d : Dict K V) (k : K) (v : V)
      → IsDistinct d
      → ((j : K) → (j == k) ≡ true → p (j, v) ≡ p (k, v))
      → length (filter p (put d k v)) ≡ length (others p k d) + (if p (k, v) then 1 else 0)
  unfolding put
  length-filter-put p [] k v h same = ground arith
  length-filter-put p (x ∷ d) k v h same = elim (Bool-cases (x.0 == k)) [
    | inl here ↦
        let gone : get d k ≡ none = rw (← (e.equals_iff x.0 k).0 here) h.0 in
        ground (arith, others_fresh p k d gone, same x.0 here)
    | inr later ↦ ground (arith, length-filter-put p d k v h.1 same)
  ]
