-- ===== src/Collections/KeySet.antt =====
-- Python's `set`, as a list without repetition. Its order is not observed: what the program makes
-- of a set is sorted or tested for membership.
use hosted_agents_saa_s_plat.Prelude.{
  ◌≡◌, refl, true, ◌||◌, ◌&&◌, not, List, [], ◌∷◌, ◌++◌, arith, Eq, ◌==◌, contains, if◌then◌else◌,
}

module _ {A : Type 0} ⦃e : Eq A⦄ where
  -- `s.add(a)`
  unfoldable pub add : List A → A → List A
  add s a = if contains a s then s else s ++ a ∷ []

  -- `s.discard(a)`
  unfoldable pub discard : List A → A → List A
  discard [] a = []
  discard (x ∷ s) a = let rest = discard s a in if a == x then rest else x ∷ rest

  -- `set(xs)`
  unfoldable pub to_set : List A → List A
  to_set [] = []
  to_set (x ∷ xs) = let rest = to_set xs in if contains x rest then rest else x ∷ rest

  contains-append_one : (s : List A) (a b : A) → contains b (s ++ a ∷ []) ≡ (b == a || contains b s)
  contains-append_one [] a b = ground arith
  contains-append_one (x ∷ s) a b = ground (arith, contains-append_one s a b)

  pub contains-add : (s : List A) (a b : A) → contains b (add s a) ≡ (b == a || contains b s)
  unfolding add
  contains-add s a b =
      ground (arith, contains-append_one s a b, e.equals_iff b a, e.equals_iff a b, same s a b)
    where
      same : (s : List A) (a b : A) → contains a s ≡ true → (b == a) ≡ true → contains b s ≡ true
      same s a b h q = ground (arith, e.equals_iff b a)

  pub contains-discard :
      (s : List A) (a b : A) → contains b (discard s a) ≡ (not (a == b) && contains b s)
  unfolding discard
  contains-discard [] a b = ground arith
  contains-discard (x ∷ s) a b =
      ground (arith, contains-discard s a b, e.equals_iff a b, e.equals_iff a x, e.equals_iff b x)

  pub contains-to_set : (xs : List A) (a : A) → contains a (to_set xs) ≡ contains a xs
  unfolding to_set
  contains-to_set [] a = refl
  contains-to_set (x ∷ xs) a =
      ground (arith, contains-to_set xs a, contains-to_set xs x, e.equals_iff a x)
