-- ===== src/Domain/Action/Success.antt =====
-- What the success of a method says of its steps.
use hosted_agents_saa_s_plat.Prelude.{◌≡◌, refl, Bool, true, false, Option, none, some, arith}
use mathlib.Core.Path.{subst}
use hosted_agents_saa_s_plat.Domain.Action.{
  Action, Raised, Outcome, ok, err, continue, raise_if, or_raise, ◌>>=◌,
}

pub ok_inj : {A : Type 0} {a b : A} → ok a ≡ ok b → a ≡ b
ok_inj h = ground (arith, h)

module _ {S A B : Type 0} where
  continue_ok :
      (r : Outcome A) (f : A → Action S B) (s s' : S) (b : B)
      → continue r f s ≡ (ok b, s')
      → (a : A) × (r ≡ ok a) × (f a s ≡ (ok b, s'))
  continue_ok (ok a) f s s' b h = (a, refl, h)
  continue_ok (err e) f s s' b h = absurd (cc)

  -- the first step succeeded, and the rest from where it ended
  pub >>=_ok :
      (m : Action S A) (f : A → Action S B) (s s' : S) (b : B)
      → (m >>= f) s ≡ (ok b, s')
      → (a : A) × ((m s).0 ≡ ok a) × (f a (m s).1 ≡ (ok b, s'))
  >>=_ok m f s s' b h = continue_ok (m s).0 f (m s).1 s' b h

  -- the same, where the state after the first step is known
  pub >>=_from :
      (m : Action S A) (f : A → Action S B) (s s1 s' : S) (b : B)
      → (m s).1 ≡ s1
      → (m >>= f) s ≡ (ok b, s')
      → (a : A) × ((m s).0 ≡ ok a) × (f a s1 ≡ (ok b, s'))
  >>=_from m f s s1 s' b same h =
      let (a, known, rest) = >>=_ok m f s s' b h in
      (a, known, subst (λ x. f a x ≡ (ok b, s')) same rest)

module _ {S B : Type 0} where
  -- a guard that was passed
  pub raise_if_ok :
      (t : Bool) (e : Raised) (f : Unit {0} → Action S B) (s s' : S) (b : B)
      → (raise_if t e >>= f) s ≡ (ok b, s')
      → (t ≡ false) × (f tt s ≡ (ok b, s'))
  raise_if_ok true e f s s' b h = absurd (cc)
  raise_if_ok false e f s s' b h = (refl, h)

  -- a value that was there
  pub or_raise_ok :
      {A : Type 0} (o : Option A) (e : Raised) (f : A → Action S B) (s s' : S) (b : B)
      → (or_raise o e >>= f) s ≡ (ok b, s')
      → (a : A) × (o ≡ some a) × (f a s ≡ (ok b, s'))
  or_raise_ok none e f s s' b h = absurd (cc)
  or_raise_ok (some a) e f s s' b h = (a, refl, h)
