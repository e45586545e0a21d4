-- ===== src/Domain/Action/Keeps.antt =====
-- A part of the state that stays as it is, whether a step returns or raises.
use hosted_agents_saa_s_plat.Prelude.{◌≡◌, Bool, true, false, Option, none, some}
use hosted_agents_saa_s_plat.Domain.Action.{
  Action, Raised, Outcome, ok, err, continue, raise_if, or_raise, ◌>>=◌,
}

module _ {S V B : Type 0} (part : S → V) (s : S) (v : V) (h : part s ≡ v) where
  pub continue_keeps :
      {A : Type 0} (r : Outcome A) (f : A → Action S B)
      → ((a : A) → part (f a s).1 ≡ v)
      → part (continue r f s).1 ≡ v
  continue_keeps (ok a) f k = k a
  continue_keeps (err e) f k = h

  pub raise_if_keeps :
      (b : Bool) (e : Raised) (f : Unit {0} → Action S B)
      → part (f tt s).1 ≡ v
      → part ((raise_if b e >>= f) s).1 ≡ v
  raise_if_keeps true e f k = h
  raise_if_keeps false e f k = k

  pub or_raise_keeps :
      {A : Type 0} (o : Option A) (e : Raised) (f : A → Action S B)
      → ((a : A) → part (f a s).1 ≡ v)
      → part ((or_raise o e >>= f) s).1 ≡ v
  or_raise_keeps none e f k = h
  or_raise_keeps (some a) e f k = k a
