-- ===== src/Domain/Action.antt =====
-- Methods of stateful objects that may raise. What was written before a raise stays written, so
-- the state comes back beside the exception too.
pub mod Success
pub mod Keeps
use hosted_agents_saa_s_plat.Prelude.{ℕ, String, Bool, Option, none, some, if◌then◌else◌}

-- `http` is fastapi's HTTPException with its status code and detail; `error` is any other
-- exception, with its class name and message.
pub data Raised : Type 0 where
  http : ℕ → String → Raised
  error : String → String → Raised

pub data Outcome {ℓ} (A : Type ℓ) : Type ℓ where
  ok : A → Outcome A
  err : Raised → Outcome A

abbrev pub Action {ℓ} : Type ℓ → Type ℓ → Type ℓ
Action S A = S → Outcome A × S

module _ {ℓ} {S A : Type ℓ} where
  abbrev pub pure : A → Action S A
  pure a s = (ok a, s)

  abbrev pub raise : Raised → Action S A
  raise e s = (err e, s)

  -- a computation that raises or returns and touches no state
  abbrev pub lift : Outcome A → Action S A
  lift r s = (r, s)

  -- `if x is None: raise e`
  abbrev pub or_raise : Option A → Raised → Action S A
  or_raise none e = raise e
  or_raise (some a) e = pure a

module _ {ℓ} {S A B : Type ℓ} where
  abbrev pub continue : Outcome A → (A → Action S B) → Action S B
  continue (ok a) f s = f a s
  continue (err e) f s = (err e, s)

  infixl 5 ◌>>=◌ ◌>>◌
  abbrev pub ◌>>=◌ : Action S A → (A → Action S B) → Action S B
  ◌>>=◌ m f s = let (r, s') = m s in continue r f s'

  abbrev pub ◌>>◌ : Action S A → Action S B → Action S B
  m >> k = m >>= λ _. k

module _ {ℓ} {S A : Type ℓ} where
  abbrev handle : Outcome A → (Raised → Action S A) → Action S A
  handle (ok a) h s = (ok a, s)
  handle (err e) h s = h e s

  -- `try: m` / `except Exception as err: h(err)`
  abbrev pub catch : Action S A → (Raised → Action S A) → Action S A
  catch m h s = let (r, s') = m s in handle r h s'

abbrev pub raise_if : {S : Type 0} → Bool → Raised → Action S (Unit {0})
raise_if b e = if b then raise e else pure tt
