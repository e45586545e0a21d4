-- ===== src/Api/Agents/Usable.antt =====
-- What it says that a plan was found usable in main.py.
use hosted_agents_saa_s_plat.Prelude.{
  ◌≡◌, refl, Bool, true, false, Option, none, some, if◌then◌else◌,
}
use hosted_agents_saa_s_plat.Domain.Action.{Action, Raised, ok, pure, raise, ◌>>=◌}
use hosted_agents_saa_s_plat.Domain.Models.{Plan}
use hosted_agents_saa_s_plat.Api.Agents.{usable}

usable_if :
    {S B : Type 0} (on : Bool) (plan : Plan) (e : Raised) (f : Plan → Action S B) (s s' : S) (b : B)
    → ((if on then pure plan else raise e) >>= f) s ≡ (ok b, s')
    → (on ≡ true) × (f plan s ≡ (ok b, s'))
usable_if true plan e f s s' b h = (refl, h)
usable_if false plan e f s s' b h = absurd (cc)

pub usable_ok :
    {S B : Type 0} (found : Option Plan) (e : Raised) (f : Plan → Action S B) (s s' : S) (b : B)
    → (usable found e >>= f) s ≡ (ok b, s')
    → (plan : Plan) × (found ≡ some plan) × (plan.active ≡ true) × (f plan s ≡ (ok b, s'))
usable_ok none e f s s' b h = absurd (cc)
usable_ok (some plan) e f s s' b h =
    let (on, rest) = usable_if plan.active plan e f s s' b h in (plan, refl, on, rest)
