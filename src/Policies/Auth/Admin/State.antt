-- ===== src/Policies/Auth/Admin/State.antt =====
-- `_authorize_admin` of main.py changes nothing but what the decoder changes.
use hosted_agents_saa_s_plat.Prelude.{String, ◌≡◌, refl, Option, List}
use hosted_agents_saa_s_plat.Domain.Action.{Action}
use hosted_agents_saa_s_plat.Domain.Action.Keeps.{continue_keeps}
use hosted_agents_saa_s_plat.Policies.Auth.Claims.{Claims}
use hosted_agents_saa_s_plat.Policies.Auth.Admin.{authenticate, authorize, authorize_admin}

-- The state after the admission of an administrator is the one that the decoder left.
pub authorize_admin_state :
    {S : Type 0} (decode : String → Action S Claims) (authorization : String)
    (roles scopes : List String) (t : Option String) (s : S)
    → (authorize_admin decode authorization roles scopes t s).1 ≡ (decode authorization s).1
unfolding authorize_admin authenticate
authorize_admin_state decode authorization roles scopes t s =
    let decoded = decode authorization s in
    let read = authenticate decode authorization s in
    let same : read.1 ≡ decoded.1 =
      continue_keeps (λ x. x) decoded.1 decoded.1 refl decoded.0 _ (λ claims. refl) in
    continue_keeps (λ x. x) read.1 decoded.1 same read.0 _
      (λ p.
        continue_keeps (λ x. x) read.1 decoded.1 same (authorize p roles scopes t) _ (λ _. same))
