-- ===== src/Tests/Policies.antt =====
-- The rate limiter, the quota and the authorization of administrators on concrete input.
use Prim.Native.Nat.{min}
use hosted_agents_saa_s_plat.Prelude.{
  string_eq, true, ◌≡◌, ◌↔◌, some, [], ◌∷◌, pos, ◌+ℤ◌, ◌≤ℤ◌, pos_part, max_ℤ, arith,
}
use hosted_agents_saa_s_plat.Domain.Action.{ok}
use hosted_agents_saa_s_plat.Policies.Quota.{
  QuotaPolicy, QuotaCounter, allow_request, allow_request_iff,
}
use hosted_agents_saa_s_plat.Policies.RateLimit.{new_limiter, window_of}
use hosted_agents_saa_s_plat.Policies.RateLimit.Window.{
  Calls, Ordered, requested, granted, granted-eq-min,
}
use hosted_agents_saa_s_plat.Policies.Auth.Admin.{AdminPrincipal, authorize}
use hosted_agents_saa_s_plat.Policies.Auth.Admin.Permission.{Permitted, authorize_iff}

-- two calls of a key in one window, one in the next, and another key between them
abbrev calls : Calls
calls = (5, "t1:a") ∷ (6, "t2:a") ∷ (7, "t1:a") ∷ (60000001, "t1:a") ∷ []

calls-Ordered : Ordered 0 calls
unfolding window_of
calls-Ordered = ground arith

granted-eq-min_example :
    granted "t1:a" 0 calls (new_limiter (pos 1))
    ≡ min (requested "t1:a" 0 calls) (pos_part (max_ℤ (pos 1) (pos 1)))
granted-eq-min_example = granted-eq-min (pos 1) "t1:a" 0 calls calls-Ordered

abbrev policy : QuotaPolicy
policy = record { included_messages = pos 10; hard_token_cap = pos 100 }

abbrev counter : QuotaCounter
counter = record { messages_used = pos 9; tokens_used = pos 80 }

allow_request_iff_example :
    (allow_request policy counter (pos 20) ≡ true)
    ↔ ((pos 9 +ℤ pos 1 ≤ℤ pos 10) × (pos 80 +ℤ pos (pos_part (pos 20)) ≤ℤ pos 100))
allow_request_iff_example = allow_request_iff policy counter (pos 20)

abbrev tenant_admin : AdminPrincipal
tenant_admin = record {
  subject = "ann";
  roles = "tenant_admin" ∷ [];
  scopes = [];
  tenant_ids = "t1" ∷ [];
}

authorize_iff_example :
    (authorize tenant_admin
        ("platform_admin" ∷ "tenant_admin" ∷ [])
        ("tenant.plan.write" ∷ [])
        (some "t1")
      ≡ ok tt)
    ↔ Permitted tenant_admin
        ("platform_admin" ∷ "tenant_admin" ∷ [])
        ("tenant.plan.write" ∷ [])
        (some "t1")
authorize_iff_example =
    authorize_iff tenant_admin "platform_admin" ("tenant_admin" ∷ []) ("tenant.plan.write" ∷ [])
      (some "t1")
