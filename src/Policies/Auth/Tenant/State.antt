-- ===== src/Policies/Auth/Tenant/State.antt =====
-- `TenantAuthService.authenticate` in auth.py changes nothing but what the decoder changes.
use hosted_agents_saa_s_plat.Prelude.{
  string_eq, String, ◌||◌, ◌≡◌, ◌⊎◌, inl, inr, refl, Option, none, some, ◌==◌, Bool-cases, arith,
}
use hosted_agents_saa_s_plat.Domain.Action.{Action, Outcome, ok, err, ◌>>=◌}
use hosted_agents_saa_s_plat.Config.{Settings}
use hosted_agents_saa_s_plat.Policies.Auth.Claims.{Claims}
use hosted_agents_saa_s_plat.Policies.Auth.Tenant.{
  auth_configured, is_production, is_valid_api_key, subject_for, valid_jwt_subject, accept_subject,
  check_credentials, authenticate,
}

module _ {S : Type 0} (settings : Settings) (decode : String → Action S Claims) where
  accepting :
      (t c : String) (subject : Option String) (s : S)
      → (accept_subject settings decode t c subject s).1 ≡ s
  accepting t c none s = refl
  accepting t c (some subject) s = ground arith

  token_state :
      (t c authorization : String) (s s1 : S) (d : Outcome Claims)
      → decode authorization s ≡ (d, s1)
      → ((valid_jwt_subject settings decode t authorization >>= accept_subject settings decode t c)
          s).1
        ≡ s1
  unfolding valid_jwt_subject
  token_state t c authorization s s1 (err e) g = rw g refl
  token_state t c authorization s s1 (ok claims) g = rw g (accepting t c (subject_for t claims) s1)

  -- The state after a call is the one before it, or the one that the decoder left.
  pub authenticate_state :
      (p t c k authorization : String) (s : S)
      → ((authenticate settings decode p t c k authorization s).1 ≡ s)
        ⊎ ((authenticate settings decode p t c k authorization s).1 ≡ (decode authorization s).1)
  unfolding authenticate check_credentials
  authenticate_state p t c k authorization s = elim (Bool-cases (t == "" || c == "")) [
    | inl missing ↦ inl (rw missing refl)
    | inr given ↦ elim (Bool-cases (p == t)) [
      | inr elsewhere ↦ inl (rw (given, elsewhere) refl)
      | inl here ↦ elim (Bool-cases (auth_configured settings)) [
        | inl configured ↦ elim (Bool-cases (is_valid_api_key settings t k)) [
          | inl key ↦ inl (rw (given, here, configured, key) refl)
          | inr no_key ↦ inr (
              rw (given, here, configured, no_key)
                (token_state t c authorization s (decode authorization s).1
                  (decode authorization s).0 refl))
        ]
        | inr open_service ↦ elim (Bool-cases (is_production settings)) [
          | inl production ↦ inl (rw (given, here, open_service, production) refl)
          | inr development ↦ inl (rw (given, here, open_service, development) refl)
        ]
      ]
    ]
  ]
