-- ===== src/Policies/Auth/Tenant/Credentials.antt =====
-- What a caller of `TenantAuthService.authenticate` in auth.py has shown.
use hosted_agents_saa_s_plat.Prelude.{
  string_eq, string_eq_iff, String, true, false, ◌||◌, ◌≡◌, ◌≢◌, ◌⊎◌, inl, inr, refl, Option, none,
  some, ◌==◌, arith, Bool-cases, Option-cases,
}
use hosted_agents_saa_s_plat.Collections.Dict.{get}
use hosted_agents_saa_s_plat.Domain.Action.{Action, Outcome, ok, err, http, ◌>>=◌}
use hosted_agents_saa_s_plat.Config.{Settings}
use hosted_agents_saa_s_plat.Policies.Auth.Claims.{Claims, claim_tenant}
use hosted_agents_saa_s_plat.Policies.Auth.Tenant.{
  TenantContext, auth_configured, is_production, is_valid_api_key, claim_subject, subject_for,
  valid_jwt_subject, accept_subject, check_credentials, authenticate,
}

-- the caller that the headers name
abbrev pub named : String → String → TenantContext
named tenant_id customer_user_id = record {
  tenant_id = tenant_id;
  customer_user_id = customer_user_id;
}

module _ {S : Type 0} (settings : Settings) (decode : String → Action S Claims) where
  -- the tenant's API key, a token for the tenant and the customer, or a service without
  -- credentials that is not in production
  abbrev pub Shown : String → String → String → String → S → Type 0
  Shown tenant_id customer_user_id api_key authorization s =
      ((api_key ≢ "") × (get settings.tenant_api_keys tenant_id ≡ some api_key))
      ⊎ ((claims : Claims) × ((decode authorization s).0 ≡ ok claims)
          × (claim_tenant claims ≡ tenant_id)
          × (claim_subject claims ≡ customer_user_id))
      ⊎ ((auth_configured settings ≡ false) × (is_production settings ≡ false))

  key_shown :
      (tenant_id api_key : String)
      → is_valid_api_key settings tenant_id api_key ≡ true
      → (api_key ≢ "") × (get settings.tenant_api_keys tenant_id ≡ some api_key)
  unfolding is_valid_api_key
  key_shown tenant_id api_key h = elim (Option-cases (get settings.tenant_api_keys tenant_id)) [
    | inl missing ↦ absurd (ground arith)
    | inr (expected, found) ↦
        ground (arith, string_eq_iff api_key expected, string_eq_iff api_key "")
  ]

  subject_shown :
      (tenant_id subject : String) (claims : Claims)
      → subject_for tenant_id claims ≡ some subject
      → (claim_tenant claims ≡ tenant_id) × (claim_subject claims ≡ subject)
  unfolding subject_for
  subject_shown tenant_id subject claims h =
      ground (arith, string_eq_iff (claim_tenant claims) tenant_id)

  accepted :
      (tenant_id customer_user_id : String) (subject : Option String) (caller : TenantContext)
      (s s' : S)
      → accept_subject settings decode tenant_id customer_user_id subject s ≡ (ok caller, s')
      → (subject ≡ some customer_user_id) × (caller ≡ named tenant_id customer_user_id)
  accepted tenant_id customer_user_id none caller s s' h = absurd (cc)
  accepted tenant_id customer_user_id (some subject) caller s s' h =
      ground (arith, string_eq_iff subject customer_user_id)

  -- the token's turn, once it is decoded
  by_token :
      (tenant_id customer_user_id authorization : String) (caller : TenantContext) (s s1 s' : S)
      (d : Outcome Claims)
      → decode authorization s ≡ (d, s1)
      → (valid_jwt_subject settings decode tenant_id authorization
            >>= accept_subject settings decode tenant_id customer_user_id)
          s
        ≡ (ok caller, s')
      → ((claims : Claims) × ((decode authorization s).0 ≡ ok claims)
          × (claim_tenant claims ≡ tenant_id)
          × (claim_subject claims ≡ customer_user_id))
        × (caller ≡ named tenant_id customer_user_id)
  unfolding valid_jwt_subject
  by_token tenant_id customer_user_id authorization caller s s1 s' (err e) g h =
      let h' : ◌≡◌ {A = Outcome TenantContext × S}
          (accept_subject settings decode tenant_id customer_user_id none s1) (ok caller, s') =
        rw g at h in
      absurd (cc)
  by_token tenant_id customer_user_id authorization caller s s1 s' (ok claims) g h =
      let h' : ◌≡◌ {A = Outcome TenantContext × S}
          (accept_subject settings decode tenant_id customer_user_id (subject_for tenant_id claims)
            s1)
          (ok caller, s') =
        rw g at h in
      let (found, same) = accepted tenant_id customer_user_id _ caller s1 s' h' in
      let (tenant, subject) = subject_shown tenant_id customer_user_id claims found in
      ((claims, rw g refl, tenant, subject), same)

  checked :
      (tenant_id customer_user_id api_key authorization : String) (caller : TenantContext)
      (s s' : S)
      → check_credentials settings decode tenant_id customer_user_id api_key authorization s
        ≡ (ok caller, s')
      → Shown tenant_id customer_user_id api_key authorization s
        × (caller ≡ named tenant_id customer_user_id)
  unfolding check_credentials
  checked tenant_id customer_user_id api_key authorization caller s s' h =
      elim (Bool-cases (auth_configured settings)) [
        | inl configured ↦ elim (Bool-cases (is_valid_api_key settings tenant_id api_key)) [
          | inl key ↦
              let h' : ◌≡◌ {A = Outcome TenantContext × S}
                  (ok (named tenant_id customer_user_id), s) (ok caller, s') =
                rw (configured, key) at h in
              (inl (key_shown tenant_id api_key key), cc)
          | inr no_key ↦
              let h' : (valid_jwt_subject settings decode tenant_id authorization
                      >>= accept_subject settings decode tenant_id customer_user_id)
                    s
                  ≡ (ok caller, s') =
                rw (configured, no_key) at h in
              let (token, same) =
                by_token tenant_id customer_user_id authorization caller s
                  (decode authorization s).1 s' (decode authorization s).0 refl h' in
              (inr (inl token), same)
        ]
        | inr open_service ↦ elim (Bool-cases (is_production settings)) [
          | inl production ↦
              let h' : ◌≡◌ {A = Outcome TenantContext × S}
                  (err (http 500 "Tenant authentication is not configured"), s) (ok caller, s') =
                rw (open_service, production) at h in
              absurd (cc)
          | inr development ↦
              let h' : ◌≡◌ {A = Outcome TenantContext × S}
                  (ok (named tenant_id customer_user_id), s) (ok caller, s') =
                rw (open_service, development) at h in
              (inr (inr (open_service, development)), cc)
        ]
      ]

  -- A caller who is let in is the one that the headers name, for the path's own tenant, and has
  -- shown the API key of the tenant or a token for that tenant and customer, or no credentials are
  -- configured and the service is not in production.
  pub authenticate_ok :
      (path_tenant_id tenant_id customer_user_id api_key authorization : String)
      (caller : TenantContext) (s s' : S)
      → authenticate settings decode path_tenant_id tenant_id customer_user_id api_key authorization
          s
        ≡ (ok caller, s')
      → (path_tenant_id ≡ tenant_id)
        × ((tenant_id ≢ "") × (customer_user_id ≢ ""))
        × Shown tenant_id customer_user_id api_key authorization s
        × (caller ≡ named tenant_id customer_user_id)
  unfolding authenticate
  authenticate_ok path_tenant_id tenant_id customer_user_id api_key authorization caller s s' h =
      elim (Bool-cases (tenant_id == "" || customer_user_id == "")) [
        | inl missing ↦
            let h' : ◌≡◌ {A = Outcome TenantContext × S}
                (err (http 400 "X-Tenant-Id and X-Customer-User-Id are required"), s)
                (ok caller, s') =
              rw missing at h in
            absurd (cc)
        | inr given ↦ elim (Bool-cases (path_tenant_id == tenant_id)) [
          | inr elsewhere ↦
              let h' : ◌≡◌ {A = Outcome TenantContext × S}
                  (err (http 403 "Path tenant_id does not match header tenant"), s)
                  (ok caller, s') =
                rw (given, elsewhere) at h in
              absurd (cc)
          | inl here ↦
              let h' : check_credentials settings decode tenant_id customer_user_id api_key
                    authorization s
                  ≡ (ok caller, s') =
                rw (given, here) at h in
              let (shown, same) =
                checked tenant_id customer_user_id api_key authorization caller s s' h' in
              (
                (string_eq_iff path_tenant_id tenant_id).0 here,
                ground (arith, string_eq_iff tenant_id "", string_eq_iff customer_user_id ""),
                shown,
                same,
              )
        ]
      ]
