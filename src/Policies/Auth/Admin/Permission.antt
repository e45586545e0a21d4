-- ===== src/Policies/Auth/Admin/Permission.antt =====
-- `AdminAuthService.authorize` against the authorization model of docs/ENTRA_ADMIN_RBAC_CONTRACT.md.
use hosted_agents_saa_s_plat.Prelude.{
  string_eq, string_eq_iff, ==_refl, String, true, false, ap, ◌∙◌, ◌≡◌, ◌↔◌, ◌⊎◌, inl, inr, refl,
  Option, none, some, List, [], ◌∷◌, ◌==◌, contains, arith, Bool-cases,
}
use hosted_agents_saa_s_plat.Domain.Action.{Action, Outcome, ok, err, continue, pure}
use hosted_agents_saa_s_plat.Policies.Auth.Claims.{Claims}
use hosted_agents_saa_s_plat.Policies.Auth.Admin.{
  AdminPrincipal, intersects, can_access_tenant, outside_scope, authorize, principal_of,
  authenticate, authorize_admin,
}

-- one of the names that are held is required
abbrev pub Shares : List String → List String → Type 0
Shares held required = (x : String) × (contains x held ≡ true) × (contains x required ≡ true)

intersects-Shares :
    (held required : List String) → intersects held required ≡ true → Shares held required
unfolding intersects
intersects-Shares [] required h = absurd (cc)
intersects-Shares (x ∷ held) required h = elim (Bool-cases (contains x required)) [
  | inl here ↦ (x, rw (==_refl x) refl, here)
  | inr not_here ↦
      let (y, a, b) = intersects-Shares held required (ground arith) in (y, ground (arith, a), b)
]

Shares-intersects :
    (x : String) (held required : List String)
    → contains x held ≡ true
    → contains x required ≡ true
    → intersects held required ≡ true
unfolding intersects
Shares-intersects x [] required h k = h
Shares-intersects x (y ∷ held) required h k = elim (Bool-cases (x == y)) [
  | inl same ↦ rw (← (string_eq_iff x y).0 same, k) refl
  | inr other ↦ ground (arith, Shares-intersects x held required (ground arith) k)
]

-- platform administrators bypass tenant scoping; others need the tenant or "*" among their own
abbrev pub Scoped : AdminPrincipal → String → Type 0
Scoped p tenant_id =
    (contains "platform_admin" p.roles ≡ true)
    ⊎ (contains "*" p.tenant_ids ≡ true)
    ⊎ (contains tenant_id p.tenant_ids ≡ true)

abbrev pub InScope : AdminPrincipal → Option String → Type 0
InScope p none = Unit
InScope p (some tenant_id) = (tenant_id ≡ "") ⊎ Scoped p tenant_id

-- a required role or a required scope is held, and the tenant is in scope
abbrev pub Permitted : AdminPrincipal → List String → List String → Option String → Type 0
Permitted p roles scopes tenant_id =
    (Shares p.roles roles ⊎ Shares p.scopes scopes) × InScope p tenant_id

in_scope :
    (p : AdminPrincipal) (tenant_id : Option String)
    → outside_scope p tenant_id ≡ false
    → InScope p tenant_id
unfolding can_access_tenant
in_scope p none h = tt
in_scope p (some tenant_id) h = ground (arith, string_eq_iff tenant_id "")

scope_in :
    (p : AdminPrincipal) (tenant_id : Option String)
    → InScope p tenant_id
    → outside_scope p tenant_id ≡ false
unfolding can_access_tenant
scope_in p none h = refl
scope_in p (some tenant_id) h = ground (arith, string_eq_iff tenant_id "")

-- With a role among the required ones, `authorize` passes exactly if the principal is permitted.
pub authorize_iff :
    (p : AdminPrincipal) (role : String) (roles scopes : List String) (tenant_id : Option String)
    → (authorize p (role ∷ roles) scopes tenant_id ≡ ok tt)
      ↔ Permitted p (role ∷ roles) scopes tenant_id
unfolding authorize
authorize_iff p role roles scopes tenant_id = (sound, complete)
  where
    sound :
        authorize p (role ∷ roles) scopes tenant_id ≡ ok tt
        → Permitted p (role ∷ roles) scopes tenant_id
    sound h = elim (Bool-cases (intersects p.roles (role ∷ roles))) [
      | inl held ↦
          (inl (intersects-Shares p.roles (role ∷ roles) held), in_scope p tenant_id (ground arith))
      | inr lacking ↦ elim (Bool-cases (intersects p.scopes scopes)) [
        | inl held ↦
            (inr (intersects-Shares p.scopes scopes held), in_scope p tenant_id (ground arith))
        | inr none_held ↦ absurd (ground arith)
      ]
    ]

    complete :
        Permitted p (role ∷ roles) scopes tenant_id
        → authorize p (role ∷ roles) scopes tenant_id ≡ ok tt
    complete (inl (x, a, b), s) =
        ground (arith, Shares-intersects x p.roles (role ∷ roles) a b, scope_in p tenant_id s)
    complete (inr (x, a, b), s) =
        ground (arith, Shares-intersects x p.scopes scopes a b, scope_in p tenant_id s)

last_step :
    {S : Type 0} (p q : AdminPrincipal) (o : Outcome (Unit {0})) (s s' : S)
    → continue o (λ _. pure p) s ≡ (ok q, s')
    → (o ≡ ok tt) × (q ≡ p) × (s ≡ s')
last_step p q (ok tt) s s' h = (refl, cc, ap (λ (x : Outcome AdminPrincipal × _). x.1) h)
last_step p q (err e) s s' h = absurd (cc)

module _ {S : Type 0} (decode : String → Action S Claims) (authorization role : String)
    (roles scopes : List String) (tenant_id : Option String) (s : S) where
  -- What a caller who passes has shown: a token that decodes, to a permitted principal.
  pub authorize_admin_ok :
      {p : AdminPrincipal} {s' : S}
      → authorize_admin decode authorization (role ∷ roles) scopes tenant_id s ≡ (ok p, s')
      → (claims : Claims) × (decode authorization s ≡ (ok claims, s'))
        × (p ≡ principal_of claims)
        × Permitted p (role ∷ roles) scopes tenant_id
  unfolding authorize_admin authenticate
  authorize_admin_ok {p} {s'} h = go (decode authorization s) refl
    where
      go :
          (d : Outcome Claims × S)
          → decode authorization s ≡ d
          → (claims : Claims) × (decode authorization s ≡ (ok claims, s'))
            × (p ≡ principal_of claims)
            × Permitted p (role ∷ roles) scopes tenant_id
      go (err e, s1) e1 =
          let h' : ◌≡◌ {A = Outcome AdminPrincipal × S} (err e, s1) (ok p, s') = rw e1 at h in
          absurd (cc)
      go (ok claims, s1) e1 =
          let p' = principal_of claims in
          let h' : ◌≡◌ {A = Outcome AdminPrincipal × S}
              (continue (authorize p' (role ∷ roles) scopes tenant_id) (λ _. pure p') s1)
              (ok p, s') =
            rw e1 at h in
          let (passed, same, state) =
            last_step p' p (authorize p' (role ∷ roles) scopes tenant_id) s1 s' h' in
          (
            claims,
            e1 ∙ ap (λ (x : S). (ok claims, x)) state,
            same,
            rw same ((authorize_iff p' role roles scopes tenant_id).0 passed),
          )
