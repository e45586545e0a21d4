-- ===== src/Ops/EntitlementRollout/Rows.antt =====
-- What the statements of a rollout make of every row of the table.
use hosted_agents_saa_s_plat.Prelude.{
  string_eq, pair_eq, triple_eq, string_eq_iff, triple_beq, pair_beq, String, Bool, true, false,
  ◌&&◌, ◌||◌, ◌≡◌, refl, ap, ◌∙◌, Option, none, some, List, [], ◌∷◌, ◌==◌, contains, arith,
  if◌then◌else◌, Option-cases, inl, inr,
}
use hosted_agents_saa_s_plat.Domain.Action.{ok}
use hosted_agents_saa_s_plat.Domain.Models.{Datetime}
use hosted_agents_saa_s_plat.Adapters.Database.{Table}
use hosted_agents_saa_s_plat.Adapters.Database.Laws.{TableLaws}
use hosted_agents_saa_s_plat.Adapters.Database.Changes.{no_clash, add_lem}
use hosted_agents_saa_s_plat.Adapters.Postgres.Agents.{CustomerAgentEntitlementRow}
use hosted_agents_saa_s_plat.Adapters.Postgres.Agents.Steps.{grant_key}
use hosted_agents_saa_s_plat.Ops.EntitlementRollout.{
  mapped_row, insert_mapped, insert_unless, insert_all, drop_all,
}

-- a row of a mapping, where none was
abbrev pub or_mapped :
    Datetime
    → Option CustomerAgentEntitlementRow
    → String × String × String
    → Bool
    → Option CustomerAgentEntitlementRow
or_mapped now (some old) m listed = some old
or_mapped now none m listed = if listed then some (mapped_row now m) else none

added :
    (x y z t a c : String) (now : Datetime)
    (find : String × String × String → Option CustomerAgentEntitlementRow)
    → find (x, z, y) ≡ none
    → (if triple_beq (x, z, y) (t, c, a) then some (mapped_row now (x, y, z)) else find (t, c, a))
      ≡ or_mapped now (find (t, c, a)) (t, a, c) (triple_beq (t, a, c) (x, y, z))
added x y z t a c now find free = elim (Option-cases (find (t, c, a))) [
  | inl missing ↦ rw missing (
      ground (
        arith,
        string_eq_iff x t,
        string_eq_iff t x,
        string_eq_iff y a,
        string_eq_iff a y,
        string_eq_iff z c,
        string_eq_iff c z,
      ))
  | inr (old, there) ↦ rw there (
      ground (
        arith,
        free,
        there,
        string_eq_iff x t,
        string_eq_iff t x,
        string_eq_iff y a,
        string_eq_iff a y,
        string_eq_iff z c,
        string_eq_iff c z,
      ))
]

kept :
    (x y z t a c : String) (now : Datetime)
    (find : String × String × String → Option CustomerAgentEntitlementRow)
    (old : CustomerAgentEntitlementRow)
    → find (x, z, y) ≡ some old
    → find (t, c, a) ≡ or_mapped now (find (t, c, a)) (t, a, c) (triple_beq (t, a, c) (x, y, z))
kept x y z t a c now find old there = elim (Option-cases (find (t, c, a))) [
  | inl missing ↦ rw missing (
      ground (
        arith,
        missing,
        there,
        string_eq_iff x t,
        string_eq_iff t x,
        string_eq_iff y a,
        string_eq_iff a y,
        string_eq_iff z c,
        string_eq_iff c z,
      ))
  | inr (other, stored) ↦ rw stored refl
]

or_none :
    (o : Option CustomerAgentEntitlementRow) (now : Datetime) (m : String × String × String)
    → o ≡ or_mapped now o m false
or_none none now m = refl
or_none (some old) now m = refl

pub nothing_mapped :
    (b b' : Bool) (o : Option CustomerAgentEntitlementRow) (now : Datetime)
    (m : String × String × String)
    → o ≡ (if b && b' && false then none else or_mapped now o m false)
nothing_mapped true true o now m = or_none o now m
nothing_mapped true false o now m = or_none o now m
nothing_mapped false b' o now m = or_none o now m

or_or :
    (o : Option CustomerAgentEntitlementRow) (now : Datetime) (m : String × String × String)
    (b b' : Bool)
    → or_mapped now (or_mapped now o m b) m b' ≡ or_mapped now o m (b || b')
or_or none now m true b' = refl
or_or none now m false b' = refl
or_or (some old) now m b b' = refl

dropped :
    (x y t a c : String) (later : Bool) (found found' : Option CustomerAgentEntitlementRow)
    → found' ≡ (if triple_beq (x, "*", y) (t, c, a) then none else found)
    → (if c == "*" && later then none else found')
      ≡ (if c == "*" && (pair_beq (t, a) (x, y) || later) then none else found)
dropped x y t a c later found found' e = ground (
  arith,
  e,
  string_eq_iff x t,
  string_eq_iff t x,
  string_eq_iff "*" c,
  string_eq_iff c "*",
  string_eq_iff y a,
  string_eq_iff a y,
)

module _ {T : Type 0}
    (entitlements : Table (String × String × String) CustomerAgentEntitlementRow T)
    (laws : TableLaws grant_key no_clash entitlements) (now : Datetime) where
  insert_unless_lem :
      (x y z : String) (s : T) (found : Option CustomerAgentEntitlementRow) (t a c : String)
      → entitlements.find (x, z, y) s ≡ found
      → ((insert_unless entitlements found (mapped_row now (x, y, z)) s).0 ≡ ok tt)
        × (entitlements.find
              (t, c, a)
              (insert_unless entitlements found (mapped_row now (x, y, z)) s).1
            ≡ or_mapped now
                (entitlements.find (t, c, a) s)
                (t, a, c)
                (triple_beq (t, a, c) (x, y, z)))
  insert_unless_lem x y z s none t a c e =
      let (done, each) =
        add_lem grant_key no_clash entitlements laws (mapped_row now (x, y, z)) s e
          (λ _ _ _. refl) in
      (done, each (t, c, a) ∙ added x y z t a c now (λ k. entitlements.find k s) e)
  insert_unless_lem x y z s (some old) t a c e =
      (refl, kept x y z t a c now (λ k. entitlements.find k s) old e)

  pub insert_all_lem :
      (mappings : List (String × String × String)) (s : T) (t a c : String)
      → ((insert_all entitlements now mappings s).0 ≡ ok tt)
        × (entitlements.find (t, c, a) (insert_all entitlements now mappings s).1
            ≡ or_mapped now (entitlements.find (t, c, a) s) (t, a, c) (contains (t, a, c) mappings))
  unfolding insert_all
  insert_all_lem [] s t a c = (refl, or_none (entitlements.find (t, c, a) s) now (t, a, c))
  insert_all_lem ((x, y, z) ∷ mappings) s t a c =
      let (done, each) = insert_unless_lem x y z s (entitlements.find (x, z, y) s) t a c refl in
      let (done', each') =
        insert_all_lem mappings (insert_mapped entitlements (mapped_row now (x, y, z)) s).1 t a c in
      rw done (
        done',
        each'
            ∙ ap (λ o. or_mapped now o (t, a, c) (contains (t, a, c) mappings)) each
            ∙ or_or (entitlements.find (t, c, a) s) now (t, a, c) (triple_beq (t, a, c) (x, y, z))
                (contains (t, a, c) mappings),
      )

  pub drop_all_lem :
      (pairs : List (String × String)) (s : T) (t a c : String)
      → entitlements.find (t, c, a) (drop_all entitlements pairs s)
        ≡ (if c == "*" && contains (t, a) pairs then none else entitlements.find (t, c, a) s)
  unfolding drop_all
  drop_all_lem [] s t a c = ground arith
  drop_all_lem ((x, y) ∷ pairs) s t a c =
      drop_all_lem pairs (entitlements.delete (x, "*", y) s) t a c
      ∙ dropped x y t a c (contains (t, a) pairs) _ _ (laws.find-delete (x, "*", y) s (t, c, a))
