-- ===== src/Adapters/Postgres/Agents/Refinement.antt =====
-- Any changes to the access catalog, through Postgres and in memory: what the two catalogs answer.
use hosted_agents_saa_s_plat.Prelude.{
  string_eq, pair_eq, triple_eq, string_eq_iff, ==_refl, String, Bool, true, false, ◌&&◌, ◌||◌, ◌≡◌,
  refl, sym, ap, ◌∙◌, Option, none, some, List, [], ◌∷◌, ◌==◌, contains, contains-sorted, map,
  arith, Bool-cases, Option-cases, inl, inr,
}
use mathlib.Core.Option.{map as map_option}
use hosted_agents_saa_s_plat.Collections.Dict.{any, get, get-empty}
use hosted_agents_saa_s_plat.Collections.KeySet.{contains-to_set}
use hosted_agents_saa_s_plat.Domain.Action.{ok}
use hosted_agents_saa_s_plat.Domain.Models.{TenantAgent}
use hosted_agents_saa_s_plat.Adapters.Database.{Table}
use hosted_agents_saa_s_plat.Adapters.Database.Laws.{TableLaws}
use hosted_agents_saa_s_plat.Adapters.Database.Changes.{no_clash}
use hosted_agents_saa_s_plat.Adapters.Database.Queries.{Bool-ext, any-select, select-any}
use hosted_agents_saa_s_plat.Adapters.Storage.Agents
use hosted_agents_saa_s_plat.Adapters.Storage.Agents.{AgentAccess}
use hosted_agents_saa_s_plat.Adapters.Storage.Agents.Access
use hosted_agents_saa_s_plat.Adapters.Postgres.Agents.{
  TenantAgentRow, CustomerAgentEntitlementRow, agent_of_row, names_customer, names_agent,
  entitled_if, get_tenant_agent, list_customer_agents, is_customer_entitled,
}
use hosted_agents_saa_s_plat.Adapters.Postgres.Agents.Steps.{
  agent_key, grant_key, Change, run_memory, undated, is_there, run_rows, Refines, run_refined,
}

named-listed :
    (tid cid aid t c a : String) (l : List (String × String × String))
    → contains (tid, cid, aid) l ≡ true
    → (tid == t && (cid == c || cid == "*") && aid == a) ≡ true
    → (contains (t, c, a) l || contains (t, "*", a) l) ≡ true
named-listed tid cid aid t c a l there named =
    ground
      (arith, string_eq_iff tid t, string_eq_iff cid c, string_eq_iff cid "*", string_eq_iff aid a)

keyed-named :
    (row : CustomerAgentEntitlementRow) (t c a cid : String)
    → grant_key row ≡ (t, cid, a)
    → (cid == c || cid == "*") ≡ true
    → names_agent t c a row ≡ true
keyed-named row t c a cid own names =
    ground (arith, string_eq_iff row.tenant_id t, string_eq_iff row.agent_id a)

contains-map :
    {A : Type 0} (a : String) (f : A → String) (xs : List A)
    → contains a (map f xs) ≡ any (λ x. a == f x) xs
unfolding any
contains-map a f [] = refl
contains-map a f (x ∷ xs) = ap (λ b. a == f x || b) (contains-map a f xs)

map_twice :
    (found : Option TenantAgentRow)
    → map_option undated (map_option agent_of_row found)
      ≡ map_option (λ r. undated (agent_of_row r)) found
map_twice none = refl
map_twice (some row) = refl

both_entitled :
    (found : Option TenantAgentRow) (stored : Option TenantAgent) {b b' : Bool}
    → map_option (λ r. undated (agent_of_row r)) found ≡ map_option undated stored
    → b ≡ b'
    → entitled_if found b ≡ Agents.entitled_if stored b'
both_entitled none none h e = refl
both_entitled none (some agent) h e = absurd (cc)
both_entitled (some row) none h e = absurd (cc)
both_entitled (some row) (some agent) {b} {b'} h e =
    let same : row.active ≡ agent.active = ap Access.is_active h in ground arith

module _ {S T : Type 0} (agents : Table (String × String) TenantAgentRow S)
    (entitlements : Table (String × String × String) CustomerAgentEntitlementRow T)
    (grant_laws : TableLaws grant_key no_clash entitlements) (s : S × T) (m : AgentAccess)
    (r : Refines agents entitlements s m) (t c a : String) where
  -- the grants of the agent that name the customer, through a query and a test of its rows
  listed_rows :
      (p q : CustomerAgentEntitlementRow → Bool)
      (le : CustomerAgentEntitlementRow → CustomerAgentEntitlementRow → Bool)
      → ((row : CustomerAgentEntitlementRow) → (p row && q row) ≡ names_agent t c a row)
      → any q (entitlements.select p le s.1) ≡ Access.listed t c a m
  listed_rows p q le same = Bool-ext _ _ sound complete
    where
      sound : any q (entitlements.select p le s.1) ≡ true → Access.listed t c a m ≡ true
      sound h =
          let (row, passed, stored, tested) =
            any-select grant_key no_clash entitlements grant_laws p q le s.1 h in
          named-listed row.tenant_id row.customer_user_id row.agent_id t c a m.entitlements
            (sym (r.same_grants (grant_key row)) ∙ rw stored refl)
            (sym (same row) ∙ rw (passed, tested) refl)

      at_key :
          (cid : String)
          → (cid == c || cid == "*") ≡ true
          → is_there (entitlements.find (t, cid, a) s.1) ≡ true
          → any q (entitlements.select p le s.1) ≡ true
      at_key cid names there = elim (Option-cases (entitlements.find (t, cid, a) s.1)) [
        | inl missing ↦ let gone : false ≡ true = rw missing at there in absurd (cc)
        | inr (row, stored) ↦
            let named =
              same row ∙ keyed-named row t c a cid (grant_laws.own_key s.1 _ row stored) names in
            select-any grant_key no_clash entitlements grant_laws p q le s.1 (t, cid, a) row stored
              (ground (arith, named)) (ground (arith, named))
      ]

      complete : Access.listed t c a m ≡ true → any q (entitlements.select p le s.1) ≡ true
      complete h = elim (Bool-cases (contains (t, c, a) m.entitlements)) [
        | inl own ↦ at_key c (rw ==_refl refl) (r.same_grants (t, c, a) ∙ own)
        | inr other ↦ at_key "*" (ground arith) (r.same_grants (t, "*", a) ∙ ground arith)
      ]

  same_entitled :
      is_customer_entitled agents entitlements t c a s ≡ Agents.is_customer_entitled t c a m
  unfolding is_customer_entitled Agents.is_customer_entitled Agents.get_tenant_agent any
  same_entitled =
      both_entitled (agents.find (t, a) s.0) (get m.tenant_agents (t, a)) (r.same_agents (t, a))
        (listed_rows (names_agent t c a) (λ _. true) (λ _ _. true) (λ row. ground arith))

  same_listed :
      (text_le : String → String → Bool)
      → contains a (list_customer_agents text_le entitlements t c s)
        ≡ contains a (Agents.list_customer_agents t c m)
  unfolding list_customer_agents
  same_listed text_le =
      rw (contains-sorted, contains-to_set, contains-map)
        (listed_rows (names_customer t c) (λ row. a == row.agent_id)
            (λ x y. text_le x.agent_id y.agent_id)
            (λ row. ground (arith, string_eq_iff a row.agent_id, string_eq_iff row.agent_id a))
          ∙ sym (Access.entitled-eq-listed t c a m).0)

-- Whatever agents are written and whatever is granted and revoked, from empty tables: no call raises,
-- and Postgres answers as the in-memory catalog does after the same calls, whether a customer is
-- entitled, which agents are listed for the customer, and what an agent is but for its created_at.
pub run-Refines :
    {S T : Type 0} (agents : Table (String × String) TenantAgentRow S)
    (entitlements : Table (String × String × String) CustomerAgentEntitlementRow T)
    → TableLaws agent_key no_clash agents
    → TableLaws grant_key no_clash entitlements
    → (text_le : String → String → Bool) (s : S × T)
    → ((k : String × String) → agents.find k s.0 ≡ none)
    → ((k : String × String × String) → entitlements.find k s.1 ≡ none)
    → (changes : List Change) (t c a : String)
    → let (r, s') = run_rows agents entitlements changes s in
      let m = run_memory changes Agents.empty in
      (r ≡ ok tt)
      × (is_customer_entitled agents entitlements t c a s' ≡ Agents.is_customer_entitled t c a m)
      × (contains a (list_customer_agents text_le entitlements t c s')
          ≡ contains a (Agents.list_customer_agents t c m))
      × (map_option undated (get_tenant_agent agents t a s')
          ≡ map_option undated (Agents.get_tenant_agent t a m))
unfolding get_tenant_agent Agents.get_tenant_agent
run-Refines agents entitlements agent_laws grant_laws text_le s no_agents no_grants changes t c a =
    let start : Refines agents entitlements s Agents.empty = record {
      same_agents = λ k. rw (no_agents k, get-empty) refl;
      same_grants = λ k. rw (no_grants k) refl;
    } in
    let (done, r) =
      run_refined agents entitlements agent_laws grant_laws changes s Agents.empty start in
    let s' = (run_rows agents entitlements changes s).1 in
    let m = run_memory changes Agents.empty in
    (
      done,
      same_entitled agents entitlements grant_laws s' m r t c a,
      same_listed agents entitlements grant_laws s' m r t c a text_le,
      map_twice (agents.find (t, a) s'.0) ∙ r.same_agents (t, a),
    )
