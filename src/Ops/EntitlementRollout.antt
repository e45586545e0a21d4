-- ===== src/Ops/EntitlementRollout.antt =====
-- src/saas_platform/ops/entitlement_rollout.py over the table of entitlements. The command line, the
-- file system and the csv module are not modelled: what `csv.DictReader` reads is an argument, what
-- `csv.DictWriter` writes and the figures that are printed are results. The order in which a set is
-- iterated is not observed.
pub mod Mapping
pub mod Rows
pub mod Effect
use hosted_agents_saa_s_plat.Prelude.{
  string_eq, pair_eq, triple_eq, ℕ, suc, ◌+◌, String, Bool, true, false, ◌&&◌, ◌||◌, not, Option,
  none, some, List, [], ◌∷◌, ◌==◌, map, filter, length, contains, sorted, if◌then◌else◌,
}
use hosted_agents_saa_s_plat.Collections.Dict.{Dict, get}
use hosted_agents_saa_s_plat.Collections.KeySet.{to_set}
use hosted_agents_saa_s_plat.Text.{strip}
use hosted_agents_saa_s_plat.Text.Order.{text_leb}
use hosted_agents_saa_s_plat.Domain.Action.{Action, Outcome, ok, err, pure, ◌>>◌, continue}
use hosted_agents_saa_s_plat.Domain.Models.{Datetime}
use hosted_agents_saa_s_plat.Adapters.Database.{Table, add}
use hosted_agents_saa_s_plat.Adapters.Postgres.Agents.{CustomerAgentEntitlementRow}

abbrev is_wildcard : CustomerAgentEntitlementRow → Bool
is_wildcard row = row.customer_user_id == "*"

abbrev is_explicit : CustomerAgentEntitlementRow → Bool
is_explicit row = not (row.customer_user_id == "*")

abbrev agent_pair : CustomerAgentEntitlementRow → String × String
agent_pair row = (row.tenant_id, row.agent_id)

abbrev customer_pair : CustomerAgentEntitlementRow → String × String
customer_pair row = (row.tenant_id, row.customer_user_id)

-- what `_audit` prints
pub record Audit : Type 0 where
  pub total_rows : ℕ
  pub wildcard_rows : ℕ
  pub explicit_rows : ℕ
  pub wildcard_tenant_agent_pairs : ℕ
  pub explicit_tenant_customer_pairs : ℕ

-- `order by tenant_id, agent_id` in the collation of the database
abbrev pub pair_le : (String → String → Bool) → String × String → String × String → Bool
pair_le text_le (a, b) (c, d) = if a == c then text_le b d else text_le a c

module _ {T : Type 0}
    (entitlements : Table (String × String × String) CustomerAgentEntitlementRow T) where
  abbrev pub rows_where :
      (CustomerAgentEntitlementRow → Bool) → T → List CustomerAgentEntitlementRow
  rows_where p = entitlements.select p (λ _ _. true)

  unfoldable pub audit : T → Audit
  audit s =
      let rows = rows_where (λ _. true) s in
      record {
        total_rows = length rows;
        wildcard_rows = length (filter is_wildcard rows);
        explicit_rows = length (filter is_explicit rows);
        wildcard_tenant_agent_pairs = length (to_set (map agent_pair (rows_where is_wildcard s)));
        explicit_tenant_customer_pairs =
            length (to_set (map customer_pair (rows_where is_explicit s)));
      }

  -- the rows that are written below the header: a tenant, an agent and an empty customer_user_id
  unfoldable pub export_template : (String → String → Bool) → T → List (String × String × String)
  export_template text_le s =
      map (λ (p : String × String). (p.0, p.1, ""))
        (sorted (pair_le text_le) (to_set (map agent_pair (rows_where is_wildcard s))))

-- A file as `DictReader` reads it: a row maps a column to its text, or to None where the row is short.
pub record MappingFile : Type 0 where
  pub fieldnames : Option (List String)
  pub lines : List (Dict String (Option String))

-- why `_load_mapping_rows` exits
pub data LoadError : Type 0 where
  not_found : LoadError
  missing_columns : List String → LoadError
  missing_customer_column : LoadError
  wildcard_at : ℕ → LoadError

pub data Loaded (A : Type 0) : Type 0 where
  loaded : A → Loaded A
  refused : LoadError → Loaded A

-- `reader.fieldnames or []`
abbrev pub names_of : Option (List String) → List String
names_of none = []
names_of (some names) = names

-- `str(raw.get(field, ""))`
abbrev pub text_of_cell : Option (Option String) → String
text_of_cell none = ""
text_of_cell (some none) = "None"
text_of_cell (some (some value)) = value

abbrev pub cell : Dict String (Option String) → String → String
cell raw field = strip (text_of_cell (get raw field))

abbrev pub cons_loaded :
    String × String × String
    → Loaded (List (String × String × String))
    → Loaded (List (String × String × String))
cons_loaded row (loaded rows) = loaded (row ∷ rows)
cons_loaded row (refused e) = refused e

-- the body of the `for`, whose line stands at `index`
abbrev pub load_line :
    ℕ
    → String × String × String
    → Loaded (List (String × String × String))
    → Loaded (List (String × String × String))
load_line index (tenant_id, agent_id, customer_user_id) rest =
    if tenant_id == "" || (agent_id == "" || customer_user_id == "")
    then rest
    else if customer_user_id == "*"
    then refused (wildcard_at index)
    else cons_loaded (tenant_id, agent_id, customer_user_id) rest

unfoldable pub load_lines :
    String → ℕ → List (Dict String (Option String)) → Loaded (List (String × String × String))
load_lines customer_field index [] = loaded []
load_lines customer_field index (raw ∷ lines) =
    load_line index (cell raw "tenant_id", cell raw "agent_id", cell raw customer_field)
      (load_lines customer_field (suc index) lines)

-- `sorted` on tuples
abbrev pub triple_le : String × String × String → String × String × String → Bool
triple_le (a, b, c) (x, y, z) =
    if a == x then (if b == y then text_leb c z else text_leb b y) else text_leb a x

abbrev pub sort_loaded :
    Loaded (List (String × String × String)) → Loaded (List (String × String × String))
sort_loaded (loaded rows) = loaded (sorted triple_le (to_set rows))
sort_loaded (refused e) = refused e

abbrev pub customer_field_of : List String → String
customer_field_of names =
    if contains "customer_user_id" names then "customer_user_id" else "customer_id"

abbrev pub load_columns : List String → MappingFile → Loaded (List (String × String × String))
unfolding load_lines
load_columns [] file =
    let names = names_of file.fieldnames in
    if contains (customer_field_of names) names
    then sort_loaded (load_lines (customer_field_of names) 2 file.lines)
    else refused missing_customer_column
load_columns (x ∷ missing) file = refused (missing_columns (sorted text_leb (x ∷ missing)))

-- `required.difference(set(reader.fieldnames or []))`
abbrev pub missing_of : Option (List String) → List String
missing_of names =
    filter (λ field. not (contains field (names_of names))) ("tenant_id" ∷ "agent_id" ∷ [])

unfoldable pub load_mapping_rows : Option MappingFile → Loaded (List (String × String × String))
unfolding load_columns
load_mapping_rows none = refused not_found
load_mapping_rows (some file) = load_columns (missing_of file.fieldnames) file

-- what `_apply_mapping` prints, and the exit of the reader
pub data Report : Type 0 where
  exits : LoadError → Report
  no_rows_loaded : Report
  dry_run_summary : ℕ → ℕ → Report
  apply_summary : ℕ → ℕ → Report

abbrev pub committed_or : {T A : Type 0} → Outcome A → T → T → Outcome A × T
committed_or (ok a) before after = (ok a, after)
committed_or (err e) before after = (err e, before)

-- `with engine.begin()`: an exception undoes every statement
abbrev pub transaction : {T A : Type 0} → Action T A → Action T A
transaction m s = let (r, s') = m s in committed_or r s s'

abbrev pub pair_of : String × String × String → String × String
pair_of (tenant_id, agent_id, customer_user_id) = (tenant_id, agent_id)

abbrev pub wildcard_pairs : List (String × String × String) → List (String × String)
wildcard_pairs mappings = to_set (map pair_of mappings)

abbrev pub drop_count : Bool → List (String × String × String) → ℕ
drop_count drop_wildcards mappings = if drop_wildcards then length (wildcard_pairs mappings) else 0

abbrev pub mapped_row : Datetime → String × String × String → CustomerAgentEntitlementRow
mapped_row now (tenant_id, agent_id, customer_user_id) = record {
  tenant_id = tenant_id;
  customer_user_id = customer_user_id;
  agent_id = agent_id;
  created_at = now;
}

module _ {T : Type 0}
    (entitlements : Table (String × String × String) CustomerAgentEntitlementRow T) where
  -- `insert ... on conflict do nothing`
  abbrev pub insert_unless :
      Option CustomerAgentEntitlementRow → CustomerAgentEntitlementRow → Action T (Unit {0})
  insert_unless none row = add entitlements row
  insert_unless (some old) row = pure tt

  abbrev pub insert_mapped : CustomerAgentEntitlementRow → Action T (Unit {0})
  insert_mapped row s =
      insert_unless (entitlements.find (row.tenant_id, row.customer_user_id, row.agent_id) s) row s

  unfoldable pub insert_all : Datetime → List (String × String × String) → Action T (Unit {0})
  insert_all now [] = pure tt
  insert_all now (m ∷ mappings) = insert_mapped (mapped_row now m) >> insert_all now mappings

  -- `delete ... where tenant_id = ... and agent_id = ... and customer_user_id = '*'`
  unfoldable pub drop_all : List (String × String) → T → T
  drop_all [] s = s
  drop_all ((tenant_id, agent_id) ∷ pairs) s =
      drop_all pairs (entitlements.delete (tenant_id, "*", agent_id) s)

  abbrev pub drop_if : Bool → List (String × String × String) → Action T (Unit {0})
  unfolding drop_all
  drop_if drop_wildcards mappings s =
      (ok tt, if drop_wildcards then drop_all (wildcard_pairs mappings) s else s)

  abbrev pub apply_rows : Datetime → Bool → Bool → List (String × String × String) → Action T Report
  unfolding insert_all drop_if
  apply_rows now dry_run drop_wildcards [] = pure no_rows_loaded
  apply_rows now dry_run drop_wildcards (m ∷ mappings) =
      let rows = m ∷ mappings in
      let count = drop_count drop_wildcards rows in
      if dry_run
      then pure (dry_run_summary (length rows) count)
      else transaction (insert_all now rows >> drop_if drop_wildcards rows)
        >> pure (apply_summary (length rows) count)

  abbrev pub apply_loaded :
      Datetime → Bool → Bool → Loaded (List (String × String × String)) → Action T Report
  unfolding apply_rows
  apply_loaded now dry_run drop_wildcards (loaded mappings) =
      apply_rows now dry_run drop_wildcards mappings
  apply_loaded now dry_run drop_wildcards (refused e) = pure (exits e)

  unfoldable pub apply_mapping : Datetime → Bool → Bool → Option MappingFile → Action T Report
  unfolding apply_loaded load_mapping_rows
  apply_mapping now dry_run drop_wildcards mapping_file =
      apply_loaded now dry_run drop_wildcards (load_mapping_rows mapping_file)
