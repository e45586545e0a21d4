-- ===== src/Tests/Rollout.antt =====
-- A rollout on concrete input.
use hosted_agents_saa_s_plat.Prelude.{
  string_eq, triple_eq, String, true, false, ◌≡◌, refl, Option, none, some, List, [], ◌∷◌, contains,
}
use hosted_agents_saa_s_plat.Collections.Dict.{Dict, any, get}
use hosted_agents_saa_s_plat.Collections.KeySet.{to_set}
use hosted_agents_saa_s_plat.Text.{strip}
use hosted_agents_saa_s_plat.Text.Order.{text_leb}
use hosted_agents_saa_s_plat.Domain.Action.{ok}
use hosted_agents_saa_s_plat.Adapters.Database.{Table}
use hosted_agents_saa_s_plat.Adapters.Database.Changes.{no_clash}
use hosted_agents_saa_s_plat.Adapters.Postgres.Agents.{CustomerAgentEntitlementRow}
use hosted_agents_saa_s_plat.Adapters.Postgres.Agents.Steps.{grant_key}
use hosted_agents_saa_s_plat.Ops.EntitlementRollout.{
  MappingFile, loaded, Report, load_mapping_rows, apply_mapping, apply_summary, customer_field_of,
  names_of,
}
use hosted_agents_saa_s_plat.Ops.EntitlementRollout.Effect.{
  as_applied, find-apply_mapping, dry_run-agrees,
}
use hosted_agents_saa_s_plat.Ops.EntitlementRollout.Mapping.{maps, contains-load_mapping_rows}
use hosted_agents_saa_s_plat.Tests.Tables.{list_table, list_table-laws}

abbrev line : String → Option String → Dict String (Option String)
line a c = ("tenant_id", some "t1") ∷ ("agent_id", some a) ∷ ("customer_user_id", c) ∷ []

abbrev file : MappingFile
file = record {
  fieldnames = some ("tenant_id" ∷ "agent_id" ∷ "customer_user_id" ∷ []);
  lines = line "b" (some " u2 ") ∷ line "a" (some "u1") ∷ line "c" (some "") ∷ [];
}

abbrev mappings : List (String × String × String)
mappings = ("t1", "a", "u1") ∷ ("t1", "b", "u2") ∷ []

file_loads : load_mapping_rows (some file) ≡ loaded mappings
unfolding load_mapping_rows strip get to_set text_leb
file_loads = refl

-- a line without its last cell maps the agent to a customer of the name None
short_line :
    load_mapping_rows (some (record file { lines = line "a" none ∷ [] }))
    ≡ loaded (("t1", "a", "None") ∷ [])
unfolding load_mapping_rows strip get to_set
short_line = refl

abbrev grants :
    Table (String × String × String) CustomerAgentEntitlementRow (List CustomerAgentEntitlementRow)
grants = list_table grant_key no_clash

abbrev everybody : List CustomerAgentEntitlementRow
everybody = record { tenant_id = "t1"; customer_user_id = "*"; agent_id = "a"; created_at = 4 } ∷ []

find-apply_mapping_example :
    let (r, s') = apply_mapping grants 9 false true (some file) everybody in
    (r ≡ ok (apply_summary 2 2)) × (grants.find ("t1", "*", "a") s' ≡ none)
unfolding to_set
find-apply_mapping_example =
    find-apply_mapping grants (list_table-laws grant_key no_clash) 9 true (some file) mappings
      everybody "t1" "*" "a" file_loads

dry_run-agrees_example :
    (report : Report) × (apply_mapping grants 9 true true (some file) everybody
      ≡ (ok report, everybody))
    × ((apply_mapping grants 9 false true (some file) everybody).0 ≡ ok (as_applied report))
dry_run-agrees_example =
    dry_run-agrees grants (list_table-laws grant_key no_clash) 9 true (some file) everybody

contains-load_mapping_rows_example :
    contains ("t1", "a", "u1") mappings
    ≡ any (maps (customer_field_of (names_of file.fieldnames)) ("t1", "a", "u1")) file.lines
contains-load_mapping_rows_example =
    contains-load_mapping_rows file mappings ("t1", "a", "u1") file_loads
