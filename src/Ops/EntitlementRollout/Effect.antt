-- ===== src/Ops/EntitlementRollout/Effect.antt =====
-- What a rollout makes of every row of the table.
use hosted_agents_saa_s_plat.Prelude.{
  string_eq, pair_eq, triple_eq, String, Bool, true, false, ◌&&◌, ◌≡◌, refl, ap, ◌∙◌, Option, none,
  List, [], ◌∷◌, ◌==◌, contains, map, length, if◌then◌else◌, Bool-cases, inl, inr,
}
use hosted_agents_saa_s_plat.Collections.KeySet.{contains-to_set}
use hosted_agents_saa_s_plat.Domain.Action.{ok}
use hosted_agents_saa_s_plat.Domain.Models.{Datetime}
use hosted_agents_saa_s_plat.Adapters.Database.{Table}
use hosted_agents_saa_s_plat.Adapters.Database.Laws.{TableLaws}
use hosted_agents_saa_s_plat.Adapters.Database.Changes.{no_clash}
use hosted_agents_saa_s_plat.Adapters.Postgres.Agents.{CustomerAgentEntitlementRow}
use hosted_agents_saa_s_plat.Adapters.Postgres.Agents.Steps.{grant_key}
use hosted_agents_saa_s_plat.Ops.EntitlementRollout.{
  MappingFile, Loaded, loaded, refused, Report, apply_summary, no_rows_loaded, dry_run_summary,
  exits, pair_of, apply_loaded, load_mapping_rows, insert_all, drop_if, drop_count, wildcard_pairs,
  apply_rows, apply_mapping,
}
use hosted_agents_saa_s_plat.Ops.EntitlementRollout.Rows.{
  or_mapped, nothing_mapped, insert_all_lem, drop_all_lem,
}

-- what a run reports of the mappings that it loaded
abbrev pub applied : Bool → List (String × String × String) → Report
applied drop_wildcards [] = no_rows_loaded
applied drop_wildcards (m ∷ mappings) =
    apply_summary (length (m ∷ mappings)) (drop_count drop_wildcards (m ∷ mappings))

-- the report of a run for that of a dry run
abbrev pub as_applied : Report → Report
as_applied (dry_run_summary grants pairs) = apply_summary grants pairs
as_applied report = report

module _ {T : Type 0}
    (entitlements : Table (String × String × String) CustomerAgentEntitlementRow T)
    (laws : TableLaws grant_key no_clash entitlements) (now : Datetime)
    (drop_wildcards : Bool) where
  -- the row under a key after the mappings were applied
  abbrev pub after_mapping :
      List (String × String × String)
      → T
      → String
      → String
      → String
      → Option CustomerAgentEntitlementRow
  after_mapping mappings s t c a =
      if drop_wildcards && c == "*" && contains (t, a) (map pair_of mappings)
      then none
      else or_mapped now (entitlements.find (t, c, a) s) (t, a, c) (contains (t, a, c) mappings)

  drop_if_lem :
      (mappings : List (String × String × String)) (s : T) (t c a : String)
      → entitlements.find (t, c, a) (drop_if entitlements drop_wildcards mappings s).1 ≡ (
          if drop_wildcards && c == "*" && contains (t, a) (map pair_of mappings)
          then none
          else entitlements.find (t, c, a) s)
  unfolding drop_if
  drop_if_lem mappings s t c a = elim (Bool-cases drop_wildcards) [
    | inl on ↦ rw on (
        drop_all_lem entitlements laws now (wildcard_pairs mappings) s t a c
        ∙ rw contains-to_set refl)
    | inr off ↦ rw off refl
  ]

  apply_rows_lem :
      (mappings : List (String × String × String)) (s : T) (t c a : String)
      → ((apply_rows entitlements now false drop_wildcards mappings s).0
          ≡ ok (applied drop_wildcards mappings))
        × (entitlements.find
              (t, c, a)
              (apply_rows entitlements now false drop_wildcards mappings s).1
            ≡ after_mapping mappings s t c a)
  unfolding apply_rows
  apply_rows_lem [] s t c a =
      (refl, nothing_mapped drop_wildcards (c == "*") (entitlements.find (t, c, a) s) now (t, a, c))
  apply_rows_lem (m ∷ mappings) s t c a =
      let (done, each) = insert_all_lem entitlements laws now (m ∷ mappings) s t a c in
      rw done (
        refl,
        drop_if_lem (m ∷ mappings) (insert_all entitlements now (m ∷ mappings) s).1 t c a
            ∙ ap
                (λ o.
                  if drop_wildcards && c == "*" && contains (t, a) (map pair_of (m ∷ mappings))
                  then none
                  else o)
                each,
      )

  -- A run on a file whose mappings load returns. Then a customer's grant is there if it was there, kept
  -- as it was, or if the file maps it; with --drop-wildcards no grant to everybody is left for a tenant
  -- and agent of the file, and every other row is as it was.
  pub find-apply_mapping :
      (file : Option MappingFile) (mappings : List (String × String × String)) (s : T)
      (t c a : String)
      → load_mapping_rows file ≡ loaded mappings
      → let (r, s') = apply_mapping entitlements now false drop_wildcards file s in
        (r ≡ ok (applied drop_wildcards mappings))
        × (entitlements.find (t, c, a) s' ≡ after_mapping mappings s t c a)
  unfolding apply_mapping
  find-apply_mapping file mappings s t c a h = rw h (apply_rows_lem mappings s t c a)

  dry_rows :
      (mappings : List (String × String × String)) (s : T)
      → (report : Report) × (apply_rows entitlements now true drop_wildcards mappings s
          ≡ (ok report, s))
        × ((apply_rows entitlements now false drop_wildcards mappings s).0 ≡ ok (as_applied report))
  unfolding apply_rows
  dry_rows [] s = (no_rows_loaded, refl, refl)
  dry_rows (m ∷ mappings) s = (_, refl, (apply_rows_lem (m ∷ mappings) s "" "" "").0)

  dry_loaded :
      (result : Loaded (List (String × String × String))) (s : T)
      → (report : Report) × (apply_loaded entitlements now true drop_wildcards result s
          ≡ (ok report, s))
        × ((apply_loaded entitlements now false drop_wildcards result s).0 ≡ ok (as_applied report))
  unfolding apply_loaded
  dry_loaded (loaded mappings) s = dry_rows mappings s
  dry_loaded (refused e) s = (exits e, refl, refl)

  -- A dry run writes nothing, whatever the file, and reports the numbers that the run itself reports.
  pub dry_run-agrees :
      (file : Option MappingFile) (s : T)
      → (report : Report) × (apply_mapping entitlements now true drop_wildcards file s
          ≡ (ok report, s))
        × ((apply_mapping entitlements now false drop_wildcards file s).0 ≡ ok (as_applied report))
  unfolding apply_mapping
  dry_run-agrees file s = dry_loaded (load_mapping_rows file) s
