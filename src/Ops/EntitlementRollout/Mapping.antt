-- ===== src/Ops/EntitlementRollout/Mapping.antt =====
-- Which rows of a mapping file are loaded.
use hosted_agents_saa_s_plat.Prelude.{
  string_eq, triple_eq, ℕ, suc, String, Bool, ◌&&◌, ◌||◌, not, ◌≡◌, refl, ◌∙◌, ap, Option, some,
  List, [], ◌∷◌, ◌==◌, arith, contains, contains-sorted, Bool-cases, inl, inr, ◌≢◌,
}
use hosted_agents_saa_s_plat.Collections.Dict.{Dict, any}
use hosted_agents_saa_s_plat.Collections.KeySet.{to_set, contains-to_set}
use hosted_agents_saa_s_plat.Ops.EntitlementRollout.{
  MappingFile, Loaded, loaded, refused, missing_customer_column, names_of, missing_of,
  customer_field_of, cell, load_line, load_lines, sort_loaded, load_columns, load_mapping_rows,
  triple_le,
}

loaded_inj : {A : Type 0} {a b : A} → loaded a ≡ loaded b → a ≡ b
loaded_inj h = ground (arith, h)

-- a tenant, an agent and one customer, none of them empty
abbrev pub is_explicit : String × String × String → Bool
is_explicit (t, a, c) = not (t == "") && (not (a == "") && (not (c == "") && not (c == "*")))

-- the cells of a line
abbrev pub row_of : String → Dict String (Option String) → String × String × String
row_of customer_field raw = (cell raw "tenant_id", cell raw "agent_id", cell raw customer_field)

-- a line with this mapping that is explicit
abbrev pub maps : String → String × String × String → Dict String (Option String) → Bool
maps customer_field m raw =
    is_explicit (row_of customer_field raw) && m == row_of customer_field raw

line_loaded :
    (index : ℕ) (m row : String × String × String) (rest : Loaded (List (String × String × String)))
    (rows : List (String × String × String))
    → load_line index row rest ≡ loaded rows
    → (before : List (String × String × String)) × (rest ≡ loaded before)
      × (contains m rows ≡ (is_explicit row && m == row || contains m before))
line_loaded index m (t, a, c) (loaded before) rows h = (before, refl, ground arith)
line_loaded index m (t, a, c) (refused e) rows h = absurd (ground arith)

module _ (customer_field : String) (m : String × String × String) where
  lines_loaded :
      (index : ℕ) (lines : List (Dict String (Option String)))
      (rows : List (String × String × String))
      → load_lines customer_field index lines ≡ loaded rows
      → contains m rows ≡ any (maps customer_field m) lines
  unfolding load_lines any
  lines_loaded index [] rows h = rw (← loaded_inj h) refl
  lines_loaded index (raw ∷ lines) rows h =
      let (before, known, same) =
        line_loaded index m (row_of customer_field raw)
          (load_lines customer_field (suc index) lines) rows h in
      same
      ∙ ap (λ b. is_explicit (row_of customer_field raw) && m == row_of customer_field raw || b)
          (lines_loaded (suc index) lines before known)

  sorted_loaded :
      (result : Loaded (List (String × String × String))) (rows : List (String × String × String))
      → sort_loaded result ≡ loaded rows
      → (before : List (String × String × String)) × (result ≡ loaded before)
        × (contains m rows ≡ contains m before)
  sorted_loaded (loaded before) rows h = (
    before,
    refl,
    rw (← loaded_inj h) (contains-sorted triple_le m (to_set before) ∙ contains-to_set before m),
  )
  sorted_loaded (refused e) rows h = absurd (cc)

columns_loaded :
    (missing : List String) (file : MappingFile) (rows : List (String × String × String))
    (m : String × String × String)
    → load_columns missing file ≡ loaded rows
    → contains m rows ≡ any (maps (customer_field_of (names_of file.fieldnames)) m) file.lines
unfolding load_columns
columns_loaded [] file rows m h =
    let names = names_of file.fieldnames in
    elim (Bool-cases (contains (customer_field_of names) names)) [
      | inl there ↦
          let (before, known, same) =
            sorted_loaded (customer_field_of names) m
              (load_lines (customer_field_of names) 2 file.lines) rows (rw there at h) in
          same ∙ lines_loaded (customer_field_of names) m 2 file.lines before known
      | inr missing ↦ absurd (no_column (rw missing at h))
    ]
  where
    no_column : refused missing_customer_column ≢ loaded rows
    no_column e = cc
columns_loaded (x ∷ missing) file rows m h = absurd (cc)

-- The mappings that load are exactly those of the lines of the file whose tenant, agent and customer
-- are not empty once stripped and whose customer is not "*".
pub contains-load_mapping_rows :
    (file : MappingFile) (rows : List (String × String × String)) (m : String × String × String)
    → load_mapping_rows (some file) ≡ loaded rows
    → contains m rows ≡ any (maps (customer_field_of (names_of file.fieldnames)) m) file.lines
unfolding load_mapping_rows
contains-load_mapping_rows file rows m h = columns_loaded (missing_of file.fieldnames) file rows m h
