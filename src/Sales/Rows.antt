-- ===== src/Sales/Rows.antt =====
-- argus/modules/sales/import_pipeline/row_parser.py and column_mapping.py: the fields of a row. The
-- text's `strip` is a parameter.
use argus_os.Prelude.{String, Option, none, some, [], ◌∷◌, is_empty, string_eq, if◌then◌else◌}
use argus_os.Prelude.Dict.{Dict, lookup, insert}

-- A row by column; DictReader gives None for a column that a short row lacks.
abbrev pub Row : Type 0
Row = Dict String (Option String)

abbrev pub default_column_mapping : Dict String String
default_column_mapping =
    ("company_name", "Company Name")
    ∷ ("company_industry", "Industry")
    ∷ ("company_website", "Website")
    ∷ ("contact_first_name", "First Name")
    ∷ ("contact_last_name", "Last Name")
    ∷ ("contact_email", "Email")
    ∷ ("contact_phone", "Phone")
    ∷ ("contact_title", "Title")
    ∷ ("territory", "Territory")
    ∷ ("campaign_name", "Campaign")
    ∷ ("dynamics_record_id", "Dynamics ID")
    ∷ ("notes", "Notes")
    ∷ []

-- `raw_row.get(column_name, "") or ""`
unfoldable pub cell : String → Row → String
cell column row = elim (lookup column row) [ some (some value) ↦ value | _ ↦ "" ]

-- `fields.get(name, "")`
unfoldable pub get_field : String → Dict String String → String
get_field name fields = elim (lookup name fields) [ some value ↦ value | none ↦ "" ]

module _ (strip : String → String) where
  -- The loop of `parse_row`.
  unfoldable pub parse_fields : Dict String String → Row → Dict String String → Dict String String
  parse_fields [] row parsed = parsed
  parse_fields ((name, column) ∷ mapping) row parsed =
      parse_fields mapping row (insert name (strip (cell column row)) parsed)

  -- None where `parse_row` raises RowParseError.
  unfoldable pub parse_row : Dict String String → Row → Option (Dict String String)
  unfolding is_empty get_field
  parse_row mapping row =
      let parsed = parse_fields mapping row [] in
      if is_empty (get_field "company_name" parsed) then none else some parsed
