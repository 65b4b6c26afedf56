-- ===== src/Sales/Importer/Tests.antt =====
-- An import of three rows: two of one company, and one without a company.
use argus_os.Prelude.{
  String, true, false, ◌≡◌, refl, none, some, List, [], ◌∷◌, ok, string_eq, is_empty, if◌then◌else◌,
  ◌==◌,
}
use argus_os.Prelude.Lists.{select}
use argus_os.Prelude.Dict.{lookup, insert}
use argus_os.Sales.Rows.{Row, default_column_mapping, cell, get_field, parse_fields, parse_row}
use argus_os.Sales.Importer.{
  NewIds, Import, import_company, import_contact, import_campaign, publish_lead, import_fields,
  import_row, import_rows, import_file, by_key,
}
use argus_os.Sales.Importer.Links.{Linked, import_file-Linked}
use argus_os.Sales.Importer.Counts.{Balanced, import_file-Balanced}

-- The texts of these rows have no spaces around them, and the names are in lower case but for one.
abbrev keep : String → String
keep s = s

abbrev lower : String → String
lower s = if s == "Acme" then "acme" else s

abbrev ids : String → NewIds
ids lead = record { company = "c1"; contact = "k1"; campaign = "m1"; lead = lead }

abbrev rows : List (Row × NewIds)
rows =
    (("Company Name", some "acme") ∷ ("Email", some "a@b") ∷ [], ids "l1")
    ∷ (("Company Name", none) ∷ [], ids "l2")
    ∷ (("Company Name", some "Acme") ∷ ("Email", some "") ∷ [], ids "l3")
    ∷ []

import_file-Balanced_example :
    (t : Import) × ((import_file lower keep default_column_mapping true "leads.csv" [] [] [] rows
        ≡ (ok tt, t))
      × ((t.total_rows ≡ 3) × Balanced t))
unfolding is_empty
import_file-Balanced_example =
    import_file-Balanced lower keep default_column_mapping true "leads.csv" [] [] [] rows
      (refl, (refl, (refl, tt)))

import_file-Linked_example :
    (t : Import) × ((import_file lower keep default_column_mapping true "leads.csv" [] [] [] rows
        ≡ (ok tt, t))
      × Linked t)
unfolding is_empty
import_file-Linked_example =
    import_file-Linked lower keep default_column_mapping true "leads.csv" [] [] [] rows
      (refl, (refl, (refl, tt)))

-- The second row is an error, and the third finds the first one's company.
import_file_test :
    let t = (import_file lower keep default_column_mapping false "leads.csv" [] [] [] rows).1 in
    (t.errors ≡ (2 ∷ []))
    × ((t.companies_created ≡ 1) × ((t.companies_reused ≡ 1) × (t.contacts_created ≡ 1)))
unfolding import_file import_rows import_row import_fields import_company import_contact
    import_campaign publish_lead parse_row parse_fields cell get_field lookup insert is_empty by_key
    select
import_file_test = (refl, (refl, (refl, refl)))
