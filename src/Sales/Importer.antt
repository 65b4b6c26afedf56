-- ===== src/Sales/Importer.antt =====
-- argus/modules/sales/import_pipeline/importer.py: Importer. The
-- rows that `csv.DictReader` yields are an argument, each with the uuids that its new records would
-- get; the texts' `lower` and `strip` are parameters. Of an error the number of its row is kept.
pub mod Counts
pub mod Links
mod Tests
use argus_os.Prelude.{
  ℕ, suc, ◌+◌, String, Bool, true, false, not, Option, none, some, List, [], ◌∷◌, ◌++◌, Exec, pure,
  raise, gets, modify, guard, or_raise, ◌>>=◌, ◌>>◌, is_empty, string_eq, if◌then◌else◌, ok, err,
  Result,
}
use argus_os.Prelude.Lists.{select}
use argus_os.Prelude.Dict.{Dict, lookup, insert}
use argus_os.Events.{Event, text, number}
use argus_os.Sales.{sales_event}
use argus_os.Sales.Rows.{Row, get_field, parse_row}
use argus_os.Sales.Records.{Company, Contact, Campaign, Lead}

-- The uuids for the records of one row.
pub record NewIds : Type 0 where
  pub company : String
  pub contact : String
  pub campaign : String
  pub lead : String

-- The local variables of `import_file`, and the events that it published.
pub record Import : Type 0 where
  pub companies_by_name : Dict String Company
  pub contacts_by_email : Dict String Contact
  pub campaigns_by_name : Dict String Campaign
  pub leads : List Lead
  pub errors : List ℕ
  pub companies_created : ℕ
  pub companies_reused : ℕ
  pub contacts_created : ℕ
  pub contacts_reused : ℕ
  pub campaigns_created : ℕ
  pub campaigns_reused : ℕ
  pub total_rows : ℕ
  pub published : List Event

-- `publish_sales_event` raises ValueError on an empty id.
pub data ImportError : Type 0 where
  value_error : ImportError

abbrev pub Method : Type 0 → Type 0
Method A = Exec ImportError Import A

module _ (lower : String → String) where
  unfoldable pub import_company : Dict String String → (new_id : String) → Method Company
  import_company fields new_id s =
      let name = get_field "company_name" fields in
      elim (lookup (lower name) s.companies_by_name) [
        | some company ↦ (ok company, record s { companies_reused = s.companies_reused + 1 })
        | none ↦
            let company : Company = record {
              company_id = new_id;
              name = name;
              industry = get_field "company_industry" fields;
              website = get_field "company_website" fields;
              territory = get_field "territory" fields;
            } in
            (
              ok company,
              record s {
                companies_by_name = insert (lower name) company s.companies_by_name;
                companies_created = s.companies_created + 1;
              },
            )
      ]

  unfoldable pub import_contact :
      Dict String String → (company_id new_id : String) → Method (Option Contact)
  unfolding is_empty
  import_contact fields company_id new_id s =
      let email = get_field "contact_email" fields in
      if is_empty email then (ok none, s) else elim (lookup (lower email) s.contacts_by_email) [
        | some contact ↦ (ok (some contact), record s { contacts_reused = s.contacts_reused + 1 })
        | none ↦
            let contact : Contact = record {
              contact_id = new_id;
              company_id = company_id;
              first_name = get_field "contact_first_name" fields;
              last_name = get_field "contact_last_name" fields;
              email = email;
              phone = get_field "contact_phone" fields;
              title = get_field "contact_title" fields;
            } in
            (
              ok (some contact),
              record s {
                contacts_by_email = insert (lower email) contact s.contacts_by_email;
                contacts_created = s.contacts_created + 1;
              },
            )
      ]

  unfoldable pub import_campaign : Dict String String → (new_id : String) → Method (Option Campaign)
  unfolding is_empty
  import_campaign fields new_id s =
      let name = get_field "campaign_name" fields in
      if is_empty name then (ok none, s) else elim (lookup (lower name) s.campaigns_by_name) [
        | some campaign ↦
            (ok (some campaign), record s { campaigns_reused = s.campaigns_reused + 1 })
        | none ↦
            let campaign : Campaign = record { campaign_id = new_id; name = name } in
            (
              ok (some campaign),
              record s {
                campaigns_by_name = insert (lower name) campaign s.campaigns_by_name;
                campaigns_created = s.campaigns_created + 1;
              },
            )
      ]

-- `contact.contact_id if contact else ""`
abbrev pub contact_id : Option Contact → String
contact_id none = ""
contact_id (some contact) = contact.contact_id

abbrev pub campaign_id : Option Campaign → String
campaign_id none = ""
campaign_id (some campaign) = campaign.campaign_id

-- `event_bus` says whether there is a bus.
unfoldable pub publish_lead :
    (event_bus : Bool) (path : String) (row_number : ℕ) → Lead → Method Unit
publish_lead false path row_number lead s = (ok tt, s)
publish_lead true path row_number lead s =
    elim (sales_event "LeadImported" "Lead" lead.lead_id
      (("row_number", number row_number) ∷ ("source_file", text path) ∷ [])) [
        | none ↦ (err value_error, s)
        | some event ↦ (ok tt, record s { published = event ∷ s.published })
      ]

module _ (lower strip : String → String) (mapping : Dict String String) (event_bus : Bool)
    (path : String) where
  -- What a row that parses leaves: its records, its lead, and the event.
  unfoldable pub import_fields : (row_number : ℕ) → Dict String String → NewIds → Method Unit
  import_fields row_number fields ids = do
    company ← import_company lower fields ids.company
    contact ← import_contact lower fields company.company_id ids.contact
    campaign ← import_campaign lower fields ids.campaign
    let lead : Lead = record {
      lead_id = ids.lead;
      company_id = company.company_id;
      contact_id = contact_id contact;
      campaign_id = campaign_id campaign;
      territory = get_field "territory" fields;
      source = "lead_workspace_import";
      dynamics_record_id = get_field "dynamics_record_id" fields;
      notes = get_field "notes" fields;
    }
    modify (λ s. record s { leads = s.leads ++ lead ∷ [] })
    publish_lead event_bus path row_number lead

  unfoldable pub import_row : (row_number : ℕ) → Row → NewIds → Method Unit
  import_row row_number row ids = do
    modify (λ s. record s { total_rows = s.total_rows + 1 })
    elim (parse_row strip mapping row) [
      | none ↦ modify (λ s. record s { errors = s.errors ++ row_number ∷ [] })
      | some fields ↦ import_fields row_number fields ids
    ]

  unfoldable pub import_rows : (row_number : ℕ) → List (Row × NewIds) → Method Unit
  import_rows row_number [] = pure tt
  import_rows row_number ((row, ids) ∷ rows) = do
    import_row row_number row ids
    import_rows (row_number + 1) rows

  -- The dict that a comprehension over `values` with `key(value)` as the key makes, on top of one.
  unfoldable pub by_key : {V : Type 0} → (V → String) → List V → Dict String V → Dict String V
  by_key key [] d = d
  by_key key (v ∷ vs) d = by_key key vs (insert (key v) v d)

  abbrev pub initial : List Company → List Contact → List Campaign → Import
  initial companies contacts campaigns = record {
    companies_by_name = by_key (λ c. lower c.name) companies [];
    contacts_by_email =
        by_key (λ c. lower c.email) (select (λ c. not (is_empty c.email)) contacts) [];
    campaigns_by_name = by_key (λ c. lower c.name) campaigns [];
    leads = [];
    errors = [];
    companies_created = 0;
    companies_reused = 0;
    contacts_created = 0;
    contacts_reused = 0;
    campaigns_created = 0;
    campaigns_reused = 0;
    total_rows = 0;
    published = [];
  }

  -- `import_file`: its ImportResult is read off the local variables.
  unfoldable pub import_file :
      List Company
      → List Contact
      → List Campaign
      → List (Row × NewIds)
      → Result ImportError Unit × Import
  import_file companies contacts campaigns rows =
      import_rows 1 rows (initial companies contacts campaigns)
