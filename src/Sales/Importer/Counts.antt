-- ===== src/Sales/Importer/Counts.antt =====
-- What the (refl, (refl, (omega arith, (omega arith, (omega arith, omega arith))))) of an import of argus/modules/sales/import_pipeline/importer.py say.
use argus_os.Prelude.{
  ℕ, ◌+◌, ◌≤◌, String, Bool, true, false, ◌≡◌, refl, ◌∙◌, Option, some, List, [], ◌∷◌, ◌++◌, arith,
  string_eq, Bool-cases, Option-cases, inl, inr, ok, is_empty,
}
use argus_os.Prelude.Lists.{length, length-append, All}
use argus_os.Prelude.Dict.{Dict, lookup}
use argus_os.Events.{Event, Payload, text, number}
use argus_os.Sales.{sales_event}
use argus_os.Prelude.Returns.{Returns}
use argus_os.Sales.Rows.{Row, get_field, parse_row}
use argus_os.Sales.Records.{Company, Contact, Campaign, Lead}
use argus_os.Sales.Importer.{
  NewIds, Import, import_company, import_contact, import_campaign, publish_lead, import_fields,
  import_row, import_rows, import_file, contact_id, campaign_id, initial,
}

-- Every row gave a lead or an error; every lead has a company that was created or reused, and at
-- most one contact and one campaign.
abbrev pub Balanced : Import → Type 0
Balanced s =
    (s.total_rows ≡ length s.leads + length s.errors)
    × ((s.companies_created + s.companies_reused ≡ length s.leads)
        × ((s.contacts_created + s.contacts_reused ≤ length s.leads)
            × (s.campaigns_created + s.campaigns_reused ≤ length s.leads)))

-- How the (refl, (refl, (omega arith, (omega arith, (omega arith, omega arith))))) of the second import differ from those of the first.
abbrev Grew : (companies contacts campaigns leads : ℕ) → Import → Import → Type 0
Grew c k m l s t =
    (t.total_rows ≡ s.total_rows)
    × ((length t.errors ≡ length s.errors)
        × ((length t.leads ≡ length s.leads + l)
            × ((t.companies_created + t.companies_reused
                  ≡ s.companies_created + s.companies_reused + c)
                × ((t.contacts_created + t.contacts_reused
                      ≤ s.contacts_created + s.contacts_reused + k)
                    × (t.campaigns_created + t.campaigns_reused
                        ≤ s.campaigns_created + s.campaigns_reused + m)))))

Grew-trans :
    (c k m l c' k' m' l' : ℕ) (s t u : Import)
    → Grew c k m l s t
    → Grew c' k' m' l' t u
    → Grew (c + c') (k + k') (m + m') (l + l') s u
Grew-trans c k m l c' k' m' l' s t u g h =
    (omega arith, (omega arith, (omega arith, (omega arith, (omega arith, omega arith)))))

module _ (lower : String → String) (fields : Dict String String) (s : Import) where
  import_company-Grew :
      (id : String) → Returns (import_company lower fields id) s (λ c t. Grew 1 0 0 0 s t)
  unfolding import_company
  import_company-Grew id =
      elim (Option-cases (lookup (lower (get_field "company_name" fields)) s.companies_by_name)) [
        | inl n ↦
            rw (import_company, n)
              (
                _,
                (
                  _,
                  (refl, (refl, (refl, (omega arith, (omega arith, (omega arith, omega arith)))))),
                ),
              )
        | inr (c, found) ↦
            rw (import_company, found)
              (
                _,
                (
                  _,
                  (refl, (refl, (refl, (omega arith, (omega arith, (omega arith, omega arith)))))),
                ),
              )
      ]

  import_contact-Grew :
      (company_id id : String)
      → Returns (import_contact lower fields company_id id) s (λ c t. Grew 0 1 0 0 s t)
  unfolding import_contact
  import_contact-Grew company_id id =
      let email = get_field "contact_email" fields in
      elim (Bool-cases (is_empty email)) [
        | inl e ↦
            rw (import_contact, e)
              (
                _,
                (
                  _,
                  (refl, (refl, (refl, (omega arith, (omega arith, (omega arith, omega arith)))))),
                ),
              )
        | inr e ↦ elim (Option-cases (lookup (lower email) s.contacts_by_email)) [
          | inl n ↦
              rw (import_contact, e, n)
                (
                  _,
                  (
                    _,
                    (
                      refl,
                      (refl, (refl, (omega arith, (omega arith, (omega arith, omega arith))))),
                    ),
                  ),
                )
          | inr (c, found) ↦
              rw (import_contact, e, found)
                (
                  _,
                  (
                    _,
                    (
                      refl,
                      (refl, (refl, (omega arith, (omega arith, (omega arith, omega arith))))),
                    ),
                  ),
                )
        ]
      ]

  import_campaign-Grew :
      (id : String) → Returns (import_campaign lower fields id) s (λ c t. Grew 0 0 1 0 s t)
  unfolding import_campaign
  import_campaign-Grew id =
      let name = get_field "campaign_name" fields in
      elim (Bool-cases (is_empty name)) [
        | inl e ↦
            rw (import_campaign, e)
              (
                _,
                (
                  _,
                  (refl, (refl, (refl, (omega arith, (omega arith, (omega arith, omega arith)))))),
                ),
              )
        | inr e ↦ elim (Option-cases (lookup (lower name) s.campaigns_by_name)) [
          | inl n ↦
              rw (import_campaign, e, n)
                (
                  _,
                  (
                    _,
                    (
                      refl,
                      (refl, (refl, (omega arith, (omega arith, (omega arith, omega arith))))),
                    ),
                  ),
                )
          | inr (c, found) ↦
              rw (import_campaign, e, found)
                (
                  _,
                  (
                    _,
                    (
                      refl,
                      (refl, (refl, (omega arith, (omega arith, (omega arith, omega arith))))),
                    ),
                  ),
                )
        ]
      ]

pub sales_event-sent :
    (id : String) (extra : Payload)
    → is_empty id ≡ false
    → (event : Event) × (sales_event "LeadImported" "Lead" id extra ≡ some event)
unfolding sales_event is_empty
sales_event-sent id extra h = rw (sales_event, h) (_, refl)

publish_lead-Grew :
    (event_bus : Bool) (path : String) (n : ℕ) (lead : Lead) (s : Import)
    → is_empty lead.lead_id ≡ false
    → Returns (publish_lead event_bus path n lead) s (λ u t. Grew 0 0 0 0 s t)
unfolding publish_lead
publish_lead-Grew false path n lead s h =
    (_, (_, (refl, (refl, (refl, (omega arith, (omega arith, (omega arith, omega arith))))))))
publish_lead-Grew true path n lead s h =
    elim (Option-cases (
      sales_event "LeadImported" "Lead" lead.lead_id
        (("row_number", number n) ∷ ("source_file", text path) ∷ []))) [
          | inl none_sent ↦ absurd (
              let (event, sent) =
                sales_event-sent lead.lead_id
                  (("row_number", number n) ∷ ("source_file", text path) ∷ []) h in
              cc)
          | inr (event, sent) ↦
              rw (publish_lead, sent)
                (
                  _,
                  (
                    _,
                    (
                      refl,
                      (refl, (refl, (omega arith, (omega arith, (omega arith, omega arith))))),
                    ),
                  ),
                )
        ]

abbrev pub lead_of : Dict String String → NewIds → Company → Option Contact → Option Campaign → Lead
lead_of fields ids company contact campaign = record {
  lead_id = ids.lead;
  company_id = company.company_id;
  contact_id = contact_id contact;
  campaign_id = campaign_id campaign;
  territory = get_field "territory" fields;
  source = "lead_workspace_import";
  dynamics_record_id = get_field "dynamics_record_id" fields;
  notes = get_field "notes" fields;
}

abbrev pub with_lead : Lead → Import → Import
with_lead lead s = record s { leads = s.leads ++ lead ∷ [] }

-- Every row's lead gets an id that is not empty, as a uuid.
abbrev pub AllNamed : List (Row × NewIds) → Type 0
AllNamed rows = All (λ e. is_empty (NewIds.lead e.1) ≡ false) rows

module _ (lower strip : String → String) (mapping : Dict String String) (event_bus : Bool)
    (path : String) where
  module _ (n : ℕ) (fields : Dict String String) (ids : NewIds) (s : Import) where
    pub import_fields-eq :
        (c : Company) (k : Option Contact) (m : Option Campaign) (t1 t2 t3 t4 : Import)
        → import_company lower fields ids.company s ≡ (ok c, t1)
        → import_contact lower fields c.company_id ids.contact t1 ≡ (ok k, t2)
        → import_campaign lower fields ids.campaign t2 ≡ (ok m, t3)
        → publish_lead event_bus path n
            (lead_of fields ids c k m)
            (with_lead (lead_of fields ids c k m) t3)
          ≡ (ok tt, t4)
        → import_fields lower strip mapping event_bus path n fields ids s ≡ (ok tt, t4)
    unfolding import_fields
    import_fields-eq c k m t1 t2 t3 t4 p1 p2 p3 p4 = ground arith

    with_lead-Grew : (lead : Lead) (t : Import) → Grew 0 0 0 1 t (with_lead lead t)
    with_lead-Grew lead t = (
      refl,
      (refl, (length-append t.leads (lead ∷ []), (omega arith, (omega arith, omega arith)))),
    )

    import_fields-Grew :
        is_empty ids.lead ≡ false
        → Returns
            (import_fields lower strip mapping event_bus path n fields ids)
            s
            (λ u t. Grew 1 1 1 1 s t)
    import_fields-Grew h =
        let (c, (t1, (p1, g1))) = import_company-Grew lower fields s ids.company in
        let (k, (t2, (p2, g2))) = import_contact-Grew lower fields t1 c.company_id ids.contact in
        let (m, (t3, (p3, g3))) = import_campaign-Grew lower fields t2 ids.campaign in
        let lead = lead_of fields ids c k m in
        let (u, (t4, (p4, g4))) = publish_lead-Grew event_bus path n lead (with_lead lead t3) h in
        (
          tt,
          (
            t4,
            (
              import_fields-eq c k m t1 t2 t3 t4 p1 p2 p3 p4,
              Grew-trans 1 1 1 0 0 0 0 1 s t3 t4
                  (Grew-trans 1 1 0 0 0 0 1 0 s t2 t3 (Grew-trans 1 0 0 0 0 1 0 0 s t1 t2 g1 g2) g3)
                  (Grew-trans 0 0 0 1 0 0 0 0 t3 (with_lead lead t3) t4 (with_lead-Grew lead t3)
                    g4),
            ),
          ),
        )

  module _ (n : ℕ) (row : Row) (ids : NewIds) (s : Import) where
    abbrev counted : Import
    counted = record s { total_rows = s.total_rows + 1 }

    pub import_row-eq :
        (fields : Dict String String)
        → parse_row strip mapping row ≡ some fields
        → import_row lower strip mapping event_bus path n row ids s
          ≡ import_fields lower strip mapping event_bus path n fields ids counted
    unfolding import_row
    import_row-eq fields p = rw (import_row, p) refl

    import_row-Balanced :
        is_empty ids.lead ≡ false
        → Balanced s
        → Returns
            (import_row lower strip mapping event_bus path n row ids)
            s
            (λ u t. (t.total_rows ≡ s.total_rows + 1) × Balanced t)
    unfolding import_row
    import_row-Balanced h b = elim (Option-cases (parse_row strip mapping row)) [
      | inl bad ↦ (
        tt,
        (
          record counted { errors = s.errors ++ n ∷ [] },
          (
            ground arith,
            (refl, (omega (arith, length-append s.errors (n ∷ [])), (b.1.0, (b.1.1.0, b.1.1.1)))),
          ),
        ),
      )
      | inr (fields, p) ↦
          let (u, (t, (q, g))) = import_fields-Grew n fields ids counted h in
          (
            tt,
            (
              t,
              (
                import_row-eq fields p ∙ q,
                (omega arith, (omega arith, (omega arith, (omega arith, omega arith)))),
              ),
            ),
          )
    ]

  import_rows-Balanced :
      (rows : List (Row × NewIds)) (n : ℕ) (s : Import)
      → AllNamed rows
      → Balanced s
      → Returns
          (import_rows lower strip mapping event_bus path n rows)
          s
          (λ u t. (t.total_rows ≡ s.total_rows + length rows) × Balanced t)
  unfolding import_rows
  import_rows-Balanced [] n s named b = (tt, (s, (refl, (omega arith, b))))
  import_rows-Balanced ((row, ids) ∷ rows) n s named b =
      let (u, (t, (p, c))) = import_row-Balanced n row ids s named.0 b in
      let (v, (w, (q, d))) = import_rows-Balanced rows (n + 1) t named.1 c.1 in
      (tt, (w, (ground arith, (omega arith, d.1))))

  -- Where no new lead gets an empty id, an import returns; it has counted every row, each row gave a
  -- lead or an error, each lead's company was created or reused, and no more contacts or campaigns
  -- were created and reused than there are leads.
  pub import_file-Balanced :
      (companies : List Company) (contacts : List Contact) (campaigns : List Campaign)
      (rows : List (Row × NewIds))
      → AllNamed rows
      → (t : Import) × ((import_file lower strip mapping event_bus path companies contacts campaigns
              rows
            ≡ (ok tt, t))
          × ((t.total_rows ≡ length rows) × Balanced t))
  unfolding import_file
  import_file-Balanced companies contacts campaigns rows named =
      let s = initial lower strip mapping event_bus path companies contacts campaigns in
      let (u, (t, (p, b))) =
        import_rows-Balanced rows 1 s named (refl, (refl, (omega arith, omega arith))) in
      (t, (p, (omega arith, b.1)))
