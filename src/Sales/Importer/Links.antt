-- ===== src/Sales/Importer/Links.antt =====
-- Which company the leads of an import of argus/modules/sales/import_pipeline/importer.py belong to.
use argus_os.Prelude.{
  ℕ, ◌+◌, String, Bool, true, false, ◌≡◌, refl, sym, ap, ◌∙◌, none, some, List, [], ◌∷◌, ◌++◌,
  arith, string_eq, eq_iff, ◌==◌, Bool-cases, Option-cases, inl, inr, ok, is_empty,
}
use argus_os.Prelude.Lists.{All}
use argus_os.Prelude.Returns.{Returns}
use argus_os.Prelude.Dict.{Dict, lookup, insert, lookup-insert}
use argus_os.Events.{text, number}
use argus_os.Sales.Rows.{Row, get_field, parse_row}
use argus_os.Sales.Records.{Company, Contact, Campaign, Lead}
use argus_os.Sales.Importer.{
  NewIds, Import, import_company, import_contact, import_campaign, publish_lead, import_fields,
  import_row, import_rows, import_file, initial,
}
use argus_os.Sales.Importer.Counts.{
  AllNamed, sales_event-sent, import_fields-eq, import_row-eq, lead_of, with_lead,
}

-- The import holds a company with this id.
abbrev pub HasCompany : String → Import → Type 0
HasCompany id s =
    (k : String) × ((c : Company) × ((lookup k s.companies_by_name ≡ some c) × (c.company_id ≡ id)))

-- Every lead belongs to a company that the import holds.
abbrev pub Linked : Import → Type 0
Linked s = All (λ (l : Lead). HasCompany l.company_id s) s.leads

-- Companies and leads are the same in both.
abbrev Same : Import → Import → Type 0
Same s t = (t.companies_by_name ≡ s.companies_by_name) × (t.leads ≡ s.leads)

-- No company that is held is lost or replaced, and the leads are the same.
abbrev Extends : Import → Import → Type 0
Extends s t =
    ((k : String) (c : Company)
      → lookup k s.companies_by_name ≡ some c
      → lookup k t.companies_by_name ≡ some c)
    × (t.leads ≡ s.leads)

insert_new :
    (j k : String) (c new : Company) (d : Dict String Company)
    → lookup j d ≡ none
    → lookup k d ≡ some c
    → lookup k (insert j new d) ≡ some c
insert_new j k c new d absent found = elim (Bool-cases (j == k)) [
  | inl e ↦ absurd (cc (sym absent ∙ ap (λ x. lookup x d) ((eq_iff j k).0 e) ∙ found))
  | inr e ↦ ground (arith, lookup-insert j k new d)
]

insert_here :
    (k : String) (c : Company) (d : Dict String Company) → lookup k (insert k c d) ≡ some c
insert_here k c d = ground (arith, lookup-insert k k c d, eq_iff k k)

module _ (lower : String → String) (fields : Dict String String) (s : Import) where
  import_company-Extends :
      (id : String)
      → Returns (import_company lower fields id) s (λ c t. Extends s t × HasCompany c.company_id t)
  unfolding import_company
  import_company-Extends id =
      let key = lower (get_field "company_name" fields) in
      elim (Option-cases (lookup key s.companies_by_name)) [
        | inl n ↦
            rw (import_company, n)
              (
                _,
                (
                  _,
                  (
                    refl,
                    (
                      (λ k c h. insert_new key k c _ s.companies_by_name n h, refl),
                      (key, (_, (insert_here key _ s.companies_by_name, refl))),
                    ),
                  ),
                ),
              )
        | inr (c, found) ↦
            rw (import_company, found)
              (_, (_, (refl, ((λ k c h. h, refl), (key, (c, (found, refl)))))))
      ]

  import_contact-Same :
      (company_id id : String)
      → Returns (import_contact lower fields company_id id) s (λ c t. Same s t)
  unfolding import_contact
  import_contact-Same company_id id =
      let email = get_field "contact_email" fields in
      elim (Bool-cases (is_empty email)) [
        | inl e ↦ rw (import_contact, e) (_, (_, (refl, (refl, refl))))
        | inr e ↦ elim (Option-cases (lookup (lower email) s.contacts_by_email)) [
          | inl n ↦ rw (import_contact, e, n) (_, (_, (refl, (refl, refl))))
          | inr (c, found) ↦ rw (import_contact, e, found) (_, (_, (refl, (refl, refl))))
        ]
      ]

  import_campaign-Same :
      (id : String) → Returns (import_campaign lower fields id) s (λ c t. Same s t)
  unfolding import_campaign
  import_campaign-Same id =
      let name = get_field "campaign_name" fields in
      elim (Bool-cases (is_empty name)) [
        | inl e ↦ rw (import_campaign, e) (_, (_, (refl, (refl, refl))))
        | inr e ↦ elim (Option-cases (lookup (lower name) s.campaigns_by_name)) [
          | inl n ↦ rw (import_campaign, e, n) (_, (_, (refl, (refl, refl))))
          | inr (c, found) ↦ rw (import_campaign, e, found) (_, (_, (refl, (refl, refl))))
        ]
      ]

publish_lead-Same :
    (event_bus : Bool) (path : String) (n : ℕ) (lead : Lead) (s : Import)
    → is_empty lead.lead_id ≡ false
    → Returns (publish_lead event_bus path n lead) s (λ u t. Same s t)
unfolding publish_lead
publish_lead-Same false path n lead s h = (tt, (s, (refl, (refl, refl))))
publish_lead-Same true path n lead s h =
    let extra = ("row_number", number n) ∷ ("source_file", text path) ∷ [] in
    let (event, sent) = sales_event-sent lead.lead_id extra h in
    rw (publish_lead, sent) (_, (_, (refl, (refl, refl))))

HasCompany-Extends : (id : String) (s t : Import) → Extends s t → HasCompany id s → HasCompany id t
HasCompany-Extends id s t e (k, (c, (found, same))) = (k, (c, (e.0 k c found, same)))

Linked-append :
    (lead : Lead) (s t : Import) (leads : List Lead)
    → ((id : String) → HasCompany id s → HasCompany id t)
    → HasCompany lead.company_id t
    → All (λ (l : Lead). HasCompany l.company_id s) leads
    → All (λ (l : Lead). HasCompany l.company_id t) (leads ++ lead ∷ [])
Linked-append lead s t [] f h a = (h, tt)
Linked-append lead s t (l ∷ leads) f h a =
    (f l.company_id a.0, Linked-append lead s t leads f h a.1)

-- The last state holds the companies of the one after `import_company`, and one more lead.
Linked-last :
    (lead : Lead) (s t u : Import)
    → Extends s t
    → HasCompany lead.company_id t
    → u.companies_by_name ≡ t.companies_by_name
    → u.leads ≡ t.leads ++ lead ∷ []
    → Linked s
    → Linked u
Linked-last lead s t u e h same more linked =
    rw (more, e.1)
      (Linked-append lead s u s.leads (λ id x. rw same (HasCompany-Extends id s t e x)) (rw same h)
        linked)

module _ (lower strip : String → String) (mapping : Dict String String) (event_bus : Bool)
    (path : String) where
  module _ (n : ℕ) (ids : NewIds) (named : is_empty ids.lead ≡ false) where
    import_fields-Linked :
        (fields : Dict String String) (s : Import)
        → Linked s
        → Returns
            (import_fields lower strip mapping event_bus path n fields ids)
            s
            (λ u t. Linked t)
    import_fields-Linked fields s linked =
        let (c, (t1, (p1, (e1, h1)))) = import_company-Extends lower fields s ids.company in
        let (k, (t2, (p2, e2))) = import_contact-Same lower fields t1 c.company_id ids.contact in
        let (m, (t3, (p3, e3))) = import_campaign-Same lower fields t2 ids.campaign in
        let lead = lead_of fields ids c k m in
        let t = with_lead lead t3 in
        let (u, (t4, (p4, e4))) = publish_lead-Same event_bus path n lead t named in
        (
          tt,
          (
            t4,
            (
              import_fields-eq lower strip mapping event_bus path n fields ids s c k m t1 t2 t3 t4
                  p1 p2 p3 p4,
              Linked-last lead s t1 t4 e1 h1 (e4.0 ∙ e3.0 ∙ e2.0)
                  (e4.1 ∙ ap (λ ls. ls ++ lead ∷ []) (e3.1 ∙ e2.1)) linked,
            ),
          ),
        )

    import_row-Linked :
        (row : Row) (s : Import)
        → Linked s
        → Returns (import_row lower strip mapping event_bus path n row ids) s (λ u t. Linked t)
    unfolding import_row
    import_row-Linked row s linked = elim (Option-cases (parse_row strip mapping row)) [
      | inl bad ↦ rw (import_row, bad) (tt, (_, (refl, linked)))
      | inr (fields, p) ↦
          rw (import_row-eq lower strip mapping event_bus path n row ids s fields p)
            (import_fields-Linked fields (record s { total_rows = s.total_rows + 1 }) linked)
    ]

  import_rows-Linked :
      (rows : List (Row × NewIds)) (n : ℕ) (s : Import)
      → AllNamed rows
      → Linked s
      → Returns (import_rows lower strip mapping event_bus path n rows) s (λ u t. Linked t)
  unfolding import_rows
  import_rows-Linked [] n s named linked = (tt, (s, (refl, linked)))
  import_rows-Linked ((row, ids) ∷ rows) n s named linked =
      let (u, (t, (p, c))) = import_row-Linked n ids named.0 row s linked in
      let (v, (w, (q, d))) = import_rows-Linked rows (n + 1) t named.1 c in
      (tt, (w, (ground arith, d)))

  -- Where no new lead gets an empty id, an import returns, and each of its leads belongs to a company
  -- that the result has, be it created or one of those that existed.
  pub import_file-Linked :
      (companies : List Company) (contacts : List Contact) (campaigns : List Campaign)
      (rows : List (Row × NewIds))
      → AllNamed rows
      → (t : Import) × ((import_file lower strip mapping event_bus path companies contacts campaigns
              rows
            ≡ (ok tt, t))
          × Linked t)
  unfolding import_file
  import_file-Linked companies contacts campaigns rows named =
      let s = initial lower strip mapping event_bus path companies contacts campaigns in
      let (u, (t, (p, linked))) = import_rows-Linked rows 1 s named tt in (t, (p, linked))
