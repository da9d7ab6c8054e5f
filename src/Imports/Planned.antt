-- ===== src/Imports/Planned.antt =====
-- The properties that an import creates are those of the preview, by identifier and in the same order.
use taxonomy_builder.Common.{
  ℕ, ◌≡◌, refl, ◌∙◌, ap, inl, inr, ◌||◌, List, [], ◌∷◌, Text, text_before, contains_text, map,
  Bool-cases, List-cases,
}
use taxonomy_builder.Common.Sort.{insert, order_by}
use taxonomy_builder.Models.Vocabulary.{Property}
use taxonomy_builder.Rdf.Graph.{Graph}
use taxonomy_builder.Rdf.PropertyData.{PropertyMetadata}
use taxonomy_builder.Imports.{Environment, Service, PropertyCreatedResponse, for_each, collect}
use taxonomy_builder.Imports.Properties.{
  sorted_domains, insert_domain, delete_domains, add_domains, update_property_domains, Planned,
  update_existing, cons_planned, plan_properties, create_property, insert_property, property_row,
  add_domains_of, log_property, import_properties,
}
use taxonomy_builder.Imports.Preview.{PropertyPreviews, preview_properties}
use taxonomy_builder.Common.Dict.{lookup}
use taxonomy_builder.Imports.Returns.{
  Runs, write-Runs, on_found-Runs, insert-Runs, insert_in_project-Runs, for_each-Runs, Returns,
  Returns-at, Returns-pure, Returns-bind, Returns-then, Returns-collect,
}

insert-cons :
    (u : Text) (us : List Text) → (v : Text) × (vs : List Text) × (insert text_before u us ≡ v ∷ vs)
insert-cons u [] = (u, [], refl)
insert-cons u (w ∷ us) = elim (Bool-cases (text_before w u)) [
  | inl e ↦ (w, insert text_before u us, rw e refl)
  | inr e ↦ (u, w ∷ us, rw e refl)
]

abbrev planned_identifiers : Planned → List Text
planned_identifiers planned = map (λ x. x.0.identifier) planned.0

abbrev pub previewed_identifiers : PropertyPreviews → List Text
previewed_identifiers previews = map (λ p. p.identifier) previews.0

abbrev pub created_identifiers : List PropertyCreatedResponse → List Text
created_identifiers created = map (λ c. c.identifier) created

add_domains-Runs :
    (class_uri_to_id : List (Text × ℕ)) (property_id : ℕ) (uris : List Text)
    → Runs (add_domains class_uri_to_id property_id uris)
add_domains-Runs class_uri_to_id property_id [] = write-Runs (λ s. s)
add_domains-Runs class_uri_to_id property_id (u ∷ uris) =
    Returns-then _ _ _
      (on_found-Runs
        (λ class_id. insert_domain (record { property_id = property_id; class_id = class_id }))
        (lookup u class_uri_to_id) λ class_id. insert-Runs _ _)
      λ _. add_domains-Runs class_uri_to_id property_id uris

update_property_domains-Runs :
    (property_id : ℕ) (uris : List Text) (class_uri_to_id : List (Text × ℕ))
    → Runs (update_property_domains property_id uris class_uri_to_id)
unfolding update_property_domains
update_property_domains-Runs property_id [] class_uri_to_id = write-Runs (λ s. s)
update_property_domains-Runs property_id (u ∷ uris) class_uri_to_id =
    Returns-then (delete_domains property_id) _ _ (write-Runs _)
      λ _. add_domains-Runs class_uri_to_id property_id (u ∷ uris)

module _ (env : Environment) (g : Graph) (scheme_uri_to_id : List (Text × ℕ))
    (class_uris : List Text) (class_uri_to_id : List (Text × ℕ)) (scheme_uris : List Text)
    (titles : List (Text × Text)) (preview_class_uris : List Text) where
  abbrev plan : List Text → List Text → List (Text × ℕ) → List PropertyMetadata → Service Planned
  plan = plan_properties env g scheme_uri_to_id class_uris class_uri_to_id

  abbrev previews : List Text → List Text → List PropertyMetadata → PropertyPreviews
  previews = preview_properties g scheme_uris titles preview_class_uris

  update_existing-Runs :
      (prop_uri_to_id : List (Text × ℕ)) (pm : PropertyMetadata)
      → Runs (update_existing env g scheme_uri_to_id class_uris class_uri_to_id prop_uri_to_id pm)
  update_existing-Runs prop_uri_to_id pm =
      on_found-Runs _ (lookup pm.uri prop_uri_to_id)
        λ id. update_property_domains-Runs id (sorted_domains pm) class_uri_to_id

  plan_properties-Returns :
      (known_ids known_uris : List Text) (prop_uri_to_id : List (Text × ℕ))
      (metadata : List PropertyMetadata)
      → Returns (plan known_ids known_uris prop_uri_to_id metadata) (λ planned.
        planned_identifiers planned
        ≡ previewed_identifiers (previews known_ids known_uris metadata))
  unfolding plan_properties preview_properties
  plan_properties-Returns known_ids known_uris prop_uri_to_id [] = Returns-pure ([], []) _ refl
  plan_properties-Returns known_ids known_uris prop_uri_to_id (pm ∷ metadata) =
      elim (Bool-cases (contains_text known_uris pm.uri || contains_text known_ids pm.identifier)) [
        | inl known ↦ rw known (
            Returns-then
              (update_existing env g scheme_uri_to_id class_uris class_uri_to_id prop_uri_to_id pm)
              _ _ (update_existing-Runs prop_uri_to_id pm)
              λ u. plan_properties-Returns known_ids known_uris prop_uri_to_id metadata)
        | inr new ↦ elim (List-cases pm.domain_uris) [
          | inl none_there ↦
              rw (new, none_there)
                (Returns-bind (plan known_ids known_uris prop_uri_to_id metadata) _ _ _
                  (plan_properties-Returns known_ids known_uris prop_uri_to_id metadata)
                  λ planned e.
                    Returns-pure
                      (cons_planned env g scheme_uri_to_id class_uris class_uri_to_id pm [] planned)
                      _ e)
          | inr (d, ds, some_there) ↦
              let (v, vs, sorted) = insert-cons d (order_by text_before ds) in
              let ids = pm.identifier ∷ known_ids in
              let uris = pm.uri ∷ known_uris in
              rw new (
                simp (some_there, sorted)
                  (Returns-bind (plan ids uris prop_uri_to_id metadata) _ _ _
                    (plan_properties-Returns ids uris prop_uri_to_id metadata)
                    λ planned e.
                      Returns-pure
                        (cons_planned env g scheme_uri_to_id class_uris class_uri_to_id pm (v ∷ vs)
                          planned)
                        _ (ap (λ ids. pm.identifier ∷ ids) e)))
        ]
      ]

  abbrev create : ℕ → PropertyMetadata × List Text → Service (Property × List Text)
  create = create_property env g scheme_uri_to_id class_uris class_uri_to_id

  abbrev log : ℕ → Property × List Text → Service PropertyCreatedResponse
  log = log_property env g scheme_uri_to_id class_uris class_uri_to_id

  create-Returns :
      (project_id : ℕ) (x : PropertyMetadata × List Text)
      → Returns (create project_id x) (λ row. row.0.identifier ≡ x.0.identifier)
  create-Returns project_id (pm, d_uris) = Returns-at _ _ λ s.
      let row = property_row env g scheme_uri_to_id class_uris class_uri_to_id project_id pm s in
      Returns-then (insert_property env g scheme_uri_to_id class_uris class_uri_to_id row) _ _
        (insert_in_project-Runs _ _ _) λ u. Returns-pure (row, d_uris) _ refl

  log-Returns :
      (project_id : ℕ) (x : Property × List Text)
      → Returns (log project_id x) (λ c. c.identifier ≡ x.0.identifier)
  log-Returns project_id (prop, d_uris) = record { at = λ s h. refl }

  pub import_properties-Returns :
      (project_id : ℕ) (metadata : List PropertyMetadata) (known_ids known_uris : List Text)
      (prop_uri_to_id : List (Text × ℕ))
      → Returns
          (import_properties env g scheme_uri_to_id class_uris class_uri_to_id project_id metadata
            known_ids known_uris prop_uri_to_id)
          (λ r.
            created_identifiers r.0
            ≡ previewed_identifiers (previews known_ids known_uris metadata))
  unfolding import_properties
  import_properties-Returns project_id metadata known_ids known_uris prop_uri_to_id =
      Returns-bind (plan known_ids known_uris prop_uri_to_id metadata) _ _ _
        (plan_properties-Returns known_ids known_uris prop_uri_to_id metadata)
        λ planned e.
          Returns-bind (collect (create project_id) planned.0) _ _ _
            (Returns-collect (create project_id) (λ x. x.0.identifier) (λ row. row.0.identifier)
              (create-Returns project_id) planned.0)
            λ rows r.
              Returns-then
                (for_each (add_domains_of env g scheme_uri_to_id class_uris class_uri_to_id) rows) _
                _
                (for_each-Runs _ rows
                  λ (prop, d_uris). add_domains-Runs class_uri_to_id prop.id d_uris)
                λ u.
                  Returns-bind (collect (log project_id) rows) _ _ _
                    (Returns-collect (log project_id) (λ row. row.0.identifier) (λ c. c.identifier)
                      (log-Returns project_id) rows)
                    λ created c. Returns-pure (created, planned.1) _ (c ∙ r ∙ e)
