-- ===== src/Imports/Growth/Properties.antt =====
-- The rows that `import_properties` adds: one for each property that it reports.
use taxonomy_builder.Common.{
  ℕ, ◌≡◌, refl, ap, inl, inr, List, [], ◌∷◌, Text, length, contains_text, ◌||◌, Bool-cases, arith,
}
use taxonomy_builder.Common.Dict.{lookup}
use taxonomy_builder.Models.Vocabulary.{Property}
use taxonomy_builder.Rdf.Graph.{Graph}
use taxonomy_builder.Rdf.PropertyData.{PropertyMetadata}
use taxonomy_builder.Imports.{
  Service, Environment, PropertyCreatedResponse, for_each, collect, on_found, known_with,
}
use taxonomy_builder.Imports.Properties.{
  insert_domain, add_domains, delete_domains, update_property_domains, sorted_domains,
  update_existing, Planned, cons_planned, plan_properties, property_row, insert_property,
  create_property, add_domains_of, log_property, import_properties,
}
use taxonomy_builder.Imports.Growth.{
  Choice, pick, pick-append, Grows, Quiet, Grows-at, Grows-pure, Grows-bind, Quiet-then,
  write-Quiet, insert-Grows, insert_in_project-Grows,
}
use taxonomy_builder.Imports.Growth.Loops.{
  on_found-Quiet, for_each-Quiet, collect-Grows, collect-Quiet,
}

module _ (w : Choice) where
  add_domains-Quiet :
      (class_uri_to_id : List (Text × ℕ)) (property_id : ℕ) (uris : List Text)
      → Quiet w (add_domains class_uri_to_id property_id uris)
  add_domains-Quiet class_uri_to_id property_id [] = Grows-pure w tt _ refl
  add_domains-Quiet class_uri_to_id property_id (u ∷ uris) =
      Quiet-then w
        (on_found
          (λ class_id. insert_domain (record { property_id = property_id; class_id = class_id }))
          (lookup u class_uri_to_id))
        _ _
        (on_found-Quiet w
          (λ class_id. insert_domain (record { property_id = property_id; class_id = class_id }))
          (lookup u class_uri_to_id) λ class_id. insert-Grows w _ _ 0 λ s. omega arith)
        λ _. add_domains-Quiet class_uri_to_id property_id uris

  update_property_domains-Quiet :
      (property_id : ℕ) (uris : List Text) (class_uri_to_id : List (Text × ℕ))
      → Quiet w (update_property_domains property_id uris class_uri_to_id)
  unfolding update_property_domains
  update_property_domains-Quiet property_id [] class_uri_to_id = Grows-pure w tt _ refl
  update_property_domains-Quiet property_id (u ∷ uris) class_uri_to_id =
      Quiet-then w (delete_domains property_id) _ _ (write-Quiet w _ λ s. refl)
        λ _. add_domains-Quiet class_uri_to_id property_id (u ∷ uris)

  module _ (env : Environment) (g : Graph) (scheme_uri_to_id : List (Text × ℕ))
      (class_uris : List Text) (class_uri_to_id : List (Text × ℕ)) where
    abbrev plan : List Text → List Text → List (Text × ℕ) → List PropertyMetadata → Service Planned
    plan = plan_properties env g scheme_uri_to_id class_uris class_uri_to_id

    plan_properties-Quiet :
        (known_ids known_uris : List Text) (prop_uri_to_id : List (Text × ℕ))
        (metadata : List PropertyMetadata)
        → Quiet w (plan known_ids known_uris prop_uri_to_id metadata)
    unfolding plan_properties
    plan_properties-Quiet known_ids known_uris prop_uri_to_id [] = Grows-pure w ([], []) _ refl
    plan_properties-Quiet known_ids known_uris prop_uri_to_id (pm ∷ metadata) =
        elim (Bool-cases
          (contains_text known_uris pm.uri || contains_text known_ids pm.identifier)) [
            | inl known ↦ rw known (
                Quiet-then w
                  (update_existing env g scheme_uri_to_id class_uris class_uri_to_id prop_uri_to_id
                    pm)
                  _ _
                  (on_found-Quiet w _ (lookup pm.uri prop_uri_to_id)
                    λ id. update_property_domains-Quiet id (sorted_domains pm) class_uri_to_id)
                  λ u. plan_properties-Quiet known_ids known_uris prop_uri_to_id metadata)
            | inr new ↦
                let ids = known_with (sorted_domains pm) pm.identifier known_ids in
                let uris = known_with (sorted_domains pm) pm.uri known_uris in
                rw new (
                  Quiet-then w (plan ids uris prop_uri_to_id metadata) _ _
                    (plan_properties-Quiet ids uris prop_uri_to_id metadata)
                    λ planned.
                      Grows-pure w
                        (cons_planned env g scheme_uri_to_id class_uris class_uri_to_id pm
                          (sorted_domains pm) planned)
                        _ refl)
          ]

    abbrev create : ℕ → PropertyMetadata × List Text → Service (Property × List Text)
    create = create_property env g scheme_uri_to_id class_uris class_uri_to_id

    abbrev log : ℕ → Property × List Text → Service PropertyCreatedResponse
    log = log_property env g scheme_uri_to_id class_uris class_uri_to_id

    insert_property-Grows :
        (row : Property)
        → Grows w
            (insert_property env g scheme_uri_to_id class_uris class_uri_to_id row)
            (λ _ n. n ≡ pick w.properties 1)
    insert_property-Grows row =
        insert_in_project-Grows w _ _ _ _
          λ s. omega (arith, pick-append w.properties s.properties row)

    create_property-Grows :
        (project_id : ℕ) (x : PropertyMetadata × List Text)
        → Grows w (create project_id x) (λ _ n. n ≡ pick w.properties 1)
    create_property-Grows project_id (pm, uris) = Grows-at w _ _ λ s.
        let row = property_row env g scheme_uri_to_id class_uris class_uri_to_id project_id pm s in
        Grows-bind w (insert_property env g scheme_uri_to_id class_uris class_uri_to_id row) _ _ _
          (insert_property-Grows row) λ _ n e. Grows-pure w (row, uris) _ (omega (arith, e))

    log_property-Quiet : (project_id : ℕ) (x : Property × List Text) → Quiet w (log project_id x)
    log_property-Quiet project_id (p, uris) = record { at = λ s. (0, omega arith, refl) }

    pub import_properties-Grows :
        (project_id : ℕ) (metadata : List PropertyMetadata) (existing_ids existing_uris : List Text)
        (prop_uri_to_id : List (Text × ℕ))
        → Grows w
            (import_properties env g scheme_uri_to_id class_uris class_uri_to_id project_id metadata
              existing_ids existing_uris prop_uri_to_id)
            (λ r n. n ≡ pick w.properties (length r.0))
    unfolding import_properties
    import_properties-Grows project_id metadata existing_ids existing_uris prop_uri_to_id =
        Quiet-then w (plan existing_ids existing_uris prop_uri_to_id metadata) _ _
          (plan_properties-Quiet existing_ids existing_uris prop_uri_to_id metadata)
          λ planned.
            Grows-bind w (collect (create project_id) planned.0) _ _ _
              (collect-Grows w w.properties (create project_id) planned.0
                (create_property-Grows project_id))
              λ rows n (e, l).
                Quiet-then w
                  (for_each (add_domains_of env g scheme_uri_to_id class_uris class_uri_to_id) rows)
                  _ _
                  (for_each-Quiet w
                    (add_domains_of env g scheme_uri_to_id class_uris class_uri_to_id) rows
                    λ (p, uris). add_domains-Quiet class_uri_to_id p.id uris)
                  λ _.
                    Grows-bind w (collect (log project_id) rows) _ _ _
                      (collect-Quiet w (log project_id) rows (log_property-Quiet project_id))
                      λ created k (f, same).
                        Grows-pure w (created, planned.1) _
                          (omega (arith, e, f, ap (pick w.properties) same))
