-- ===== src/Imports/Growth/Rows.antt =====
-- The rows that the steps of an import add: as many as they report.
use taxonomy_builder.Common.{
  ℕ, ◌+◌, ◌≡◌, refl, ap, inl, inr, Option, none, some, List, [], ◌∷◌, Text, length, contains_text,
  Bool-cases, arith,
}
use taxonomy_builder.Common.Dict.{lookup, keys}
use taxonomy_builder.Models.Vocabulary.{Concept, ConceptScheme, ConceptBroader, OntologyClass}
use taxonomy_builder.Rdf.Graph.{Graph}
use taxonomy_builder.Rdf.Analysis.{set_or_empty}
use taxonomy_builder.Rdf.Classes.{ClassMetadata}
use taxonomy_builder.Rdf.Concepts.{get_scheme_title}
use taxonomy_builder.Imports.{Environment, for_each, collect, put_all}
use taxonomy_builder.Imports.Schemes.{
  insert_concept, insert_broader, insert_scheme, broader_rows, concept_row, create_concept,
  log_concept, import_concepts, scheme_row, log_scheme, titled_scheme, import_scheme,
  get_unique_title, Imported, after_scheme, import_schemes,
}
use taxonomy_builder.Imports.Classes.{
  class_row, insert_class, create_class, log_class, classes_to_create, wire_classes, import_classes,
}
use taxonomy_builder.Imports.Growth.{
  Choice, pick, pick-add, pick-append, Grows, Quiet, Grows-at, Grows-pure, Grows-throw,
  Grows-weaken, Grows-bind, Quiet-then, write-Quiet, insert-Grows, insert_in_project-Grows,
}
use taxonomy_builder.Imports.Growth.Loops.{
  for_each-Grows, for_each-Quiet, collect-Grows, collect-Quiet,
}

module _ (w : Choice) where
  insert_concept-Grows :
      (row : Concept) → Grows w (insert_concept row) (λ _ n. n ≡ pick w.concepts 1)
  insert_concept-Grows row =
      insert-Grows w _ _ _ λ s. omega (arith, pick-append w.concepts s.concepts row)

  insert_broader-Grows :
      (row : ConceptBroader) → Grows w (insert_broader row) (λ _ n. n ≡ pick w.broader 1)
  insert_broader-Grows row =
      insert-Grows w _ _ _ λ s. omega (arith, pick-append w.broader s.broader row)

  insert_scheme-Grows :
      (row : ConceptScheme) → Grows w (insert_scheme row) (λ _ n. n ≡ pick w.schemes 1)
  insert_scheme-Grows row =
      insert_in_project-Grows w _ _ _ _ λ s. omega (arith, pick-append w.schemes s.schemes row)

  module _ (env : Environment) (g : Graph) where
    create_concept-Grows :
        (scheme_id : ℕ) (u : Text)
        → Grows w (create_concept env g scheme_id u) (λ _ n. n ≡ pick w.concepts 1)
    unfolding create_concept
    create_concept-Grows scheme_id u = Grows-at w _ _ λ s.
        Grows-bind w (insert_concept (concept_row env g scheme_id u s)) _ _ _
          (insert_concept-Grows (concept_row env g scheme_id u s))
          λ _ n e. Grows-pure w (u, concept_row env g scheme_id u s) _ (omega (arith, e))

    -- the rows for so many concepts and broader relations
    abbrev rows_of : ℕ → ℕ → ℕ
    rows_of concepts relationships = pick w.concepts concepts + pick w.broader relationships

    import_concepts-Grows :
        (project_id scheme_id : ℕ) (concepts : List Text)
        → Grows w
            (import_concepts env g project_id scheme_id concepts)
            (λ r n. n ≡ rows_of (length concepts) r)
    unfolding import_concepts
    import_concepts-Grows project_id scheme_id concepts =
        Grows-bind w (collect (create_concept env g scheme_id) concepts) _ _ _
          (collect-Grows w w.concepts (create_concept env g scheme_id) concepts
            (create_concept-Grows scheme_id))
          λ rows n (e, l).
            Grows-bind w (for_each insert_broader (broader_rows g rows)) _ _ _
              (for_each-Grows w w.broader insert_broader (broader_rows g rows) insert_broader-Grows)
              λ _ k f.
                Quiet-then w (for_each (log_concept env g project_id scheme_id) rows) _ _
                  (for_each-Quiet w (log_concept env g project_id scheme_id) rows
                    λ (u, c). write-Quiet w _ λ s. refl)
                  λ _.
                    Grows-pure w (length (broader_rows g rows)) _
                      (omega (arith, e, f, ap (pick w.concepts) l))

    titled_scheme-Grows :
        (project_id : ℕ) (scheme_uri : Text) (concepts : List Text) (o : Option Text)
        → Grows w
            (titled_scheme env g project_id scheme_uri concepts o)
            (λ x n. n ≡ pick w.schemes 1 + rows_of (length concepts) x.1)
    titled_scheme-Grows project_id scheme_uri concepts none = Grows-throw w _ _
    titled_scheme-Grows project_id scheme_uri concepts (some title) = Grows-at w _ _ λ s.
        let scheme = scheme_row env g project_id scheme_uri title s in
        Grows-bind w (insert_scheme scheme) _ _ _ (insert_scheme-Grows scheme) λ _ n e.
          Quiet-then w (log_scheme env g project_id scheme) _ _ (write-Quiet w _ λ s. refl) λ _.
            Grows-bind w (import_concepts env g project_id scheme.id concepts) _ _ _
              (import_concepts-Grows project_id scheme.id concepts)
              λ r k f. Grows-pure w (scheme, r) _ (omega (arith, e, f))

    import_scheme-Grows :
        (project_id : ℕ) (scheme_uri : Text) (concepts : List Text)
        → Grows w
            (import_scheme env g project_id scheme_uri concepts)
            (λ x n. n ≡ pick w.schemes 1 + rows_of (length concepts) x.1)
    unfolding import_scheme
    import_scheme-Grows project_id scheme_uri concepts = Grows-at w _ _ λ s.
        titled_scheme-Grows project_id scheme_uri concepts
          (get_unique_title s.schemes project_id (get_scheme_title g scheme_uri))

    -- the rows that an import has reported so far
    abbrev pub reported : Imported → ℕ
    reported i = pick w.schemes (length i.created) + rows_of i.total_concepts i.total_relationships

    pub import_schemes-Grows :
        (project_id : ℕ) (by_scheme : List (Text × List Text)) (schemes : List Text) (i : Imported)
        → Grows w
            (import_schemes env g project_id by_scheme schemes i)
            (λ i' n. n + reported i ≡ reported i')
    unfolding import_schemes
    import_schemes-Grows project_id by_scheme [] i = Grows-pure w i _ (omega arith)
    import_schemes-Grows project_id by_scheme (u ∷ schemes) i =
        let concepts = set_or_empty (lookup u by_scheme) in
        elim (Bool-cases (contains_text (keys i.scheme_uri_to_id) u)) [
          | inl e ↦ rw e (import_schemes-Grows project_id by_scheme schemes i)
          | inr e ↦ rw e (
              Grows-bind w (import_scheme env g project_id u concepts) _ _ _
                (import_scheme-Grows project_id u concepts)
                λ (scheme, r) n f.
                  Grows-weaken w
                    (import_schemes env g project_id by_scheme schemes
                      (after_scheme env g i u concepts (scheme, r)))
                    _ _
                    (λ i' k q. omega (
                      arith,
                      f,
                      q,
                      pick-append w.schemes i.created (record {
                        id = scheme.id;
                        title = scheme.title;
                        concepts_created = length concepts;
                      }),
                      pick-add w.concepts i.total_concepts (length concepts),
                      pick-add w.broader i.total_relationships r,
                    ))
                    (import_schemes-Grows project_id by_scheme schemes
                      (after_scheme env g i u concepts (scheme, r))))
        ]

  insert_class-Grows :
      (env : Environment) (row : OntologyClass)
      → Grows w (insert_class env row) (λ _ n. n ≡ pick w.classes 1)
  insert_class-Grows env row =
      insert_in_project-Grows w _ _ _ _ λ s. omega (arith, pick-append w.classes s.classes row)

  create_class-Grows :
      (env : Environment) (project_id : ℕ) (cm : ClassMetadata)
      → Grows w (create_class env project_id cm) (λ _ n. n ≡ pick w.classes 1)
  unfolding create_class
  create_class-Grows env project_id cm = Grows-at w _ _ λ s.
      Grows-bind w (insert_class env (class_row env project_id cm s)) _ _ _
        (insert_class-Grows env (class_row env project_id cm s))
        λ _ n e. Grows-pure w (class_row env project_id cm s) _ (omega (arith, e))

  wire_classes-Quiet :
      (env : Environment) (m : List (Text × ℕ)) (metadata : List ClassMetadata)
      → Quiet w (wire_classes env m metadata)
  wire_classes-Quiet env m metadata = record { at = λ s. (0, omega arith, refl) }

  log_class-Quiet :
      (env : Environment) (project_id : ℕ) (c : OntologyClass)
      → Quiet w (log_class env project_id c)
  log_class-Quiet env project_id c = record { at = λ s. (0, omega arith, refl) }

  pub import_classes-Grows :
      (env : Environment) (project_id : ℕ) (metadata : List ClassMetadata) (uris ids : List Text)
      (m : List (Text × ℕ))
      → Grows w
          (import_classes env project_id metadata uris ids m)
          (λ r n. n ≡ pick w.classes (length r.0))
  unfolding import_classes
  import_classes-Grows env project_id metadata uris ids m =
      Grows-bind w (collect (create_class env project_id) (classes_to_create uris ids metadata)) _ _
        _
        (collect-Grows w w.classes (create_class env project_id)
          (classes_to_create uris ids metadata) (create_class-Grows env project_id))
        λ rows n (e, l).
          let known = put_all (λ c. c.uri) (λ c. c.id) m rows in
          Quiet-then w (wire_classes env known metadata) _ _ (wire_classes-Quiet env known metadata)
            λ warnings.
              Grows-bind w (collect (log_class env project_id) rows) _ _ _
                (collect-Quiet w (log_class env project_id) rows (log_class-Quiet env project_id))
                λ created k (f, same).
                  Grows-pure w (created, warnings, known) _
                    (omega (arith, e, f, ap (pick w.classes) same))
