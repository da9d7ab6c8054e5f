-- ===== src/Imports/Growth/All.antt =====
-- An import adds as many rows to each of the counted tables as its response says.
use taxonomy_builder.Common.{
  ℕ, ◌+◌, ◌≡◌, true, false, [], ◌++◌, length, map, Result, ok, raise, Ensures, arith,
}
use taxonomy_builder.Models.Session.{Session}
use taxonomy_builder.Rdf.Analysis.{Analysis}
use taxonomy_builder.Rdf.Issues.{GraphResult}
use taxonomy_builder.Imports.{ImportError, Environment, Parsed, ExistingProjectData}
use taxonomy_builder.Imports.Classes.{import_classes, import_restrictions, file_class_ids}
use taxonomy_builder.Imports.Schemes.{import_schemes}
use taxonomy_builder.Imports.Properties.{import_properties}
use taxonomy_builder.Imports.Execute.{
  ImportResultResponse, imported_identifiers, reconcile, merge_namespace_prefixes,
  merge_named_individuals, import_all,
}
use taxonomy_builder.Imports.Growth.{
  Choice, pick, pick_none, size, Grows, Grows-pure, Grows-bind, Quiet-then,
}
use taxonomy_builder.Imports.Growth.Rows.{import_schemes-Grows, import_classes-Grows}
use taxonomy_builder.Imports.Growth.Properties.{import_properties-Grows}
use taxonomy_builder.Imports.Growth.Quiet.{
  import_restrictions-Quiet, reconcile-Quiet, merge_namespace_prefixes-Quiet,
  merge_named_individuals-Quiet,
}

-- the tables have so many rows more
abbrev pub Stored : Session → ImportResultResponse → Session → Type 0
Stored s r s' =
    (length s'.schemes ≡ length s.schemes + length r.schemes_created)
    × (length s'.concepts ≡ length s.concepts + r.total_concepts_created)
    × (length s'.broader ≡ length s.broader + r.total_relationships_created)
    × (length s'.classes ≡ length s.classes + length r.classes_created)
    × (length s'.properties ≡ length s.properties + length r.properties_created)

module _ (w : Choice) where
  abbrev announced : ImportResultResponse → ℕ
  announced r =
      pick w.schemes (length r.schemes_created)
      + pick w.concepts r.total_concepts_created
      + pick w.broader r.total_relationships_created
      + pick w.classes (length r.classes_created)
      + pick w.properties (length r.properties_created)

  import_all-Grows :
      (env : Environment) (project_id : ℕ) (file : Parsed) (a : Analysis)
      (existing : ExistingProjectData) (v : GraphResult)
      → Grows w (import_all env project_id file a existing v) (λ r n. n ≡ announced r)
  unfolding import_all
  import_all-Grows env project_id file a existing v =
      let g = file.graph in
      Grows-bind w
        (import_classes env project_id a.classes existing.class_uris existing.class_identifiers
          existing.class_uri_to_id)
        _ _ _
        (import_classes-Grows w env project_id a.classes existing.class_uris
          existing.class_identifiers existing.class_uri_to_id)
        λ classes c e.
          Quiet-then w
            (import_restrictions env a.restrictions classes.2 (file_class_ids classes.2 a.classes))
            _ _
            (import_restrictions-Quiet w env a.restrictions classes.2
              (file_class_ids classes.2 a.classes))
            λ u.
              Grows-bind w
                (import_schemes env g project_id a.concepts_by_scheme a.schemes (record {
                  created = [];
                  scheme_uri_to_id = existing.scheme_uri_to_id;
                  total_concepts = 0;
                  total_relationships = 0;
                }))
                _ _ _ (import_schemes-Grows w env g project_id a.concepts_by_scheme a.schemes _)
                λ schemes t f.
                  Grows-bind w
                    (import_properties env g schemes.scheme_uri_to_id
                      (existing.class_uris ++ map (λ c. c.uri) classes.0) classes.2 project_id
                      a.properties existing.property_identifiers existing.property_uris
                      existing.property_uri_to_id)
                    _ _ _
                    (import_properties-Grows w env g schemes.scheme_uri_to_id
                      (existing.class_uris ++ map (λ c. c.uri) classes.0) classes.2 project_id
                      a.properties existing.property_identifiers existing.property_uris
                      existing.property_uri_to_id)
                    λ properties p h.
                      Quiet-then w
                        (reconcile project_id
                          (imported_identifiers existing.scheme_uri_to_id a.concepts_by_scheme))
                        _ _
                        (reconcile-Quiet w project_id
                          (imported_identifiers existing.scheme_uri_to_id a.concepts_by_scheme))
                        λ u.
                          Quiet-then w (merge_namespace_prefixes env.actor.now project_id file) _ _
                            (merge_namespace_prefixes-Quiet w env.actor.now project_id file)
                            λ u.
                              Quiet-then w (merge_named_individuals env.actor.now project_id g) _ _
                                (merge_named_individuals-Quiet w env.actor.now project_id g)
                                λ u. Grows-pure w _ _ (
                                  omega (
                                    arith,
                                    e,
                                    f,
                                    h,
                                    pick_none w.schemes,
                                    pick_none w.concepts,
                                    pick_none w.broader,
                                  ))

abbrev nothing : Choice
nothing = record {
  schemes = false;
  concepts = false;
  broader = false;
  classes = false;
  properties = false;
}

grown :
    (s : Session) (r : Result ImportError ImportResultResponse) (s' : Session)
    → ((w : Choice)
        → Ensures
            (λ r s'. (n : ℕ) × (size w s'.tables ≡ size w s.tables + n) × (n ≡ announced w r))
            (λ _ _. Unit {0})
            r
            s')
    → Ensures (Stored s) (λ _ _. Unit {0}) r s'
grown s (raise e) s' h = tt
grown s (ok r) s' h =
    let (a, e, f) = h (record nothing { schemes = true }) in
    let (b, e', f') = h (record nothing { concepts = true }) in
    let (c, e'', f'') = h (record nothing { broader = true }) in
    let (d, i, j) = h (record nothing { classes = true }) in
    let (k, i', j') = h (record nothing { properties = true }) in
    (
      omega (arith, e, f),
      omega (arith, e', f'),
      omega (arith, e'', f''),
      omega (arith, i, j),
      omega (arith, i', j'),
    )

pub import_all-Stored :
    (env : Environment) (project_id : ℕ) (file : Parsed) (a : Analysis)
    (existing : ExistingProjectData) (v : GraphResult) (s : Session)
    → Ensures
        (Stored s)
        (λ _ _. Unit {0})
        (import_all env project_id file a existing v s).0
        (import_all env project_id file a existing v s).1
import_all-Stored env project_id file a existing v s =
    grown s _ _ λ w. (import_all-Grows w env project_id file a existing v).at s
