-- ===== src/Imports/Agree.antt =====
-- `preview` and `execute` on the same file and project.
use taxonomy_builder.Common.{
  ℕ, ◌≡◌, refl, sym, ◌∙◌, ap, inl, inr, Bool, true, ◌||◌, ◌&&◌, Option, none, some, List, [], ◌∷◌,
  ◌++◌, Text, contains_text, map, if◌then◌else◌, Ensures, Result, ok, raise, or_raise, pure, ◌>>=◌,
  ◌>>◌, ◌==◌, filter, Bool-cases, arith,
}
use taxonomy_builder.Common.Dict.{keys, put}
use taxonomy_builder.Models.Session.{Session}
use taxonomy_builder.Rdf.Analysis.{Analysis, analyze_graph}
use taxonomy_builder.Rdf.Issues.{ValidationIssue, GraphResult, has_errors}
use taxonomy_builder.Rdf.Uris.{detect_format}
use taxonomy_builder.Rdf.Validation.{validate_graph}
use taxonomy_builder.Imports.{
  ImportError, invalid_rdf, import_blocked, diverges, Service, Parsed, Environment,
  ExistingProjectData, load_existing_project_data, put_all, with_uri,
}
use taxonomy_builder.Imports.Classes.{import_classes, import_restrictions, file_class_ids}
use taxonomy_builder.Imports.Schemes.{import_schemes}
use taxonomy_builder.Imports.Properties.{import_properties}
use taxonomy_builder.Imports.Execute.{
  ImportResultResponse, all_class_uris, from_validation, imported_identifiers, reconcile,
  merge_namespace_prefixes, merge_named_individuals, import_all, checked, execute,
}
use taxonomy_builder.Imports.Preview.{
  ImportPreviewResponse, preview_all, previewed, preview, preview_classes, titles_of,
}
use taxonomy_builder.Imports.Counts.{
  are_distinct, counts, preview_counts, keys-put, import_schemes-Returns,
}
use taxonomy_builder.Imports.Created.{
  uris, identifiers, class_identifiers, previewed_classes, import_classes-Returns,
}
use taxonomy_builder.Imports.Planned.{created_identifiers, import_properties-Returns}
use taxonomy_builder.Imports.Merges.{
  import_restrictions-Runs, reconcile-Runs, merge_namespace_prefixes-Runs,
  merge_named_individuals-Runs,
}
use taxonomy_builder.Imports.Growth.All.{Stored, import_all-Stored}
use taxonomy_builder.Imports.Returns.{
  is_write_error, Returns, Returns-pure, Returns-bind, Returns-then,
}

-- the result has what the preview announced
abbrev pub Matches : ImportPreviewResponse → ImportResultResponse → Type 0
Matches p r =
    (r.total_concepts_created ≡ p.total_concepts_count)
    × (r.total_relationships_created ≡ p.total_relationships_count)
    × (counts r.schemes_created ≡ preview_counts p.schemes)
    × (class_identifiers r.classes_created ≡ previewed_classes p.classes)
    × (created_identifiers r.properties_created ≡ map (λ x. x.identifier) p.properties)
    × (r.validation_issues ≡ p.validation_issues)

abbrev Blocked : Result ImportError ImportResultResponse → Type 0
Blocked r = (errors : List ValidationIssue) × (r ≡ raise (import_blocked errors))

-- A failed preview fails the import and an invalid one blocks it; the preview leaves the session as it
-- was, and so do these imports.
abbrev pub Foretells :
    Result ImportError ImportPreviewResponse × Session
    → Result ImportError ImportResultResponse × Session
    → Session
    → Type 0
Foretells (raise e, t) (r, s') s = (t ≡ s) × (r ≡ raise e) × (s' ≡ s)
Foretells (ok p, t) (r, s') s =
    (t ≡ s)
    × (if p.valid
        then Ensures (λ r s'. Matches p r × Stored s r s') (λ e _. is_write_error e ≡ true) r s'
        else Blocked r × (s' ≡ s))

Foretells-or_raise :
    {A : Type 0} (e : ImportError) (o : Option A) (k : A → Service ImportPreviewResponse)
    (k' : A → Service ImportResultResponse) (s : Session)
    → ((a : A) → o ≡ some a → Foretells (k a s) (k' a s) s)
    → Foretells (((λ s. or_raise e o s) >>= k) s) (((λ s. or_raise e o s) >>= k') s) s
Foretells-or_raise e none k k' s h = (refl, refl, refl)
Foretells-or_raise e (some a) k k' s h = h a refl

Foretells-read :
    {A : Type 0} (r : Result ImportError A) (k : A → Service ImportPreviewResponse)
    (k' : A → Service ImportResultResponse) (s : Session)
    → ((a : A) → Foretells (k a s) (k' a s) s)
    → Foretells (((λ s. (r, s)) >>= k) s) (((λ s. (r, s)) >>= k') s) s
Foretells-read (raise e) k k' s h = (refl, refl, refl)
Foretells-read (ok a) k k' s h = h a

keys-put_all :
    {A V : Type 0} (key : A → Text) (value : A → V) (m : List (Text × V)) (xs : List A) (u : Text)
    → contains_text (keys (put_all key value m xs)) u
      ≡ (contains_text (keys m) u || contains_text (map key xs) u)
keys-put_all key value m [] u = ground arith
keys-put_all key value m (x ∷ xs) u =
    ground
      (arith, keys-put_all key value (put (key x) (value x) m) xs u, keys-put (key x) u (value x) m)

abbrev distinct_in : Option Analysis → Bool
distinct_in none = true
distinct_in (some a) =
    are_distinct a.schemes && are_distinct (uris a.classes) && are_distinct (identifiers a.classes)

abbrev distinct_read : Option Parsed → Bool
distinct_read none = true
distinct_read (some file) = distinct_in (analyze_graph file.graph)

abbrev distinct_format : Environment → Text → Option Text → Bool
distinct_format env content none = true
distinct_format env content (some fmt) = distinct_read (env.parse_rdf content fmt)

-- no two schemes or classes of the file share a URI, and no two classes an identifier
unfoldable pub is_distinct_file : Environment → Text → Text → Bool
unfolding detect_format analyze_graph
is_distinct_file env content filename =
    distinct_format env content (detect_format env.lower filename)

module _ (env : Environment) (project_id : ℕ) (s : Session) where
  merges-Returns :
      (file : Parsed) (imported : List Text) (r : ImportResultResponse)
      (P : ImportResultResponse → Type 0)
      → P r
      → Returns
          (reconcile project_id imported
            >> (merge_namespace_prefixes env.actor.now project_id file
                >> (merge_named_individuals env.actor.now project_id file.graph >> pure r)))
          P
  merges-Returns file imported r P h =
      Returns-then (reconcile project_id imported) _ _ (reconcile-Runs project_id imported) λ u.
        Returns-then (merge_namespace_prefixes env.actor.now project_id file) _ _
          (merge_namespace_prefixes-Runs env.actor.now project_id file)
          λ u.
            Returns-then (merge_named_individuals env.actor.now project_id file.graph) _ _
              (merge_named_individuals-Runs env.actor.now project_id file.graph)
              λ u. Returns-pure r P h

  abbrev existing : ExistingProjectData
  existing = load_existing_project_data project_id s.tables

  import_all-Returns :
      (file : Parsed) (a : Analysis) (v : GraphResult)
      → distinct_in (some a) ≡ true
      → Returns
          (import_all env project_id file a existing v)
          (Matches (preview_all file.graph a existing v))
  unfolding import_all preview_all load_existing_project_data
  import_all-Returns file a v distinct =
      let g = file.graph in
      Returns-bind
        (import_classes env project_id a.classes existing.class_uris existing.class_identifiers
          existing.class_uri_to_id)
        _ _ _
        (import_classes-Returns env project_id a.classes existing.class_uris
          existing.class_identifiers existing.class_uri_to_id (ground arith) (ground arith))
        λ classes c.
          Returns-then
            (import_restrictions env a.restrictions classes.2 (file_class_ids classes.2 a.classes))
            _ _
            (import_restrictions-Runs env a.restrictions classes.2
              (file_class_ids classes.2 a.classes))
            λ u.
              Returns-bind
                (import_schemes env g project_id a.concepts_by_scheme a.schemes (record {
                  created = [];
                  scheme_uri_to_id = existing.scheme_uri_to_id;
                  total_concepts = 0;
                  total_relationships = 0;
                }))
                _ _ _
                (import_schemes-Returns env g project_id a.concepts_by_scheme existing.scheme_uris
                  a.schemes _ (ground arith)
                  (λ u there.
                    keys-put_all (λ x. x.0) (λ x. x.1.id) []
                      (with_uri (filter (λ x. x.project_id == project_id) s.schemes)) u))
                λ schemes t.
                  Returns-bind
                    (import_properties env g schemes.scheme_uri_to_id
                      (existing.class_uris ++ map (λ c. c.uri) classes.0) classes.2 project_id
                      a.properties existing.property_identifiers existing.property_uris
                      existing.property_uri_to_id)
                    _ _ _
                    (import_properties-Returns env g schemes.scheme_uri_to_id
                      (existing.class_uris ++ map (λ c. c.uri) classes.0) classes.2
                      (existing.scheme_uris ++ a.schemes)
                      (titles_of g existing.scheme_uri_to_title a.schemes)
                      (existing.class_uris
                        ++ map (λ c. c.uri)
                            (preview_classes a.classes existing.class_uris
                              existing.class_identifiers))
                      project_id a.properties existing.property_identifiers existing.property_uris
                      existing.property_uri_to_id)
                    λ properties p.
                      merges-Returns file
                        (imported_identifiers existing.scheme_uri_to_id a.concepts_by_scheme) _ _
                        (omega (arith, t.0), omega (arith, t.1), t.2, c, p, refl)

  with_rows :
      (P : ImportResultResponse → Type 0) (r : Result ImportError ImportResultResponse)
      (s' : Session)
      → Ensures (λ r _. P r) (λ e _. is_write_error e ≡ true) r s'
      → Ensures (Stored s) (λ _ _. Unit {0}) r s'
      → Ensures (λ r s'. P r × Stored s r s') (λ e _. is_write_error e ≡ true) r s'
  with_rows P (ok r) s' h k = (h, k)
  with_rows P (raise e) s' h k = h

  agreed :
      (file : Parsed) (a : Analysis) (v : GraphResult)
      → distinct_in (some a) ≡ true
      → Foretells
          (pure {S = Session} {E = ImportError}
            (previewed env project_id file.graph a existing v)
            s)
          (checked env project_id file a existing v s)
          s
  unfolding preview_all
  agreed file a v distinct = elim (Bool-cases (has_errors v)) [
    | inl bad ↦ rw bad (refl, ((v.errors, refl), refl))
    | inr good ↦ rw good (
      refl,
      with_rows (Matches (preview_all file.graph a existing v)) _ _
          ((import_all-Returns file a v distinct).at s tt)
          (import_all-Stored env project_id file a existing v s),
    )
  ]

-- Where no two schemes or classes of a file share a URI, and no two classes an identifier: if the
-- preview raises, so does the import, with the same error; if the preview says that the file is not
-- valid, the import is blocked; and in both cases the import leaves the session as it was. The preview
-- does so in every case. If the preview says that the file is valid, then the import either raises
-- because a constraint of the tables or the project refuses a row, or returns, and then its response
-- has as many created concepts and broader relations as the preview counts, as many concepts in each
-- scheme, the classes and properties that the preview lists, in its order and by identifier, and the
-- same issues; and the tables of schemes, concepts, broader relations, classes and properties have as
-- many rows more as the response says.
pub execute-Foretells :
    (env : Environment) (project_id : ℕ) (content filename : Text) (s : Session)
    → is_distinct_file env content filename ≡ true
    → Foretells
        (preview env project_id content filename s)
        (execute env project_id content filename s)
        s
unfolding preview execute is_distinct_file
execute-Foretells env project_id content filename s distinct =
    Foretells-or_raise invalid_rdf (detect_format env.lower filename) _ _ s λ fmt f.
      Foretells-or_raise invalid_rdf (env.parse_rdf content fmt) _ _ s λ file r.
        Foretells-or_raise diverges (analyze_graph file.graph) _ _ s λ a q.
          Foretells-read
            (from_validation (
              validate_graph file.graph env.is_netloc
                (all_class_uris (existing env project_id s) a)))
            _ _ s
            λ v. agreed env project_id s file a v (
              ap distinct_in (sym q)
              ∙ ap distinct_read (sym r)
              ∙ ap (distinct_format env content) (sym f)
              ∙ distinct)
