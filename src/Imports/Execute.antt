-- ===== src/Imports/Execute.antt =====
-- `execute`, and what it merges into the project.
use taxonomy_builder.Common.{
  ℕ, Bool, true, false, not, ◌&&◌, text_eq, List, [], ◌∷◌, ◌++◌, Text, contains_text, is_empty,
  if◌then◌else◌, find, filter, map, ◌==◌, Result, ok, raise, pure, throw, or_raise, ◌>>=◌, ◌>>◌,
}
use taxonomy_builder.Common.Dict.{keys}
use taxonomy_builder.Models.Vocabulary.{Project}
use taxonomy_builder.Models.Session.{Session}
use taxonomy_builder.Projects.{ProjectError, with_projects, reconcile_identifier_counter}
use taxonomy_builder.Rdf.Analysis.{Analysis, analyze_graph}
use taxonomy_builder.Rdf.Graph.{Graph}
use taxonomy_builder.Rdf.Issues.{ValidationIssue, GraphResult, has_errors}
use taxonomy_builder.Rdf.Uris.{detect_format, get_identifier_from_uri}
use taxonomy_builder.Rdf.Validation.{GraphError, endless, validate_graph, find_named_individuals}
use taxonomy_builder.Imports.{
  ImportError, invalid_rdf, import_blocked, project_error, value_error, diverges, Service, Parsed,
  Environment, ClassCreatedResponse, SchemeCreatedResponse, PropertyCreatedResponse,
  ExistingProjectData, load_existing_project_data, validation_to_responses, put_all, on_found,
}
use taxonomy_builder.Imports.Classes.{import_classes, file_class_ids, import_restrictions}
use taxonomy_builder.Imports.Schemes.{import_schemes}
use taxonomy_builder.Imports.Properties.{import_properties}

pub record ImportResultResponse : Type 0 where
  pub schemes_created : List SchemeCreatedResponse
  pub total_concepts_created : ℕ
  pub total_relationships_created : ℕ
  pub classes_created : List ClassCreatedResponse
  pub properties_created : List PropertyCreatedResponse
  pub warnings : List Text
  pub validation_issues : List ValidationIssue

abbrev replace_project : Project → List Project → List Project
replace_project row [] = []
replace_project row (p ∷ projects) =
    if p.id == row.id then row ∷ replace_project row projects else p ∷ replace_project row projects

abbrev write_project : Project → Service (Unit {0})
write_project row s = pure tt (with_projects (replace_project row s.projects) s)

-- the project, if there is one
abbrev pub with_project : ℕ → (Project → Service (Unit {0})) → Service (Unit {0})
with_project project_id f s = on_found f (find (λ p. p.id == project_id) s.projects) s

abbrev pub same_pairs : List (Text × Text) → List (Text × Text) → Bool
same_pairs [] [] = true
same_pairs [] (y ∷ ys) = false
same_pairs (x ∷ xs) [] = false
same_pairs (x ∷ xs) (y ∷ ys) = text_eq x.0 y.0 && text_eq x.1 y.1 && same_pairs xs ys

-- a row that a flush finds unchanged is not written
abbrev pub merge_prefixes : ℕ → List (Text × Text) → Project → Service (Unit {0})
merge_prefixes now [] project = pure tt
merge_prefixes now (i ∷ imported) project =
    let merged = put_all (λ x. x.0) (λ x. x.1) project.namespace_prefixes (i ∷ imported) in
    if same_pairs merged project.namespace_prefixes
    then pure tt
    else write_project (record project { namespace_prefixes = merged; updated_at = now })

-- `_merge_namespace_prefixes`: the empty prefix is left out
unfoldable pub merge_namespace_prefixes : ℕ → ℕ → Parsed → Service (Unit {0})
merge_namespace_prefixes now project_id file =
    with_project project_id (merge_prefixes now (filter (λ x. not (is_empty x.0)) file.namespaces))

abbrev pub new_individuals : List Text → List (Text × Text) → List (Text × Text)
new_individuals existing [] = []
new_individuals existing ((u, label) ∷ individuals) =
    let added = (u, label) ∷ new_individuals (u ∷ existing) individuals in
    if contains_text existing u then new_individuals existing individuals else added

abbrev pub add_individuals : ℕ → List (Text × Text) → Project → Service (Unit {0})
add_individuals now [] project = pure tt
add_individuals now (i ∷ individuals) project = write_project (record project {
  named_individuals = project.named_individuals ++ i ∷ individuals;
  updated_at = now;
})

abbrev pub merge_individuals : ℕ → List (Text × Text) → Project → Service (Unit {0})
merge_individuals now individuals project =
    add_individuals now (new_individuals (map (λ x. x.0) project.named_individuals) individuals)
      project

abbrev pub merge_all : ℕ → ℕ → List (Text × Text) → Service (Unit {0})
merge_all now project_id [] = pure tt
merge_all now project_id (i ∷ individuals) =
    with_project project_id (merge_individuals now (i ∷ individuals))

-- `_merge_named_individuals`
unfoldable pub merge_named_individuals : ℕ → ℕ → Graph → Service (Unit {0})
unfolding find_named_individuals
merge_named_individuals now project_id g = merge_all now project_id (find_named_individuals g)

abbrev pub from_project :
    Result ProjectError (Unit {0}) × Session → Result ImportError (Unit {0}) × Session
from_project (ok u, s) = (ok u, s)
from_project (raise e, s) = (raise (project_error e), s)

-- the identifiers of the concepts of the schemes that were new
abbrev pub imported_identifiers : List (Text × ℕ) → List (Text × List Text) → List Text
imported_identifiers scheme_uri_to_id [] = []
imported_identifiers scheme_uri_to_id ((u, concepts) ∷ concepts_by_scheme) =
    let rest = imported_identifiers scheme_uri_to_id concepts_by_scheme in
    if contains_text (keys scheme_uri_to_id) u
    then rest
    else map get_identifier_from_uri concepts ++ rest

abbrev pub reconcile : ℕ → List Text → Service (Unit {0})
reconcile project_id identifiers s =
    from_project (reconcile_identifier_counter project_id identifiers s)

-- the classes that the domains of a file may name
abbrev pub all_class_uris : ExistingProjectData → Analysis → List Text
all_class_uris existing analysis = existing.class_uris ++ map (λ cm. cm.uri) analysis.classes

abbrev pub detect : Environment → Text → Service Text
detect env filename s = or_raise invalid_rdf (detect_format env.lower filename) s

abbrev pub parse : Environment → Text → Text → Service Parsed
parse env content fmt s = or_raise invalid_rdf (env.parse_rdf content fmt) s

abbrev pub analyze : Graph → Service Analysis
analyze g s = or_raise diverges (analyze_graph g) s

abbrev pub from_validation : Result GraphError GraphResult → Result ImportError GraphResult
from_validation (ok validation) = ok validation
from_validation (raise GraphError.value_error) = raise value_error
from_validation (raise endless) = raise diverges

abbrev pub validate : Environment → Graph → List Text → Service GraphResult
validate env g class_uris s = (from_validation (validate_graph g env.is_netloc class_uris), s)

module _ (env : Environment) (project_id : ℕ) where
  -- what follows the validation
  unfoldable pub import_all :
      Parsed → Analysis → ExistingProjectData → GraphResult → Service ImportResultResponse
  unfolding import_classes import_restrictions import_schemes import_properties
      reconcile_identifier_counter get_identifier_from_uri merge_namespace_prefixes
      merge_named_individuals
  import_all file analysis existing validation = do
    classes ←
        import_classes env project_id analysis.classes existing.class_uris
          existing.class_identifiers existing.class_uri_to_id
    import_restrictions env analysis.restrictions classes.2
        (file_class_ids classes.2 analysis.classes)
    schemes ←
        import_schemes env file.graph project_id analysis.concepts_by_scheme analysis.schemes
          (record {
            created = [];
            scheme_uri_to_id = existing.scheme_uri_to_id;
            total_concepts = 0;
            total_relationships = 0;
          })
    properties ←
        import_properties env file.graph schemes.scheme_uri_to_id
          (existing.class_uris ++ map (λ c. c.uri) classes.0) classes.2 project_id
          analysis.properties existing.property_identifiers existing.property_uris
          existing.property_uri_to_id
    reconcile project_id
        (imported_identifiers existing.scheme_uri_to_id analysis.concepts_by_scheme)
    merge_namespace_prefixes env.actor.now project_id file
    merge_named_individuals env.actor.now project_id file.graph
    pure (record {
      schemes_created = schemes.created;
      total_concepts_created = schemes.total_concepts;
      total_relationships_created = schemes.total_relationships;
      classes_created = classes.0;
      properties_created = properties.0;
      warnings = classes.1 ++ properties.1;
      validation_issues = validation_to_responses validation;
    })

  abbrev pub checked :
      Parsed → Analysis → ExistingProjectData → GraphResult → Service ImportResultResponse
  checked file analysis existing validation =
      if has_errors validation
      then throw (import_blocked validation.errors)
      else import_all file analysis existing validation

  unfoldable pub execute : Text → Text → Service ImportResultResponse
  unfolding detect_format analyze_graph load_existing_project_data validate_graph import_all
  execute content filename s =
      (do
        fmt ← detect env filename
        file ← parse env content fmt
        analysis ← analyze file.graph
        let existing = load_existing_project_data project_id s.tables in
            (do
              validation ← validate env file.graph (all_class_uris existing analysis)
              checked file analysis existing validation))
        s
