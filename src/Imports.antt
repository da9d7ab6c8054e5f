-- ===== src/Imports.antt =====
-- `SKOSImportService` of backend/src/taxonomy_builder/services/skos_import_service.py: what its parts
-- share. A set is the list of its members, a dict the list of its items.
pub mod Classes
pub mod Schemes
pub mod Properties
pub mod Execute
pub mod Preview
pub mod Titles
pub mod Returns
pub mod Growth
pub mod Counts
pub mod Created
pub mod Planned
pub mod Agree
pub mod Merges
pub mod Edges
use taxonomy_builder.Common.{
  ℕ, Bool, true, false, not, Text, Option, none, some, List, [], ◌∷◌, ◌++◌, is_empty, if◌then◌else◌,
  find, filter, map, ◌==◌, Exec, pure, raise_if, ◌>>=◌, ◌>>◌,
}
use taxonomy_builder.Common.Dict.{put}
use taxonomy_builder.Models.Vocabulary.{Project, ConceptScheme, OntologyClass, Property}
use taxonomy_builder.Models.Session.{Db, Session}
use taxonomy_builder.Projects.{ProjectError}
use taxonomy_builder.Rdf.Graph.{Graph}
use taxonomy_builder.Rdf.Issues.{ValidationIssue, GraphResult}
use taxonomy_builder.Tracker.{Actor}

-- `value_error`: `urlparse` refuses a URI of the file; `diverges`: a walk of the file's lists or
-- classes that has no end
pub data ImportError : Type 0 where
  invalid_rdf : ImportError
  import_blocked : List ValidationIssue → ImportError
  integrity_error : ImportError
  project_error : ProjectError → ImportError
  value_error : ImportError
  diverges : ImportError

abbrev pub Service : Type 0 → Type 0
Service = Exec Session ImportError

-- a file as rdflib reads it: the graph and the prefixes that it binds
pub record Parsed : Type 0 where
  pub graph : Graph
  pub namespaces : List (Text × Text)

-- what an import takes from elsewhere: who acts, the id of a row that is added to the tables,
-- `str.lower`, what of the location of a URI `urlparse` leaves to other modules, and `parse_rdf` of
-- rdflib by content and format
pub record Environment : Type 0 where
  pub actor : Actor
  pub new_id : Db → ℕ
  pub lower : Text → Text
  pub is_netloc : Text → Bool
  pub parse_rdf : Text → Text → Option Parsed

pub record ClassCreatedResponse : Type 0 where
  pub id : ℕ
  pub identifier : Text
  pub label : Text
  pub uri : Text

pub record SchemeCreatedResponse : Type 0 where
  pub id : ℕ
  pub title : Text
  pub concepts_created : ℕ

pub record PropertyCreatedResponse : Type 0 where
  pub id : ℕ
  pub identifier : Text
  pub label : Text
  pub range_scheme_id : Option ℕ
  pub range_datatype : Option Text
  pub range_class : Option Text

pub record ExistingProjectData : Type 0 where
  pub scheme_uris : List Text
  pub scheme_uri_to_id : List (Text × ℕ)
  pub scheme_uri_to_title : List (Text × Text)
  pub class_uris : List Text
  pub class_uri_to_id : List (Text × ℕ)
  pub class_identifiers : List Text
  pub property_identifiers : List Text
  pub property_uris : List Text
  pub property_uri_to_id : List (Text × ℕ)

-- `{key(x): value(x) for x in xs}`, onto what is there
abbrev pub put_all :
    {A V : Type 0} → (A → Text) → (A → V) → List (Text × V) → List A → List (Text × V)
put_all key value m [] = m
put_all key value m (x ∷ xs) = put_all key value (put (key x) (value x) m) xs

-- the schemes that have a URI, with it
abbrev pub with_uri : List ConceptScheme → List (Text × ConceptScheme)
with_uri [] = []
with_uri (x ∷ schemes) =
    let rest = with_uri schemes in
    elim x.uri [ none ↦ rest | some u ↦ if is_empty u then rest else (u, x) ∷ rest ]

-- `_load_existing_project_data`
unfoldable pub load_existing_project_data : ℕ → Db → ExistingProjectData
load_existing_project_data project_id db =
    let existing_schemes = with_uri (filter (λ x. x.project_id == project_id) db.schemes) in
    let existing_classes : List OntologyClass =
      filter (λ x. x.project_id == project_id) db.classes in
    let existing_props : List Property = filter (λ x. x.project_id == project_id) db.properties in
    record {
      scheme_uris = map (λ x. x.0) existing_schemes;
      scheme_uri_to_id = put_all (λ x. x.0) (λ x. x.1.id) [] existing_schemes;
      scheme_uri_to_title = put_all (λ x. x.0) (λ x. x.1.title) [] existing_schemes;
      class_uris = map (λ c. c.uri) existing_classes;
      class_uri_to_id =
          put_all (λ c. c.uri) (λ c. c.id) [] (filter (λ c. not (is_empty c.uri)) existing_classes);
      class_identifiers = map (λ c. c.identifier) existing_classes;
      property_identifiers = map (λ p. p.identifier) existing_props;
      property_uris = map (λ p. p.uri) existing_props;
      property_uri_to_id = put_all (λ p. p.uri) (λ p. p.id) [] existing_props;
    }

-- the issues in the order of the response
abbrev pub validation_to_responses : GraphResult → List ValidationIssue
validation_to_responses v = v.errors ++ v.warnings ++ v.infos

-- a loop over rows
abbrev pub for_each : {A : Type 0} → (A → Service (Unit {0})) → List A → Service (Unit {0})
for_each f [] = pure tt
for_each f (x ∷ xs) = f x >> for_each f xs

-- what is done where something was found
abbrev pub on_found : {A : Type 0} → (A → Service (Unit {0})) → Option A → Service (Unit {0})
on_found f none = pure tt
on_found f (some a) = f a

-- a loop that collects a result for each member
abbrev pub collect : {A B : Type 0} → (A → Service B) → List A → Service (List B)
collect f [] = pure []
collect f (x ∷ xs) = do y ← f x; ys ← collect f xs; pure (y ∷ ys)

-- a property without a domain does not become known
abbrev pub known_with : (domain_uris : List Text) → Text → List Text → List Text
known_with [] t known = known
known_with (u ∷ uris) t known = t ∷ known

abbrev has_no_project : Option Project → Bool
has_no_project none = true
has_no_project (some p) = false

-- a row of a project refers to one (a foreign key)
abbrev pub check_project : ℕ → Service (Unit {0})
check_project project_id s =
    raise_if (has_no_project (find (λ p. p.id == project_id) s.projects)) integrity_error s
