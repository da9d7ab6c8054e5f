-- ===== src/Properties.antt =====
-- `PropertyService` of backend/src/taxonomy_builder/services/property_service.py.
pub mod ByUri
pub mod Domain
pub mod Edit
pub mod Ranges
pub mod Kept
use taxonomy_builder.Common.{
  first_of_each, rstrip_slash, text_before, ℕ, ◌+◌, Bool, true, false, not, ◌&&◌, ◌||◌, Option,
  none, some, List, [], ◌∷◌, ◌++◌, Text, text, text_eq, strip, is_empty, contains_text, optional_eq,
  ◌==◌, ltb, if◌then◌else◌, find, filter, any, map, Exec, Result, ok, raise, pure, throw, or_raise,
  raise_if, ◌>>=◌, ◌>>◌,
}
use taxonomy_builder.Common.Sort.{order_by}
use taxonomy_builder.Models.Vocabulary.{
  Project, ConceptScheme, OntologyClass, Property, PropertyDomainClass,
}
use taxonomy_builder.Models.Activity.{Json, State}
use taxonomy_builder.Models.Session.{Db, Session, rollback}
use taxonomy_builder.Tracker.{Actor, event, record_change, text_or_null}

pub data PropertyError : Type 0 where
  project_not_found : ℕ → PropertyError
  domain_class_not_found : Text → PropertyError
  invalid_range : PropertyError
  scheme_not_in_project : ℕ → ℕ → PropertyError
  property_identifier_exists : Text → ℕ → PropertyError
  property_uri_exists : Text → ℕ → PropertyError

abbrev pub Service : Type 0 → Type 0
Service = Exec Session PropertyError

pub record PropertyCreate : Type 0 where
  pub identifier : Text
  pub label : Text
  pub description : Option Text
  pub domain_class_uris : List Text
  pub range_scheme_id : Option ℕ
  pub range_datatype : Option Text
  pub range_class : Option Text
  pub cardinality : Text
  pub required : Bool
  pub uri : Option Text

abbrev one_if : {A : Type 0} → Option A → ℕ
one_if none = 0
one_if (some x) = 1

-- how many of the three ranges are given
abbrev pub provided : Option ℕ → Option Text → Option Text → ℕ
provided scheme_id datatype range_class = one_if scheme_id + one_if datatype + one_if range_class

-- `_infer_property_type`, where an empty datatype counts as none
abbrev pub infer_property_type : Option Text → Text
infer_property_type none = text "object"
infer_property_type (some t) = if is_empty t then text "object" else text "datatype"

pub get_project : ℕ → Service Project
get_project project_id s =
    or_raise (project_not_found project_id) (find (λ p. p.id == project_id) s.projects) s

pub get_scheme : ℕ → ℕ → Service ConceptScheme
get_scheme scheme_id project_id s =
    or_raise (scheme_not_in_project scheme_id project_id) (find (λ x. x.id == scheme_id) s.schemes)
      s

pub check_scheme : ℕ → Option ℕ → Service (Unit {0})
unfolding get_scheme
check_scheme project_id none = pure tt
check_scheme project_id (some scheme_id) = do
  scheme ← get_scheme scheme_id project_id
  raise_if (not (scheme.project_id == project_id)) (scheme_not_in_project scheme_id project_id)

-- `_validate_range`
unfoldable pub validate_range : ℕ → Option ℕ → Option Text → Option Text → Service (Unit {0})
unfolding check_scheme
validate_range project_id scheme_id datatype range_class = do
  raise_if (not (provided scheme_id datatype range_class == 1)) invalid_range
  check_scheme project_id scheme_id

-- the row of the class with that URI, which is unique in the project
pub find_class : ℕ → Text → Service OntologyClass
find_class project_id uri s =
    or_raise (domain_class_not_found uri)
      (find (λ c. c.project_id == project_id && text_eq c.uri uri) s.classes) s

pub find_classes : ℕ → List Text → Service (List ℕ)
unfolding find_class
find_classes project_id [] = pure []
find_classes project_id (uri ∷ uris) = do
  c ← find_class project_id uri
  ids ← find_classes project_id uris
  pure (c.id ∷ ids)

-- `_resolve_domain_class_uris`
unfoldable pub resolve_domain_class_uris : ℕ → List Text → Service (List ℕ)
unfolding find_classes
resolve_domain_class_uris project_id uris = find_classes project_id (first_of_each [] uris)

abbrev pub computed_uri : Project → Text → Text
computed_uri project identifier = rstrip_slash (strip project.namespace) ++ text "/" ++ identifier

abbrev pub uri_for : Project → PropertyCreate → Text
uri_for project property_in = elim property_in.uri [
  | none ↦ computed_uri project property_in.identifier
  | some uri ↦ if is_empty uri then computed_uri project property_in.identifier else uri
]

-- `uq_property_identifier_per_project` and `uq_properties_project_uri`, for another row
abbrev pub same_identifier : Property → Property → Bool
same_identifier row x =
    not (x.id == row.id) && x.project_id == row.project_id && text_eq x.identifier row.identifier

abbrev pub same_uri : Property → Property → Bool
same_uri row x = not (x.id == row.id) && x.project_id == row.project_id && text_eq x.uri row.uri

abbrev pub domain_rows : ℕ → List ℕ → List PropertyDomainClass
domain_rows property_id ids = map (λ c. record { property_id = property_id; class_id = c }) ids

unfoldable pub insert_property : Property → List ℕ → Service (Unit {0})
insert_property row classes s =
    if any (same_identifier row) s.properties
    then (raise (property_identifier_exists row.identifier row.project_id), rollback s)
    else if any (same_uri row) s.properties
    then (raise (property_uri_exists row.uri row.project_id), rollback s)
    else (
      ok tt,
      record s {
        tables = record s.tables {
          properties = s.properties ++ row ∷ [];
          domain_classes = s.domain_classes ++ domain_rows row.id classes;
        };
      },
    )

abbrev uuid_or_null : Option ℕ → Json
uuid_or_null none = Json.null
uuid_or_null (some id) = Json.uuid id

-- `_serialize_property`, with the URIs of the domain classes
unfoldable pub serialize_property : Property → List Text → State
serialize_property p domain_class_uris =
    (text "id", Json.uuid p.id)
    ∷ (text "identifier", Json.string p.identifier)
    ∷ (text "label", Json.string p.label)
    ∷ (text "description", text_or_null p.description)
    ∷ (text "domain_class_uris", Json.strings (order_by text_before domain_class_uris))
    ∷ (text "range_scheme_id", uuid_or_null p.range_scheme_id)
    ∷ (text "range_datatype", text_or_null p.range_datatype)
    ∷ (text "range_class", text_or_null p.range_class)
    ∷ (text "property_type", Json.string p.property_type)
    ∷ (text "cardinality", Json.string p.cardinality)
    ∷ (text "required", Json.boolean p.required)
    ∷ (text "uri", Json.string p.uri)
    ∷ []

-- the URIs of a property's domain classes
abbrev is_domain_of : Db → ℕ → OntologyClass → Bool
is_domain_of db property_id c =
    any (λ r. r.property_id == property_id && r.class_id == c.id) db.domain_classes

abbrev pub domain_uris : Db → ℕ → List Text
domain_uris db property_id = map (λ c. c.uri) (filter (is_domain_of db property_id) db.classes)

abbrev pub log_property : Actor → ℕ → ℕ → Text → Option State → Option State → Service (Unit {0})
log_property actor project_id property_id action before after =
    record_change (event actor project_id (text "property") property_id action before after none)

module _ (actor : Actor) where
  abbrev pub new_property : ℕ → ℕ → Project → PropertyCreate → Property
  new_property new_id project_id project property_in = record {
    id = new_id;
    project_id = project_id;
    identifier = property_in.identifier;
    label = property_in.label;
    description = property_in.description;
    range_scheme_id = property_in.range_scheme_id;
    range_datatype = property_in.range_datatype;
    range_class = property_in.range_class;
    cardinality = property_in.cardinality;
    property_type = infer_property_type property_in.range_datatype;
    required = property_in.required;
    uri = uri_for project property_in;
    created_at = actor.now;
    updated_at = actor.now;
  }

  unfoldable pub create_property : ℕ → ℕ → PropertyCreate → Service Property
  unfolding get_project resolve_domain_class_uris validate_range insert_property
  create_property new_id project_id property_in = do
    project ← get_project project_id
    classes ← resolve_domain_class_uris project_id property_in.domain_class_uris
    validate_range project_id property_in.range_scheme_id property_in.range_datatype
        property_in.range_class
    insert_property (new_property new_id project_id project property_in) classes
    log_property actor project_id new_id (text "create") none (
        some (
          serialize_property (new_property new_id project_id project property_in)
            (first_of_each [] property_in.domain_class_uris)))
    pure (new_property new_id project_id project property_in)
