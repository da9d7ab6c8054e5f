-- ===== src/Snapshots/Build.antt =====
-- `build_snapshot` of backend/src/taxonomy_builder/services/snapshot_service.py, with the constructors
-- of schemas/snapshot.py. A relationship lists the rows that its join finds, in the order of the table
-- where the model gives none; the database orders strings as Python does.
use taxonomy_builder.Common.{
  ℕ, Bool, true, not, ◌&&◌, ◌||◌, Option, none, some, List, [], ◌∷◌, ◌++◌, map, Text, text, text_eq,
  is_empty, rstrip_slash, text_before, find, filter, ◌==◌, if◌then◌else◌,
}
use taxonomy_builder.Common.Sort.{order_by}
use taxonomy_builder.Concepts.Related.{related_ids}
use taxonomy_builder.Models.Session.{Db}
use taxonomy_builder.Models.Snapshot.{
  SnapshotConcept, SnapshotScheme, SnapshotProperty, SnapshotRestriction, SnapshotClass,
  SnapshotProjectMetadata, SnapshotVocabulary,
}
use taxonomy_builder.Models.Vocabulary.{
  Project, ConceptScheme, Concept, ConceptBroader, OntologyClass, ClassRestriction, Property,
}
use taxonomy_builder.Snapshots.{is_restriction_type}

-- `Concept.uri`
abbrev base_uri : Option Text → Text
base_uri none = text "http://example.org/concepts"
base_uri (some u) = if is_empty u then text "http://example.org/concepts" else u

abbrev pub concept_uri : ConceptScheme → Concept → Text
concept_uri scheme c = rstrip_slash (base_uri scheme.uri) ++ (text "/" ++ c.identifier)

abbrev broader_ids : List ConceptBroader → ℕ → List ℕ
broader_ids rows id = map (λ r. r.broader_concept_id) (filter (λ r. r.concept_id == id) rows)

-- `list_concepts_for_scheme`
unfoldable pub list_concepts_for_scheme : Db → ℕ → List Concept
list_concepts_for_scheme db scheme_id =
    order_by (λ c d. text_before c.pref_label d.pref_label)
      (filter (λ c. c.scheme_id == scheme_id) db.concepts)

-- the URIs of the classes with these ids
abbrev uris_at : List OntologyClass → List ℕ → List Text
uris_at classes [] = []
uris_at classes (id ∷ ids) =
    map (λ c. c.uri) (filter (λ c. c.id == id) classes) ++ uris_at classes ids

abbrev pub uri_of_scheme : Option ConceptScheme → Option Text
uri_of_scheme none = none
uri_of_scheme (some s) = s.uri

abbrev pub range_scheme : List ConceptScheme → Option ℕ → Option ConceptScheme
range_scheme schemes none = none
range_scheme schemes (some id) = find (λ s. s.id == id) schemes

-- by property, type and value
abbrev restriction_before : SnapshotRestriction → SnapshotRestriction → Bool
restriction_before r q =
    text_before r.on_property_uri q.on_property_uri
    || text_eq r.on_property_uri q.on_property_uri
      && (text_before r.restriction_type q.restriction_type
          || text_eq r.restriction_type q.restriction_type && text_before r.value_uri q.value_uri)

abbrev cons_restriction :
    Bool → ClassRestriction → Option (List SnapshotRestriction) → Option (List SnapshotRestriction)
cons_restriction true r (some rest) = some (
    record {
      on_property_uri = r.on_property_uri;
      restriction_type = r.restriction_type;
      value_uri = r.value_uri;
    }
    ∷ rest)
cons_restriction _ r rest = none

-- `SnapshotRestriction(...)` for each; `none` where one of them is not validated
abbrev pub restrictions_from : List ClassRestriction → Option (List SnapshotRestriction)
restrictions_from [] = some []
restrictions_from (r ∷ rows) =
    cons_restriction (is_restriction_type r.restriction_type) r (restrictions_from rows)

abbrev non_empty : List Text → List Text
non_empty uris = filter (λ u. not (is_empty u)) uris

module _ (db : Db) where
  unfoldable pub from_concept : ConceptScheme → Concept → SnapshotConcept
  unfolding related_ids
  from_concept scheme c = record {
    id = c.id;
    pref_label = c.pref_label;
    identifier = c.identifier;
    uri = concept_uri scheme c;
    definition = c.definition;
    scope_note = c.scope_note;
    alt_labels = c.alt_labels;
    broader_ids = broader_ids db.broader c.id;
    related_ids = related_ids db.related c.id;
    concept_type_uris = order_by text_before c.concept_type_uris;
  }

  unfoldable pub from_scheme : ConceptScheme → SnapshotScheme
  unfolding list_concepts_for_scheme from_concept
  from_scheme s = record {
    id = s.id;
    title = s.title;
    description = s.description;
    uri = s.uri;
    concepts = map (from_concept s) (list_concepts_for_scheme db s.id);
  }

  unfoldable pub from_property : Property → SnapshotProperty
  from_property p = record {
    id = p.id;
    identifier = p.identifier;
    label = p.label;
    uri = p.uri;
    description = p.description;
    domain_class_uris = order_by text_before (
        uris_at db.classes
          (map (λ r. r.class_id) (filter (λ r. r.property_id == p.id) db.domain_classes)));
    property_type = p.property_type;
    range_scheme_id = p.range_scheme_id;
    range_scheme_uri = uri_of_scheme (range_scheme db.schemes p.range_scheme_id);
    range_datatype = p.range_datatype;
    range_class = p.range_class;
    cardinality = p.cardinality;
    required = p.required;
  }

  abbrev superclass_ids : ℕ → List ℕ
  superclass_ids id = map (λ r. r.superclass_id) (filter (λ r. r.class_id == id) db.superclasses)

  abbrev subclass_ids : ℕ → List ℕ
  subclass_ids id = map (λ r. r.class_id) (filter (λ r. r.superclass_id == id) db.superclasses)

  abbrev class_with : OntologyClass → Option (List SnapshotRestriction) → Option SnapshotClass
  class_with c none = none
  class_with c (some restrictions) = some (record {
    id = c.id;
    identifier = c.identifier;
    label = c.label;
    uri = c.uri;
    description = c.description;
    scope_note = c.scope_note;
    superclass_uris = order_by text_before (non_empty (uris_at db.classes (superclass_ids c.id)));
    subclass_uris = order_by text_before (non_empty (uris_at db.classes (subclass_ids c.id)));
    restrictions = order_by restriction_before restrictions;
  })

  unfoldable pub from_class : OntologyClass → Option SnapshotClass
  from_class c = class_with c (restrictions_from (filter (λ r. r.class_id == c.id) db.restrictions))

  abbrev cons_class :
      Option SnapshotClass → Option (List SnapshotClass) → Option (List SnapshotClass)
  cons_class (some c) (some classes) = some (c ∷ classes)
  cons_class _ _ = none

  abbrev pub classes_from : List OntologyClass → Option (List SnapshotClass)
  classes_from [] = some []
  classes_from (c ∷ classes) = cons_class (from_class c) (classes_from classes)

  abbrev from_project : Project → SnapshotProjectMetadata
  from_project project = record {
    id = project.id;
    name = project.name;
    description = project.description;
    namespace = project.namespace;
    namespace_prefixes = project.namespace_prefixes;
  }

  abbrev pub vocabulary_with : Project → Option (List SnapshotClass) → Option SnapshotVocabulary
  vocabulary_with project none = none
  vocabulary_with project (some classes) = some (record {
    project = from_project project;
    concept_schemes = map from_scheme (filter (λ s. s.project_id == project.id) db.schemes);
    properties = map from_property (filter (λ p. p.project_id == project.id) db.properties);
    classes = classes;
    named_individuals = map (λ x. record { uri = x.0; label = x.1 }) project.named_individuals;
  })

  -- the snapshot of a project that is there; `none` where a restriction is not validated
  unfoldable pub build_snapshot : Project → Option SnapshotVocabulary
  unfolding from_scheme from_property from_class
  build_snapshot project =
      vocabulary_with project (classes_from (filter (λ c. c.project_id == project.id) db.classes))
