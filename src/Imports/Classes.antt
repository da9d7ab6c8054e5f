-- ===== src/Imports/Classes.antt =====
-- `_import_classes` and `_import_restrictions`: the classes of a file with their superclasses and
-- restrictions. The rows of a flush are inserted one by one.
use taxonomy_builder.Common.{
  Option, ℕ, Bool, true, false, not, ◌&&◌, ◌||◌, none, some, List, [], ◌∷◌, ◌++◌, Text, text,
  text_eq, contains_text, contains, ◌==◌, if◌then◌else◌, any, filter, pure, raise_if, ◌>>=◌, ◌>>◌,
}
use taxonomy_builder.Common.Dict.{lookup}
use taxonomy_builder.Models.Vocabulary.{OntologyClass, ClassSuperclass, ClassRestriction}
use taxonomy_builder.Models.Activity.{Json}
use taxonomy_builder.Models.Session.{Session}
use taxonomy_builder.Tracker.{event, record_change}
use taxonomy_builder.Classes.{same_identifier, same_uri}
use taxonomy_builder.Rdf.Classes.{ClassMetadata, RestrictionMetadata}
use taxonomy_builder.Imports.{
  Service, Environment, ClassCreatedResponse, integrity_error, put_all, for_each, on_found, collect,
  check_project,
}

-- the classes that are new, by URI and by identifier
unfoldable pub classes_to_create : List Text → List Text → List ClassMetadata → List ClassMetadata
classes_to_create known_uris known_identifiers [] = []
classes_to_create known_uris known_identifiers (cm ∷ metadata) =
    let added =
      classes_to_create (cm.uri ∷ known_uris) (cm.identifier ∷ known_identifiers) metadata in
    if contains_text known_uris cm.uri || contains_text known_identifiers cm.identifier
    then classes_to_create known_uris known_identifiers metadata
    else cm ∷ added

abbrev pub cons_id : Option ℕ → List ℕ → List ℕ
cons_id none ids = ids
cons_id (some id) ids = id ∷ ids

-- the ids of the classes of the file
abbrev pub file_class_ids : List (Text × ℕ) → List ClassMetadata → List ℕ
file_class_ids class_uri_to_id [] = []
file_class_ids class_uri_to_id (cm ∷ metadata) =
    cons_id (lookup cm.uri class_uri_to_id) (file_class_ids class_uri_to_id metadata)

abbrev is_some_uri : List Text → Bool
is_some_uri [] = false
is_some_uri (u ∷ uris) = true

abbrev pub has_superclasses : ClassMetadata → Bool
has_superclasses cm = is_some_uri cm.superclass_uris

-- the edges of the classes that name a superclass
abbrev pub existing_edges : List (Text × ℕ) → List ClassMetadata → Session → List ClassSuperclass
existing_edges class_uri_to_id metadata s =
    filter
      (λ r. contains (file_class_ids class_uri_to_id (filter has_superclasses metadata)) r.class_id)
      s.superclasses

abbrev pub has_edge : List ClassSuperclass → ClassSuperclass → Bool
has_edge edges e = any (λ r. r.class_id == e.class_id && r.superclass_id == e.superclass_id) edges

-- edges to add, and warnings
abbrev pub Wiring : Type 0
Wiring = List ClassSuperclass × List Text

abbrev superclass_warning : Text → Text → Text
superclass_warning uri superclass_uri =
    text "Superclass <"
    ++ superclass_uri
    ++ text "> not found in project (referenced by <"
    ++ uri
    ++ text ">)"

module _ (class_uri_to_id : List (Text × ℕ)) (existing : List ClassSuperclass) where
  abbrev pub add_edge : ClassSuperclass → Wiring → Wiring
  add_edge e (added, warnings) =
      if has_edge (existing ++ added) e then (added, warnings) else (added ++ e ∷ [], warnings)

  abbrev pub wire_superclass : Text → ℕ → Text → Option ℕ → Wiring → Wiring
  wire_superclass uri class_id superclass_uri none (added, warnings) =
      (added, warnings ++ superclass_warning uri superclass_uri ∷ [])
  wire_superclass uri class_id superclass_uri (some superclass_id) w =
      add_edge (record { class_id = class_id; superclass_id = superclass_id }) w

  abbrev pub wire_superclasses : Text → ℕ → List Text → Wiring → Wiring
  wire_superclasses uri class_id [] w = w
  wire_superclasses uri class_id (u ∷ superclass_uris) w =
      wire_superclasses uri class_id superclass_uris
        (wire_superclass uri class_id u (lookup u class_uri_to_id) w)

  abbrev pub wire_class : ClassMetadata → Option ℕ → Wiring → Wiring
  wire_class cm none w = w
  wire_class cm (some class_id) w = wire_superclasses cm.uri class_id cm.superclass_uris w

  unfoldable pub wire : List ClassMetadata → Wiring → Wiring
  wire [] w = w
  wire (cm ∷ metadata) w = wire metadata (wire_class cm (lookup cm.uri class_uri_to_id) w)

abbrev pub add_superclasses : List ClassSuperclass → Service (Unit {0})
add_superclasses edges s =
    pure tt (record s { tables = record s.tables { superclasses = s.superclasses ++ edges } })

abbrev same_restriction : ClassRestriction → ClassRestriction → Bool
same_restriction row x =
    x.class_id == row.class_id
    && text_eq x.on_property_uri row.on_property_uri
    && text_eq x.restriction_type row.restriction_type
    && text_eq x.value_uri row.value_uri

-- `uq_class_restriction`
abbrev pub add_restriction : ClassRestriction → Service (Unit {0})
add_restriction row s =
    (do
      raise_if (any (same_restriction row) s.restrictions) integrity_error
      λ s.
          pure tt
            (record s { tables = record s.tables { restrictions = s.restrictions ++ row ∷ [] } }))
      s

abbrev pub delete_restrictions : List ℕ → Service (Unit {0})
delete_restrictions class_ids s = pure tt (record s {
  tables = record s.tables {
    restrictions = filter (λ r. not (contains class_ids r.class_id)) s.restrictions;
  };
})

module _ (env : Environment) where
  abbrev pub class_row : ℕ → ClassMetadata → Session → OntologyClass
  class_row project_id cm s = record {
    id = env.new_id s.tables;
    project_id = project_id;
    identifier = cm.identifier;
    label = cm.label;
    description = cm.description;
    scope_note = cm.scope_note;
    uri = cm.uri;
    created_at = env.actor.now;
    updated_at = env.actor.now;
  }

  abbrev pub insert_class : OntologyClass → Service (Unit {0})
  insert_class row s =
      (do
        check_project row.project_id
        raise_if (any (same_identifier row) s.classes || any (same_uri row) s.classes)
            integrity_error
        λ s. pure tt (record s { tables = record s.tables { classes = s.classes ++ row ∷ [] } }))
        s

  unfoldable pub create_class : ℕ → ClassMetadata → Service OntologyClass
  create_class project_id cm s =
      (do insert_class (class_row project_id cm s); pure (class_row project_id cm s)) s

  abbrev pub log_class : ℕ → OntologyClass → Service ClassCreatedResponse
  log_class project_id c = do
    record_change (
        event env.actor project_id (text "ontology_class") c.id (text "create") none
          (some (
            (text "id", Json.uuid c.id)
            ∷ (text "identifier", Json.string c.identifier)
            ∷ (text "label", Json.string c.label)
            ∷ []))
          none)
    pure (record { id = c.id; identifier = c.identifier; label = c.label; uri = c.uri })

  abbrev wired : List (Text × ℕ) → List ClassMetadata → Session → Wiring
  wired class_uri_to_id metadata s =
      wire class_uri_to_id (existing_edges class_uri_to_id metadata s) metadata ([], [])

  abbrev pub wire_classes : List (Text × ℕ) → List ClassMetadata → Service (List Text)
  wire_classes class_uri_to_id metadata s =
      (do
        add_superclasses (wired class_uri_to_id metadata s).0
        pure (wired class_uri_to_id metadata s).1)
        s

  -- the responses, the warnings, and the ids of all classes
  unfoldable pub import_classes :
      ℕ
      → List ClassMetadata
      → List Text
      → List Text
      → List (Text × ℕ)
      → Service (List ClassCreatedResponse × List Text × List (Text × ℕ))
  unfolding classes_to_create create_class wire
  import_classes project_id metadata existing_uris existing_identifiers existing_uri_to_id = do
    rows ←
        collect (create_class project_id)
          (classes_to_create existing_uris existing_identifiers metadata)
    let class_uri_to_id = put_all (λ c. c.uri) (λ c. c.id) existing_uri_to_id rows in
        (do
          warnings ← wire_classes class_uri_to_id metadata
          created ← collect (log_class project_id) rows
          pure (created, warnings, class_uri_to_id))

  abbrev pub restriction_row : RestrictionMetadata → ℕ → Session → ClassRestriction
  restriction_row r class_id s = record {
    id = env.new_id s.tables;
    class_id = class_id;
    on_property_uri = r.on_property_uri;
    restriction_type = r.restriction_type;
    value_uri = r.value_uri;
  }

  abbrev pub import_restriction : List (Text × ℕ) → RestrictionMetadata → Service (Unit {0})
  import_restriction class_uri_to_id r s =
      on_found (λ class_id. add_restriction (restriction_row r class_id s))
        (lookup r.class_uri class_uri_to_id) s

  abbrev pub replace_restrictions :
      List RestrictionMetadata → List (Text × ℕ) → List ℕ → Service (Unit {0})
  replace_restrictions restrictions class_uri_to_id class_ids = do
    delete_restrictions class_ids
    for_each (import_restriction class_uri_to_id) restrictions

  unfoldable pub import_restrictions :
      List RestrictionMetadata → List (Text × ℕ) → List ℕ → Service (Unit {0})
  import_restrictions restrictions class_uri_to_id [] = pure tt
  import_restrictions restrictions class_uri_to_id (id ∷ class_ids) =
      replace_restrictions restrictions class_uri_to_id (id ∷ class_ids)
