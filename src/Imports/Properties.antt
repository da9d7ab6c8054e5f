-- ===== src/Imports/Properties.antt =====
-- `_import_properties` and `_update_property_domains`.
use taxonomy_builder.Common.{
  ℕ, Bool, false, not, ◌&&◌, ◌||◌, Option, none, some, List, [], ◌∷◌, ◌++◌, Text, text, text_eq,
  contains_text, text_before, is_empty, ◌==◌, if◌then◌else◌, any, filter, pure, raise_if, ◌>>=◌,
  ◌>>◌,
}
use taxonomy_builder.Common.Dict.{lookup, keys}
use taxonomy_builder.Common.Sort.{order_by}
use taxonomy_builder.Models.Vocabulary.{Property, PropertyDomainClass}
use taxonomy_builder.Models.Activity.{Json}
use taxonomy_builder.Models.Session.{Session}
use taxonomy_builder.Tracker.{event, record_change, text_or_null}
use taxonomy_builder.Properties.{same_identifier, same_uri}
use taxonomy_builder.Rdf.Graph.{Graph}
use taxonomy_builder.Rdf.PropertyData.{PropertyMetadata, Range, resolve_object_range}
use taxonomy_builder.Rdf.Uris.{is_xsd_type, abbreviate_xsd}
use taxonomy_builder.Imports.{
  Service, Environment, PropertyCreatedResponse, integrity_error, for_each, on_found, collect,
  check_project, known_with,
}

abbrev same_pair : PropertyDomainClass → PropertyDomainClass → Bool
same_pair row x = x.property_id == row.property_id && x.class_id == row.class_id

-- the pair is the table's key
abbrev pub insert_domain : PropertyDomainClass → Service (Unit {0})
insert_domain row s =
    (do
      raise_if (any (same_pair row) s.domain_classes) integrity_error
      λ s.
          pure tt (record s {
            tables = record s.tables { domain_classes = s.domain_classes ++ row ∷ [] };
          }))
      s

-- a row for each URI that is a class of the project
abbrev pub add_domains : List (Text × ℕ) → ℕ → List Text → Service (Unit {0})
add_domains class_uri_to_id property_id [] = pure tt
add_domains class_uri_to_id property_id (u ∷ uris) = do
  on_found (λ class_id. insert_domain (record { property_id = property_id; class_id = class_id }))
      (lookup u class_uri_to_id)
  add_domains class_uri_to_id property_id uris

abbrev pub delete_domains : ℕ → Service (Unit {0})
delete_domains property_id s = pure tt (record s {
  tables = record s.tables {
    domain_classes = filter (λ r. not (r.property_id == property_id)) s.domain_classes;
  };
})

unfoldable pub update_property_domains : ℕ → List Text → List (Text × ℕ) → Service (Unit {0})
update_property_domains property_id [] class_uri_to_id = pure tt
update_property_domains property_id (u ∷ uris) class_uri_to_id = do
  delete_domains property_id
  add_domains class_uri_to_id property_id (u ∷ uris)

-- where the values of a property come from, and a warning
pub record Resolved : Type 0 where
  pub range_scheme_id : Option ℕ
  pub range_datatype : Option Text
  pub range_class : Option Text
  pub warnings : List Text

abbrev no_range : Resolved
no_range = record {
  range_scheme_id = none;
  range_datatype = none;
  range_class = none;
  warnings = [];
}

abbrev range_warning : Text → Text → Text → Text
range_warning identifier range_uri what =
    text "Property '" ++ identifier ++ text "' range '" ++ range_uri ++ what

abbrev resolved : Text → Text → List (Text × ℕ) → Option Range → Resolved
resolved identifier range_uri scheme_uri_to_id (some (Range.scheme s)) = record no_range {
  range_scheme_id = lookup s scheme_uri_to_id;
}
resolved identifier range_uri scheme_uri_to_id (some (Range.class u)) = record no_range {
  range_class = some u;
}
resolved identifier range_uri scheme_uri_to_id (some (Range.ambiguous u)) = record no_range {
  range_class = some range_uri;
  warnings =
      range_warning identifier range_uri
        (text "' matches multiple schemes — stored as unresolved URI")
      ∷ [];
}
resolved identifier range_uri scheme_uri_to_id none = record no_range {
  range_class = some range_uri;
  warnings =
      range_warning identifier range_uri (text "' not found in project — stored as unresolved URI")
      ∷ [];
}

module _ (g : Graph) (scheme_uri_to_id : List (Text × ℕ)) (class_uris : List Text) where
  abbrev range_for : PropertyMetadata → Text → Resolved
  range_for pm range_uri =
      if is_empty range_uri
      then no_range
      else if is_xsd_type range_uri
      then record no_range { range_datatype = some (abbreviate_xsd range_uri) }
      else if text_eq pm.property_type (text "object")
      then resolved pm.identifier range_uri scheme_uri_to_id
          (resolve_object_range g range_uri (keys scheme_uri_to_id) class_uris)
      else no_range

  unfoldable pub resolve_range : PropertyMetadata → Resolved
  unfolding is_xsd_type abbreviate_xsd resolve_object_range
  resolve_range pm = elim pm.range_uri [ none ↦ no_range | some u ↦ range_for pm u ]

-- what the loop leaves to create, with the sorted domains, and its warnings
abbrev pub Planned : Type 0
Planned = List (PropertyMetadata × List Text) × List Text

abbrev no_domain_warning : Text → Text
no_domain_warning identifier =
    text "Property '" ++ identifier ++ text "' skipped: no rdfs:domain declared"

abbrev pub sorted_domains : PropertyMetadata → List Text
sorted_domains pm = order_by text_before pm.domain_uris

module _ (env : Environment) (g : Graph) (scheme_uri_to_id : List (Text × ℕ))
    (class_uris : List Text) (class_uri_to_id : List (Text × ℕ)) where
  -- a property that the project has gets new domains
  abbrev pub update_existing : List (Text × ℕ) → PropertyMetadata → Service (Unit {0})
  update_existing prop_uri_to_id pm =
      on_found
        (λ property_id. update_property_domains property_id (sorted_domains pm) class_uri_to_id)
        (lookup pm.uri prop_uri_to_id)

  abbrev pub cons_planned : PropertyMetadata → List Text → Planned → Planned
  cons_planned pm [] (planned, warnings) = (planned, no_domain_warning pm.identifier ∷ warnings)
  cons_planned pm (u ∷ uris) (planned, warnings) = (
    (pm, u ∷ uris) ∷ planned,
    (resolve_range g scheme_uri_to_id class_uris pm).warnings ++ warnings,
  )

  unfoldable pub plan_properties :
      List Text → List Text → List (Text × ℕ) → List PropertyMetadata → Service Planned
  unfolding update_property_domains resolve_range
  plan_properties known_ids known_uris prop_uri_to_id [] = pure ([], [])
  plan_properties known_ids known_uris prop_uri_to_id (pm ∷ metadata) =
      if contains_text known_uris pm.uri || contains_text known_ids pm.identifier
      then (do
        update_existing prop_uri_to_id pm
        plan_properties known_ids known_uris prop_uri_to_id metadata)
      else (do
        planned ←
            plan_properties (known_with (sorted_domains pm) pm.identifier known_ids)
              (known_with (sorted_domains pm) pm.uri known_uris) prop_uri_to_id metadata
        pure (cons_planned pm (sorted_domains pm) planned))

  abbrev pub property_row : ℕ → PropertyMetadata → Session → Property
  property_row project_id pm s =
      let range = resolve_range g scheme_uri_to_id class_uris pm in
      record {
        id = env.new_id s.tables;
        project_id = project_id;
        identifier = pm.identifier;
        label = pm.label;
        description = pm.description;
        range_scheme_id = range.range_scheme_id;
        range_datatype = range.range_datatype;
        range_class = range.range_class;
        cardinality = pm.cardinality;
        property_type = pm.property_type;
        required = false;
        uri = pm.uri;
        created_at = env.actor.now;
        updated_at = env.actor.now;
      }

  abbrev pub insert_property : Property → Service (Unit {0})
  insert_property row s =
      (do
        check_project row.project_id
        raise_if (any (same_identifier row) s.properties || any (same_uri row) s.properties)
            integrity_error
        λ s.
            pure tt
              (record s { tables = record s.tables { properties = s.properties ++ row ∷ [] } }))
        s

  abbrev pub create_property : ℕ → PropertyMetadata × List Text → Service (Property × List Text)
  create_property project_id (pm, d_uris) s =
      (do
        insert_property (property_row project_id pm s)
        pure (property_row project_id pm s, d_uris))
        s

  abbrev pub add_domains_of : Property × List Text → Service (Unit {0})
  add_domains_of (prop, d_uris) = add_domains class_uri_to_id prop.id d_uris

  abbrev uuid_or_null : Option ℕ → Json
  uuid_or_null none = Json.null
  uuid_or_null (some id) = Json.uuid id

  abbrev pub log_property : ℕ → Property × List Text → Service PropertyCreatedResponse
  log_property project_id (prop, d_uris) = do
    record_change (
        event env.actor project_id (text "property") prop.id (text "create") none
          (some (
            (text "id", Json.uuid prop.id)
            ∷ (text "identifier", Json.string prop.identifier)
            ∷ (text "label", Json.string prop.label)
            ∷ (text "range_scheme_id", uuid_or_null prop.range_scheme_id)
            ∷ (text "range_datatype", text_or_null prop.range_datatype)
            ∷ (text "range_class", text_or_null prop.range_class)
            ∷ []))
          none)
    pure (record {
      id = prop.id;
      identifier = prop.identifier;
      label = prop.label;
      range_scheme_id = prop.range_scheme_id;
      range_datatype = prop.range_datatype;
      range_class = prop.range_class;
    })

  unfoldable pub import_properties :
      ℕ
      → List PropertyMetadata
      → List Text
      → List Text
      → List (Text × ℕ)
      → Service (List PropertyCreatedResponse × List Text)
  unfolding plan_properties
  import_properties project_id metadata existing_ids existing_uris prop_uri_to_id = do
    planned ← plan_properties existing_ids existing_uris prop_uri_to_id metadata
    rows ← collect (create_property project_id) planned.0
    for_each add_domains_of rows
    created ← collect (log_property project_id) rows
    pure (created, planned.1)
