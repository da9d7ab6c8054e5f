-- ===== src/Snapshots/Diff/Dumps.antt =====
-- What `model_dump` gives of the items that are compared.
use taxonomy_builder.Common.{List, [], ◌∷◌, Text, text}
use taxonomy_builder.Models.Snapshot.{
  SnapshotConcept, SnapshotScheme, SnapshotProperty, SnapshotClass,
}
use taxonomy_builder.Snapshots.Diff.Fields.{
  Value, string, strings, uuids, flag, restrictions, optional, optional_id,
}

-- `model_dump`, with the fields that are compared
abbrev pub dump_concept : SnapshotConcept → List (Text × Value)
dump_concept c =
    (text "pref_label", string c.pref_label)
    ∷ (text "identifier", string c.identifier)
    ∷ (text "uri", string c.uri)
    ∷ (text "definition", optional c.definition)
    ∷ (text "scope_note", optional c.scope_note)
    ∷ (text "alt_labels", strings c.alt_labels)
    ∷ (text "broader_ids", uuids c.broader_ids)
    ∷ (text "related_ids", uuids c.related_ids)
    ∷ (text "concept_type_uris", strings c.concept_type_uris)
    ∷ []

abbrev pub dump_scheme : SnapshotScheme → List (Text × Value)
dump_scheme s =
    (text "title", string s.title)
    ∷ (text "description", optional s.description)
    ∷ (text "uri", optional s.uri)
    ∷ []

abbrev pub dump_property : SnapshotProperty → List (Text × Value)
dump_property p =
    (text "identifier", string p.identifier)
    ∷ (text "label", string p.label)
    ∷ (text "uri", string p.uri)
    ∷ (text "description", optional p.description)
    ∷ (text "domain_class_uris", strings p.domain_class_uris)
    ∷ (text "property_type", string p.property_type)
    ∷ (text "range_scheme_id", optional_id p.range_scheme_id)
    ∷ (text "range_scheme_uri", optional p.range_scheme_uri)
    ∷ (text "range_datatype", optional p.range_datatype)
    ∷ (text "range_class", optional p.range_class)
    ∷ (text "cardinality", string p.cardinality)
    ∷ (text "required", flag p.required)
    ∷ []

abbrev pub dump_class : SnapshotClass → List (Text × Value)
dump_class c =
    (text "identifier", string c.identifier)
    ∷ (text "label", string c.label)
    ∷ (text "uri", string c.uri)
    ∷ (text "description", optional c.description)
    ∷ (text "scope_note", optional c.scope_note)
    ∷ (text "superclass_uris", strings c.superclass_uris)
    ∷ (text "subclass_uris", strings c.subclass_uris)
    ∷ (text "restrictions", restrictions c.restrictions)
    ∷ []
