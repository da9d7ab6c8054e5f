-- ===== src/Models/Snapshot.antt =====
-- The types of backend/src/taxonomy_builder/schemas/snapshot.py. A scheme's `uri` is optional:
-- `model_construct` stores what the scheme has, and the validators check it.
use taxonomy_builder.Common.{ℕ, Bool, Text, Option, List}

pub record SnapshotConcept : Type 0 where
  pub id : ℕ
  pub pref_label : Text
  pub identifier : Text
  pub uri : Text
  pub definition : Option Text
  pub scope_note : Option Text
  pub alt_labels : List Text
  pub broader_ids : List ℕ
  pub related_ids : List ℕ
  pub concept_type_uris : List Text

pub record SnapshotScheme : Type 0 where
  pub id : ℕ
  pub title : Text
  pub description : Option Text
  pub uri : Option Text
  pub concepts : List SnapshotConcept

pub record SnapshotProperty : Type 0 where
  pub id : ℕ
  pub identifier : Text
  pub label : Text
  pub uri : Text
  pub description : Option Text
  pub domain_class_uris : List Text
  pub property_type : Text
  pub range_scheme_id : Option ℕ
  pub range_scheme_uri : Option Text
  pub range_datatype : Option Text
  pub range_class : Option Text
  pub cardinality : Text
  pub required : Bool

pub record SnapshotRestriction : Type 0 where
  pub on_property_uri : Text
  pub restriction_type : Text
  pub value_uri : Text

pub record SnapshotClass : Type 0 where
  pub id : ℕ
  pub identifier : Text
  pub label : Text
  pub uri : Text
  pub description : Option Text
  pub scope_note : Option Text
  pub superclass_uris : List Text
  pub subclass_uris : List Text
  pub restrictions : List SnapshotRestriction

pub record SnapshotProjectMetadata : Type 0 where
  pub id : ℕ
  pub name : Text
  pub description : Option Text
  pub namespace : Text
  pub namespace_prefixes : List (Text × Text)

pub record SnapshotNamedIndividual : Type 0 where
  pub uri : Text
  pub label : Text

pub record SnapshotVocabulary : Type 0 where
  pub project : SnapshotProjectMetadata
  pub concept_schemes : List SnapshotScheme
  pub properties : List SnapshotProperty
  pub classes : List SnapshotClass
  pub named_individuals : List SnapshotNamedIndividual

pub record DiffItem : Type 0 where
  pub id : Option ℕ
  pub uri : Option Text
  pub label : Text
  pub entity_type : Text

pub record FieldChange : Type 0 where
  pub field_name : Text
  pub old : Option Text
  pub new : Option Text

pub record ModifiedItem : Type 0 where
  pub id : ℕ
  pub label : Text
  pub entity_type : Text
  pub changes : List FieldChange

pub record DiffResult : Type 0 where
  pub added : List DiffItem
  pub modified : List ModifiedItem
  pub removed : List DiffItem
