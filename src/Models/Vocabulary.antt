-- ===== src/Models/Vocabulary.antt =====
-- The tables of backend/src/taxonomy_builder/models that hold a project's vocabulary. A UUID is a
-- number (Python and PostgreSQL order UUIDs so), a datetime is a number, a string is a `Text`.
use taxonomy_builder.Common.{ℕ, Bool, Text, Option, List}

pub record Project : Type 0 where
  pub id : ℕ
  pub name : Text
  pub description : Option Text
  pub namespace : Text
  pub created_at : ℕ
  pub updated_at : ℕ
  pub identifier_prefix : Text
  pub identifier_counter : ℕ
  pub namespace_prefixes : List (Text × Text)
  pub named_individuals : List (Text × Text)

pub record ConceptScheme : Type 0 where
  pub id : ℕ
  pub project_id : ℕ
  pub title : Text
  pub description : Option Text
  pub uri : Option Text
  pub created_at : ℕ
  pub updated_at : ℕ

pub record Concept : Type 0 where
  pub id : ℕ
  pub scheme_id : ℕ
  pub identifier : Text
  pub pref_label : Text
  pub definition : Option Text
  pub scope_note : Option Text
  pub alt_labels : List Text
  pub concept_type_uris : List Text
  pub created_at : ℕ
  pub updated_at : ℕ

-- `concept_id` is the narrower concept
pub record ConceptBroader : Type 0 where
  pub concept_id : ℕ
  pub broader_concept_id : ℕ

-- stored with `concept_id < related_concept_id`
pub record ConceptRelated : Type 0 where
  pub concept_id : ℕ
  pub related_concept_id : ℕ

pub record OntologyClass : Type 0 where
  pub id : ℕ
  pub project_id : ℕ
  pub identifier : Text
  pub label : Text
  pub description : Option Text
  pub scope_note : Option Text
  pub uri : Text
  pub created_at : ℕ
  pub updated_at : ℕ

pub record ClassSuperclass : Type 0 where
  pub class_id : ℕ
  pub superclass_id : ℕ

pub record ClassRestriction : Type 0 where
  pub id : ℕ
  pub class_id : ℕ
  pub on_property_uri : Text
  pub restriction_type : Text
  pub value_uri : Text

pub record Property : Type 0 where
  pub id : ℕ
  pub project_id : ℕ
  pub identifier : Text
  pub label : Text
  pub description : Option Text
  pub range_scheme_id : Option ℕ
  pub range_datatype : Option Text
  pub range_class : Option Text
  pub cardinality : Text
  pub property_type : Text
  pub required : Bool
  pub uri : Text
  pub created_at : ℕ
  pub updated_at : ℕ

pub record PropertyDomainClass : Type 0 where
  pub property_id : ℕ
  pub class_id : ℕ
