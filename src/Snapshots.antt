-- ===== src/Snapshots.antt =====
-- `validate_snapshot` of backend/src/taxonomy_builder/services/snapshot_service.py, with the validators of
-- schemas/snapshot.py that it runs.
pub mod Validity
pub mod Diff
pub mod Build
use taxonomy_builder.Common.{
  ℕ, zero, suc, ◌+◌, Bool, true, false, not, ◌&&◌, ◌||◌, Option, none, some, List, [], ◌∷◌, ◌++◌,
  map, Text, text, text_eq, strip, is_empty, contains_text, contains, ◌==◌, ltb, if◌then◌else◌,
}
use taxonomy_builder.Models.Snapshot.{
  SnapshotConcept, SnapshotScheme, SnapshotProperty, SnapshotRestriction, SnapshotClass,
  SnapshotVocabulary,
}

pub record ValidationError : Type 0 where
  pub code : Text
  pub message : Text
  pub entity_type : Option Text
  pub entity_id : Option ℕ
  pub entity_label : Option Text

pub record ValidationResult : Type 0 where
  pub valid : Bool
  pub errors : List ValidationError

abbrev pub is_nil {ℓ} : {A : Type ℓ} → List A → Bool
is_nil [] = true
is_nil (x ∷ xs) = false

-- the errors of every element, in order
abbrev pub flat : {A B : Type 0} → (A → List B) → List A → List B
flat f [] = []
flat f (x ∷ xs) = f x ++ flat f xs

-- an error, unless the test passes
abbrev pub report : Bool → ValidationError → List ValidationError
report true e = []
report false e = e ∷ []

abbrev entity_error : Text → Text → Text → ℕ → Text → ValidationError
entity_error code message kind id label = record {
  code = code;
  message = message;
  entity_type = some kind;
  entity_id = some id;
  entity_label = some label;
}

abbrev plain_error : Text → Text → ValidationError
plain_error code message = record {
  code = code;
  message = message;
  entity_type = none;
  entity_id = none;
  entity_label = none;
}

abbrev pub is_some {ℓ} : {A : Type ℓ} → Option A → Bool
is_some none = false
is_some (some x) = true

-- `SnapshotConcept.non_empty_label`
abbrev pub concept_errors : SnapshotConcept → List ValidationError
concept_errors c = report (not (is_empty (strip c.pref_label))) (
    entity_error (text "concept_missing_pref_label")
      (text "A concept has an empty preferred label.") (text "concept") c.id c.pref_label)

-- `require_uri`
abbrev pub uri_errors : SnapshotScheme → List ValidationError
uri_errors s = report (is_some s.uri) (
    entity_error (text "scheme_missing_uri") (text "Scheme '" ++ s.title ++ text "' has no URI.")
      (text "scheme") s.id s.title)

-- the errors of the concepts, and `require_concepts` where they are valid
abbrev pub concepts_errors : SnapshotScheme → List ValidationError
concepts_errors s =
    let inner = flat concept_errors s.concepts in
    if is_nil inner
    then report (not (is_nil s.concepts)) (
        entity_error (text "scheme_no_concepts")
          (text "Scheme '" ++ s.title ++ text "' has no concepts.") (text "scheme") s.id s.title)
    else inner

abbrev pub scheme_errors : SnapshotScheme → List ValidationError
scheme_errors s = uri_errors s ++ concepts_errors s

-- the values of the `Literal`, and of RestrictionType
abbrev pub is_property_type : Text → Bool
is_property_type t = contains_text (text "object" ∷ text "datatype" ∷ text "rdf" ∷ []) t

abbrev pub is_restriction_type : Text → Bool
is_restriction_type t =
    contains_text (text "allValuesFrom" ∷ text "someValuesFrom" ∷ text "hasValue" ∷ []) t

abbrev one_if : Bool → ℕ
one_if true = 1
one_if false = 0

abbrev pub range_count : SnapshotProperty → ℕ
range_count p =
    one_if (is_some p.range_scheme_id)
    + one_if (is_some p.range_datatype)
    + one_if (is_some p.range_class)

-- `require_valid_range`, which raises the first of its errors
abbrev pub range_errors : SnapshotProperty → List ValidationError
range_errors p =
    let error : Text → Text → List ValidationError =
      λ code message. entity_error code message (text "property") p.id p.label ∷ [] in
    let missing_uri =
      if is_some p.range_scheme_id && not (is_some p.range_scheme_uri)
      then error (text "property_missing_range_scheme_uri")
          (text "Property '" ++ p.label ++ text "' has a range scheme ID but no range scheme URI.")
      else [] in
    if text_eq p.property_type (text "rdf")
    then if ltb 1 (range_count p)
      then error (text "property_invalid_range")
          (text "Property '" ++ p.label ++ text "' (rdf:Property) may have at most one range.")
      else missing_uri
    else if not (range_count p == 1)
    then error (text "property_invalid_range") (
        text "Property '"
        ++ p.label
        ++ text "' must have exactly one of range scheme, range datatype, or range class.")
    else missing_uri

abbrev pub property_errors : SnapshotProperty → List ValidationError
property_errors p =
    if is_property_type p.property_type
    then range_errors p
    else plain_error (text "literal_error") (text "Input should be 'object', 'datatype' or 'rdf'")
      ∷ []

abbrev pub restriction_errors : SnapshotRestriction → List ValidationError
restriction_errors r = report (is_restriction_type r.restriction_type) (
    plain_error (text "enum")
      (text "Input should be 'allValuesFrom', 'someValuesFrom' or 'hasValue'"))

abbrev pub class_errors : SnapshotClass → List ValidationError
class_errors c =
    report (not (is_empty (strip c.label))) (
      entity_error (text "class_missing_label") (text "A class has an empty label.") (text "class")
        c.id c.label)
    ++ flat restriction_errors c.restrictions

-- `require_content`
abbrev pub content_errors : SnapshotVocabulary → List ValidationError
content_errors s =
    report (not (is_nil s.concept_schemes && is_nil s.classes))
      (plain_error (text "empty_project") (text "Project has no concept schemes or classes."))

-- `model_validate`: the errors of the fields, and the model's own where there are none
unfoldable pub model_errors : SnapshotVocabulary → List ValidationError
model_errors s =
    let fields =
      flat scheme_errors s.concept_schemes
      ++ flat property_errors s.properties
      ++ flat class_errors s.classes in
    if is_nil fields then content_errors s else fields

-- WELL_KNOWN_SUPERCLASS_URIS
abbrev pub well_known_superclass_uris : List Text
well_known_superclass_uris =
    text "http://www.w3.org/2004/02/skos/core#Concept"
    ∷ text "http://www.w3.org/2002/07/owl#Thing"
    ∷ text "http://www.w3.org/2000/01/rdf-schema#Resource"
    ∷ []

module _ (snapshot : SnapshotVocabulary) where
  abbrev pub all_concept_ids : List ℕ
  all_concept_ids = flat (λ s. map (λ c. c.id) s.concepts) snapshot.concept_schemes

  abbrev pub scheme_ids : List ℕ
  scheme_ids = map (λ s. s.id) snapshot.concept_schemes

  -- `{cls.uri for cls in snapshot.classes if cls.uri}`
  abbrev pub class_uris : List Text
  class_uris = flat (λ c. if is_empty c.uri then [] else c.uri ∷ []) snapshot.classes

  abbrev pub concept_reference_errors : SnapshotConcept → List ValidationError
  concept_reference_errors c =
      flat
        (λ b. report (contains all_concept_ids b) (
          entity_error (text "broken_broader_ref")
            (text "Concept '"
              ++ c.pref_label
              ++ text "' has a broader reference to a non-existent concept.")
            (text "concept") c.id c.pref_label))
        c.broader_ids
      ++ flat
          (λ r. report (contains all_concept_ids r) (
            entity_error (text "broken_related_ref")
              (text "Concept '"
                ++ c.pref_label
                ++ text "' has a related reference to a non-existent concept.")
              (text "concept") c.id c.pref_label))
          c.related_ids

  abbrev pub class_reference_errors : SnapshotClass → List ValidationError
  class_reference_errors c =
      flat
        (λ uri.
          report (contains_text class_uris uri || contains_text well_known_superclass_uris uri) (
            entity_error (text "broken_superclass_ref")
              (text "class '"
                ++ c.label
                ++ text "' references superclass '"
                ++ uri
                ++ text "' which is not in the project's ontology classes.")
              (text "class") c.id c.label))
        c.superclass_uris

  -- a range that is not given, or that is found; an empty range class is not looked for
  abbrev pub finds_scheme : Option ℕ → Bool
  finds_scheme none = true
  finds_scheme (some id) = contains scheme_ids id

  abbrev pub finds_class : Option Text → Bool
  finds_class none = true
  finds_class (some uri) = is_empty uri || contains_text class_uris uri

  abbrev or_blank : Option Text → Text
  or_blank none = []
  or_blank (some t) = t

  abbrev pub property_reference_errors : SnapshotProperty → List ValidationError
  property_reference_errors p =
      report (finds_scheme p.range_scheme_id) (
        entity_error (text "broken_range_scheme_ref")
          (text "property '" ++ p.label ++ text "' references a non-existent scheme.")
          (text "property") p.id p.label)
      ++ flat
          (λ uri. report (contains_text class_uris uri) (
            entity_error (text "broken_domain_class_ref")
              (text "property '"
                ++ p.label
                ++ text "' references domain class '"
                ++ uri
                ++ text "' which is not in the project's ontology classes.")
              (text "property") p.id p.label))
          p.domain_class_uris
      ++ report (finds_class p.range_class) (
          entity_error (text "broken_range_class_ref")
            (text "property '"
              ++ p.label
              ++ text "' references range class '"
              ++ or_blank p.range_class
              ++ text "' which is not in the project's ontology classes.")
            (text "property") p.id p.label)

  -- `_validate_references`
  unfoldable pub validate_references : List ValidationError
  validate_references =
      flat (λ s. flat concept_reference_errors s.concepts) snapshot.concept_schemes
      ++ flat class_reference_errors snapshot.classes
      ++ flat property_reference_errors snapshot.properties

  unfoldable pub validate_snapshot : ValidationResult
  unfolding model_errors validate_references
  validate_snapshot =
      let errors = model_errors snapshot ++ validate_references in
      record { valid = is_nil errors; errors = errors }
