-- ===== src/Snapshots/Validity.antt =====
-- When a snapshot is valid.
use taxonomy_builder.Common.{
  ◌≡◌, refl, ◌∙◌, ap, inl, inr, Bool, true, false, not, ◌&&◌, ◌||◌, List, [], ◌∷◌, ◌++◌, Text, text,
  text_eq, strip, is_empty, contains_text, contains, ◌==◌, ltb, all, Bool-cases, arith,
}
use taxonomy_builder.Models.Snapshot.{
  SnapshotConcept, SnapshotScheme, SnapshotProperty, SnapshotClass, SnapshotVocabulary,
}
use taxonomy_builder.Snapshots.{
  ValidationError, is_nil, is_some, flat, report, concept_errors, uri_errors, concepts_errors,
  scheme_errors, is_property_type, is_restriction_type, range_count, range_errors, property_errors,
  restriction_errors, class_errors, model_errors, all_concept_ids, class_uris,
  well_known_superclass_uris, concept_reference_errors, class_reference_errors, finds_scheme,
  finds_class, property_reference_errors, validate_references, validate_snapshot,
}

is_nil-append : {A : Type 0} (xs ys : List A) → is_nil (xs ++ ys) ≡ (is_nil xs && is_nil ys)
is_nil-append [] ys = refl
is_nil-append (x ∷ xs) ys = refl

is_nil-report : (b : Bool) (e : ValidationError) → is_nil (report b e) ≡ b
is_nil-report true e = refl
is_nil-report false e = refl

both : {a a' b b' : Bool} → a ≡ a' → b ≡ b' → (a && b) ≡ (a' && b')
both {a' = a'} {b = b} p q = ap (λ x. x && b) p ∙ ap (λ y. a' && y) q

-- a loop reports nothing when no round does
is_nil-flat :
    {A B : Type 0} (f : A → List B) (ok : A → Bool) (xs : List A)
    → ((x : A) → is_nil (f x) ≡ ok x)
    → is_nil (flat f xs) ≡ all ok xs
is_nil-flat f ok [] h = refl
is_nil-flat f ok (x ∷ xs) h =
    is_nil-append (f x) (flat f xs) ∙ ground (arith, h x, is_nil-flat f ok xs h)

abbrev pub has_text : Text → Bool
has_text t = not (is_empty (strip t))

abbrev pub is_valid_scheme : SnapshotScheme → Bool
is_valid_scheme s =
    is_some s.uri && not (is_nil s.concepts) && all (λ c. has_text c.pref_label) s.concepts

-- one range, or none where the property is an rdf:Property; a scheme as a range has its URI
abbrev pub is_valid_property : SnapshotProperty → Bool
is_valid_property p =
    is_property_type p.property_type
    && (range_count p == 1 || text_eq p.property_type (text "rdf") && range_count p == 0)
    && (not (is_some p.range_scheme_id) || is_some p.range_scheme_uri)

abbrev pub is_valid_class : SnapshotClass → Bool
is_valid_class c =
    has_text c.label && all (λ r. is_restriction_type r.restriction_type) c.restrictions

module _ (s : SnapshotVocabulary) where
  abbrev pub resolves_concept : SnapshotConcept → Bool
  resolves_concept c =
      all (contains (all_concept_ids s)) c.broader_ids
      && all (contains (all_concept_ids s)) c.related_ids

  abbrev pub resolves_class : SnapshotClass → Bool
  resolves_class c =
      all (λ uri. contains_text (class_uris s) uri || contains_text well_known_superclass_uris uri)
        c.superclass_uris

  abbrev pub resolves_property : SnapshotProperty → Bool
  resolves_property p =
      finds_scheme s p.range_scheme_id
      && all (contains_text (class_uris s)) p.domain_class_uris
      && finds_class s p.range_class

  -- what a project must have to be published
  abbrev pub is_publishable : Bool
  is_publishable =
      not (is_nil s.concept_schemes && is_nil s.classes)
      && all is_valid_scheme s.concept_schemes
      && all is_valid_property s.properties
      && all is_valid_class s.classes
      && all (λ x. all resolves_concept x.concepts) s.concept_schemes
      && all resolves_class s.classes
      && all resolves_property s.properties

  concept_references :
      (c : SnapshotConcept) → is_nil (concept_reference_errors s c) ≡ resolves_concept c
  concept_references c =
      is_nil-append _ _
      ∙ both (is_nil-flat _ (contains (all_concept_ids s)) c.broader_ids (λ b. is_nil-report _ _))
          (is_nil-flat _ (contains (all_concept_ids s)) c.related_ids (λ b. is_nil-report _ _))

  class_references : (c : SnapshotClass) → is_nil (class_reference_errors s c) ≡ resolves_class c
  class_references c = is_nil-flat _ _ c.superclass_uris (λ uri. is_nil-report _ _)

  property_references :
      (p : SnapshotProperty) → is_nil (property_reference_errors s p) ≡ resolves_property p
  property_references p =
      is_nil-append _ _
      ∙ both
          (is_nil-append _ _
            ∙ both (is_nil-report (finds_scheme s p.range_scheme_id) _) (
                is_nil-flat _ (contains_text (class_uris s)) p.domain_class_uris
                  (λ uri. is_nil-report _ _)))
          (is_nil-report (finds_class s p.range_class) _)

  references : is_nil (validate_references s) ≡ (
      all (λ x. all resolves_concept x.concepts) s.concept_schemes
      && all resolves_class s.classes
      && all resolves_property s.properties)
  unfolding validate_references
  references =
      is_nil-append _ _
      ∙ both
          (is_nil-append _ _
            ∙ both
                (is_nil-flat _ _ s.concept_schemes
                  (λ x. is_nil-flat _ _ x.concepts concept_references))
                (is_nil-flat _ _ s.classes class_references))
          (is_nil-flat _ _ s.properties property_references)

concepts_valid :
    (x : SnapshotScheme)
    → is_nil (concepts_errors x)
      ≡ (not (is_nil x.concepts) && all (λ c. has_text c.pref_label) x.concepts)
concepts_valid x =
    let inner : is_nil (flat concept_errors x.concepts)
        ≡ all (λ c. has_text c.pref_label) x.concepts =
      is_nil-flat concept_errors (λ c. has_text c.pref_label) x.concepts (λ c. is_nil-report _ _) in
    elim (Bool-cases (is_nil (flat concept_errors x.concepts))) [
      | inl e ↦ rw e (is_nil-report (not (is_nil x.concepts)) _ ∙ ground (arith, inner))
      | inr e ↦ rw e (e ∙ ground (arith, inner))
    ]

scheme_valid : (x : SnapshotScheme) → is_nil (scheme_errors x) ≡ is_valid_scheme x
scheme_valid x =
    is_nil-append (uri_errors x) (concepts_errors x)
    ∙ both (is_nil-report (is_some x.uri) _) (concepts_valid x)
    ∙ ground arith

class_valid : (c : SnapshotClass) → is_nil (class_errors c) ≡ is_valid_class c
class_valid c =
    is_nil-append _ _
    ∙ both (is_nil-report _ _) (
        is_nil-flat restriction_errors (λ r. is_restriction_type r.restriction_type) c.restrictions
          (λ r. is_nil-report _ _))

range_valid :
    (p : SnapshotProperty)
    → is_nil (range_errors p) ≡ (
        (range_count p == 1 || text_eq p.property_type (text "rdf") && range_count p == 0)
        && (not (is_some p.range_scheme_id) || is_some p.range_scheme_uri))
range_valid p =
    let lacks = is_some p.range_scheme_id && not (is_some p.range_scheme_uri) in
    elim (Bool-cases (text_eq p.property_type (text "rdf"))) [
      | inl f ↦ elim (Bool-cases (ltb 1 (range_count p))) [
        | inl g ↦ rw (f, g) (ground arith)
        | inr g ↦ elim (Bool-cases lacks) [
          | inl h ↦ rw (f, g, h) (ground arith)
          | inr h ↦ rw (f, g, h) (ground arith)
        ]
      ]
      | inr f ↦ elim (Bool-cases (range_count p == 1)) [
        | inl g ↦ elim (Bool-cases lacks) [
          | inl h ↦ rw (f, g, h) (ground arith)
          | inr h ↦ rw (f, g, h) (ground arith)
        ]
        | inr g ↦ rw (f, g) (ground arith)
      ]
    ]

property_valid : (p : SnapshotProperty) → is_nil (property_errors p) ≡ is_valid_property p
property_valid p = elim (Bool-cases (is_property_type p.property_type)) [
  | inl e ↦ rw e (range_valid p)
  | inr e ↦ rw e refl
]

module _ (s : SnapshotVocabulary) where
  abbrev fields : List ValidationError
  fields =
      flat scheme_errors s.concept_schemes
      ++ flat property_errors s.properties
      ++ flat class_errors s.classes

  fields_valid : is_nil fields ≡ (
      all is_valid_scheme s.concept_schemes
      && all is_valid_property s.properties
      && all is_valid_class s.classes)
  fields_valid =
      is_nil-append _ _
      ∙ both
          (is_nil-append _ _
            ∙ both (is_nil-flat scheme_errors is_valid_scheme s.concept_schemes scheme_valid)
                (is_nil-flat property_errors is_valid_property s.properties property_valid))
          (is_nil-flat class_errors is_valid_class s.classes class_valid)

  model_valid :
      is_nil (model_errors s)
      ≡ (not (is_nil s.concept_schemes && is_nil s.classes) && is_nil fields)
  unfolding model_errors
  model_valid = elim (Bool-cases (is_nil fields)) [
    | inl e ↦
        rw e (is_nil-report (not (is_nil s.concept_schemes && is_nil s.classes)) _ ∙ ground arith)
    | inr e ↦ rw e (e ∙ ground arith)
  ]

  -- A snapshot is valid exactly if it has a scheme or a class, every scheme has a URI and concepts with
  -- labels, every property and class is as it must be, and every reference resolves.
  pub validate_snapshot-valid : (validate_snapshot s).valid ≡ is_publishable s
  unfolding validate_snapshot
  validate_snapshot-valid =
      is_nil-append (model_errors s) (validate_references s)
      ∙ both model_valid (references s)
      ∙ ground (arith, fields_valid)
