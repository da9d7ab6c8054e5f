-- ===== src/Rdf/Classes.antt =====
-- The classes of a graph and their restrictions.
use taxonomy_builder.Common.{
  not, Option, none, some, List, [], ◌∷◌, ◌++◌, Text, text, contains_text, text_before, filter,
  if◌then◌else◌,
}
use taxonomy_builder.Common.Sort.{order_by}
use taxonomy_builder.Rdf.Graph.{
  Node, uri, blank, literal, Graph, present, uri_of, uris_of, rdf_type, rdfs_label, rdfs_comment,
  rdfs_sub_class_of, skos_scope_note, owl_class, owl_union_of, owl_restriction, owl_on_property,
  owl_all_values_from, owl_some_values_from, owl_has_value,
}
use taxonomy_builder.Rdf.Concepts.{or_text}
use taxonomy_builder.Rdf.Uris.{get_identifier_from_uri}

pub record ClassMetadata : Type 0 where
  pub identifier : Text
  pub label : Text
  pub description : Option Text
  pub scope_note : Option Text
  pub uri : Text
  pub superclass_uris : List Text

pub record RestrictionMetadata : Type 0 where
  pub class_uri : Text
  pub on_property_uri : Text
  pub restriction_type : Text
  pub value_uri : Text

module _ (g : Graph) where
  unfoldable pub find_owl_classes : List Text
  find_owl_classes =
      filter (λ c. not (g.contains (uri c) owl_union_of none))
        (uris_of (g.subjects rdf_type (uri owl_class)))

  unfoldable pub extract_class_metadata : List Text → Text → ClassMetadata
  unfolding get_identifier_from_uri
  extract_class_metadata exclude_superclass_uris class_uri = record {
    identifier = get_identifier_from_uri class_uri;
    label =
        or_text (present (g.value (uri class_uri) rdfs_label)) (get_identifier_from_uri class_uri);
    description = present (g.value (uri class_uri) rdfs_comment);
    scope_note = present (g.value (uri class_uri) skos_scope_note);
    uri = class_uri;
    superclass_uris = order_by text_before (
        filter (λ u. not (contains_text exclude_superclass_uris u))
          (uris_of (g.objects (uri class_uri) rdfs_sub_class_of)));
  }

  -- the predicates that are handled, with what the restriction is called
  abbrev owl_predicates : List (Text × Text)
  owl_predicates =
      (owl_all_values_from, text "allValuesFrom")
      ∷ (owl_some_values_from, text "someValuesFrom")
      ∷ (owl_has_value, text "hasValue")
      ∷ []

  abbrev value_uri : Option Node → Option Text
  value_uri none = none
  value_uri (some n) = uri_of n

  -- the first predicate whose value is a URI
  abbrev restriction_with : Text → Text → Node → List (Text × Text) → List RestrictionMetadata
  restriction_with class_uri on_property obj [] = []
  restriction_with class_uri on_property obj ((predicate, kind) ∷ rest) =
      let later = restriction_with class_uri on_property obj rest in
      elim (value_uri (g.value obj predicate)) [
        | none ↦ later
        | some value ↦
            record {
              class_uri = class_uri;
              on_property_uri = on_property;
              restriction_type = kind;
              value_uri = value;
            }
            ∷ []
      ]

  abbrev restriction_on : Text → Node → Option Text → List RestrictionMetadata
  restriction_on class_uri obj none = []
  restriction_on class_uri obj (some on_property) =
      restriction_with class_uri on_property obj owl_predicates

  abbrev restriction_of : Text → Node → List RestrictionMetadata
  restriction_of class_uri (uri u) = []
  restriction_of class_uri (literal t truth holds) = []
  restriction_of class_uri (blank b) =
      if g.contains (blank b) rdf_type (some (uri owl_restriction))
      then restriction_on class_uri (blank b) (value_uri (g.value (blank b) owl_on_property))
      else []

  abbrev restrictions_of : Text → List Node → List RestrictionMetadata
  restrictions_of class_uri [] = []
  restrictions_of class_uri (obj ∷ rest) =
      restriction_of class_uri obj ++ restrictions_of class_uri rest

  abbrev restrictions_in : List Text → List RestrictionMetadata
  restrictions_in [] = []
  restrictions_in (c ∷ rest) =
      restrictions_of c (g.objects (uri c) rdfs_sub_class_of) ++ restrictions_in rest

  unfoldable pub extract_restrictions : List Text → List RestrictionMetadata
  extract_restrictions class_uris = restrictions_in (order_by text_before class_uris)
