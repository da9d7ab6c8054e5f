-- ===== src/Rdf/PropertyData.antt =====
-- The properties of a graph.
use taxonomy_builder.Common.{
  Bool, false, not, ◌&&◌, Option, none, some, List, [], ◌∷◌, ◌++◌, Text, text, contains_text,
  first_of_each, filter, map, if◌then◌else◌,
}
use taxonomy_builder.Rdf.Graph.{
  Node, uri, blank, literal, Graph, str, truthy, present, uri_of, uris_of, rdf_type, rdf_property,
  rdfs_label, rdfs_comment, rdfs_domain, rdfs_range, owl_object_property, owl_datatype_property,
}
use taxonomy_builder.Rdf.Concepts.{or_text, get_concept_scheme}
use taxonomy_builder.Rdf.Unions.{resolve_union_all}
use taxonomy_builder.Rdf.Uris.{get_identifier_from_uri, is_xsd_type, ends_with}

pub record PropertyMetadata : Type 0 where
  pub identifier : Text
  pub label : Text
  pub description : Option Text
  pub property_type : Text
  pub domain_uris : List Text
  pub range_uri : Option Text
  pub uri : Text
  pub cardinality : Text

module _ (g : Graph) where
  abbrev is_xsd_range : Option Node → Bool
  is_xsd_range none = false
  is_xsd_range (some n) = truthy n && is_xsd_type (str n)

  abbrev pub typed_as : Text → List Text
  typed_as t = first_of_each [] (uris_of (g.subjects rdf_type (uri t)))

  -- the type of a property that has an OWL type
  abbrev owl_type : Text → Text
  owl_type u =
      if contains_text (typed_as owl_object_property) u
        && contains_text (typed_as owl_datatype_property) u
      then (if is_xsd_range (g.value (uri u) rdfs_range) then text "datatype" else text "object")
      else if contains_text (typed_as owl_datatype_property) u
      then text "datatype"
      else text "object"

  abbrev owl_uris : List Text
  owl_uris = first_of_each [] (typed_as owl_object_property ++ typed_as owl_datatype_property)

  unfoldable pub find_properties : List (Text × Text)
  unfolding is_xsd_type
  find_properties =
      map (λ u. (u, owl_type u)) owl_uris
      ++ map (λ u. (u, text "rdf"))
          (filter (λ u. not (contains_text owl_uris u)) (typed_as rdf_property))

  -- the domain: a URI, or the members of a union
  abbrev pub domain_uris : Option Node → Option (List Text)
  domain_uris (some (uri u)) = some (u ∷ [])
  domain_uris (some (blank b)) = resolve_union_all g (blank b)
  domain_uris _ = some []

  abbrev of_literal : Node → Option Text
  of_literal (literal t truth holds) = some (if holds then text "multiple" else text "single")
  of_literal _ = none

  -- the first annotation `allowMultiple` with a literal
  abbrev cardinality_in : List (Text × Node) → Text
  cardinality_in [] = text "single"
  cardinality_in ((predicate, obj) ∷ rest) =
      let later = cardinality_in rest in
      if ends_with predicate (text "allowMultiple") then or_text (of_literal obj) later else later

  abbrev range_of : Option Node → Option Text
  range_of none = none
  range_of (some n) = uri_of n

  abbrev metadata_with : Text → Text → List Text → PropertyMetadata
  metadata_with prop_uri prop_type domain = record {
    identifier = get_identifier_from_uri prop_uri;
    label =
        or_text (present (g.value (uri prop_uri) rdfs_label)) (get_identifier_from_uri prop_uri);
    description = present (g.value (uri prop_uri) rdfs_comment);
    property_type = prop_type;
    domain_uris = domain;
    range_uri = range_of (g.value (uri prop_uri) rdfs_range);
    uri = prop_uri;
    cardinality = cardinality_in (g.predicate_objects (uri prop_uri));
  }

  abbrev with_domain : Text → Text → Option (List Text) → Option PropertyMetadata
  with_domain prop_uri prop_type none = none
  with_domain prop_uri prop_type (some domain) = some (metadata_with prop_uri prop_type domain)

  -- `none` means that the fuel of the union ran out
  unfoldable pub extract_property_metadata : Text → Text → Option PropertyMetadata
  unfolding resolve_union_all
  extract_property_metadata prop_uri prop_type =
      with_domain prop_uri prop_type (domain_uris (g.value (uri prop_uri) rdfs_domain))

pub data Range : Type 0 where
  scheme : Text → Range
  class : Text → Range
  ambiguous : Text → Range

module _ (g : Graph) where
  abbrev known_scheme : List Text → Option Text → List Text
  known_scheme scheme_uris none = []
  known_scheme scheme_uris (some s) = if contains_text scheme_uris s then s ∷ [] else []

  abbrev schemes_of : List Text → List Text → List Text
  schemes_of scheme_uris [] = []
  schemes_of scheme_uris (i ∷ instances) =
      known_scheme scheme_uris (get_concept_scheme g i) ++ schemes_of scheme_uris instances

  -- a direct match, where no instance led to a scheme
  abbrev direct_range : Text → List Text → List Text → Option Range
  direct_range range_uri scheme_uris class_uris =
      if contains_text scheme_uris range_uri
      then some (scheme range_uri)
      else if contains_text class_uris range_uri
      then some (class range_uri)
      else none

  abbrev by_matches : Text → List Text → List Text → List Text → Option Range
  by_matches range_uri scheme_uris class_uris [] = direct_range range_uri scheme_uris class_uris
  by_matches range_uri scheme_uris class_uris (s ∷ []) = some (scheme s)
  by_matches range_uri scheme_uris class_uris (s ∷ t ∷ rest) = some (ambiguous range_uri)

  unfoldable pub resolve_object_range : Text → List Text → List Text → Option Range
  unfolding get_concept_scheme
  resolve_object_range range_uri scheme_uris class_uris =
      by_matches range_uri scheme_uris class_uris
        (first_of_each [] (schemes_of scheme_uris (uris_of (g.subjects rdf_type (uri range_uri)))))
