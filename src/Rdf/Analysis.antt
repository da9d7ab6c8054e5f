-- ===== src/Rdf/Analysis.antt =====
-- `analyze_graph`: all that an import takes from a graph.
use taxonomy_builder.Common.{
  Option, none, some, List, [], ◌∷◌, ◌++◌, Text, text, contains_text, map, if◌then◌else◌,
}
use taxonomy_builder.Common.Dict.{lookup, put}
use taxonomy_builder.Rdf.Graph.{uri, Graph, uris_of, rdf_type, skos_concept_scheme}
use taxonomy_builder.Rdf.Classes.{
  ClassMetadata, RestrictionMetadata, find_owl_classes, extract_class_metadata,
  extract_restrictions,
}
use taxonomy_builder.Rdf.Concepts.{find_all_concepts, get_concept_scheme}
use taxonomy_builder.Rdf.PropertyData.{PropertyMetadata, find_properties, extract_property_metadata}

pub record Analysis : Type 0 where
  pub schemes : List Text
  pub concepts_by_scheme : List (Text × List Text)
  pub warnings : List Text
  pub classes : List ClassMetadata
  pub properties : List PropertyMetadata
  pub restrictions : List RestrictionMetadata

-- `{s: set() for s in schemes}`, onto what is there
abbrev pub empty_sets : List (Text × List Text) → List Text → List (Text × List Text)
empty_sets m [] = m
empty_sets m (s ∷ schemes) = empty_sets (put s [] m) schemes

-- the concepts by scheme, and those of no scheme
abbrev Membership : Type 0
Membership = List (Text × List Text) × List Text

abbrev pub add_all : List Text → List Text → List Text
add_all concepts [] = concepts
add_all concepts (c ∷ rest) =
    add_all (if contains_text concepts c then concepts else concepts ++ c ∷ []) rest

abbrev to_set : Text → Text → Membership → Option (List Text) → Membership
to_set concept scheme (by_scheme, orphans) none = (by_scheme, orphans ++ concept ∷ [])
to_set concept scheme (by_scheme, orphans) (some concepts) =
    (put scheme (add_all concepts (concept ∷ [])) by_scheme, orphans)

abbrev to_scheme : Text → Option Text → Membership → Membership
to_scheme concept none (by_scheme, orphans) = (by_scheme, orphans ++ concept ∷ [])
to_scheme concept (some scheme) (by_scheme, orphans) =
    to_set concept scheme (by_scheme, orphans) (lookup scheme by_scheme)

abbrev orphan_warnings : List Text → List Text
orphan_warnings orphans =
    map (λ o. text "Concept " ++ o ++ text " has no scheme membership and was skipped") orphans

abbrev pub set_or_empty : Option (List Text) → List Text
set_or_empty none = []
set_or_empty (some concepts) = concepts

-- concepts of no scheme go to the only scheme, if there is one
abbrev place_orphans : List Text → Membership → List (Text × List Text) × List Text
place_orphans schemes (by_scheme, []) = (by_scheme, [])
place_orphans (s ∷ []) (by_scheme, o ∷ orphans) =
    (put s (add_all (set_or_empty (lookup s by_scheme)) (o ∷ orphans)) by_scheme, [])
place_orphans [] (by_scheme, o ∷ orphans) = (by_scheme, orphan_warnings (o ∷ orphans))
place_orphans (s ∷ t ∷ schemes) (by_scheme, o ∷ orphans) =
    (by_scheme, orphan_warnings (o ∷ orphans))

module _ (g : Graph) where
  abbrev assign : List Text → Membership → Membership
  assign [] m = m
  assign (c ∷ concepts) m = assign concepts (to_scheme c (get_concept_scheme g c) m)

  abbrev cons_metadata :
      Option PropertyMetadata → Option (List PropertyMetadata) → Option (List PropertyMetadata)
  cons_metadata none rest = none
  cons_metadata (some p) none = none
  cons_metadata (some p) (some rest) = some (p ∷ rest)

  abbrev metadata_of : List (Text × Text) → Option (List PropertyMetadata)
  metadata_of [] = some []
  metadata_of ((u, kind) ∷ properties) =
      cons_metadata (extract_property_metadata g u kind) (metadata_of properties)

  abbrev scheme_uris_of : List Text
  scheme_uris_of = uris_of (g.subjects rdf_type (uri skos_concept_scheme))

  abbrev placed : List (Text × List Text) × List Text
  placed =
      place_orphans scheme_uris_of (assign (find_all_concepts g) (empty_sets [] scheme_uris_of, []))

  abbrev class_metadata : List ClassMetadata
  class_metadata = map (extract_class_metadata g []) (find_owl_classes g)

  abbrev analysis_with : Option (List PropertyMetadata) → Option Analysis
  analysis_with none = none
  analysis_with (some properties) = some (record {
    schemes = scheme_uris_of;
    concepts_by_scheme = placed.0;
    warnings = placed.1;
    classes = class_metadata;
    properties = properties;
    restrictions = extract_restrictions g (map (λ c. c.uri) class_metadata);
  })

  -- `none` means that the fuel of a union ran out
  unfoldable pub analyze_graph : Option Analysis
  unfolding find_all_concepts get_concept_scheme extract_class_metadata find_owl_classes
      extract_property_metadata find_properties extract_restrictions
  analyze_graph = analysis_with (metadata_of (find_properties g))
