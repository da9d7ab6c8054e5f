-- ===== src/Rdf/Concepts.antt =====
-- The concepts and schemes of a graph. A set is the list of its members.
use taxonomy_builder.Common.{
  ℕ, ◌+◌, not, Option, none, some, List, [], ◌∷◌, ◌++◌, Text, text, text_eq, contains_text,
  first_of_each, text_before, filter, length,
}
use taxonomy_builder.Common.Sort.{order_by}
use taxonomy_builder.Rdf.Graph.{
  Node, uri, Graph, present, present_uri, uris_of, rdf_type, rdfs_label, rdfs_comment,
  rdfs_sub_class_of, skos_concept, skos_pref_label, skos_in_scheme, skos_top_concept_of,
  skos_broader, dcterms_title, dcterms_description,
}
use taxonomy_builder.Rdf.Uris.{get_identifier_from_uri}

-- `a or b or …`, of values that may be missing
abbrev pub or_else : Option Text → Option Text → Option Text
or_else none later = later
or_else (some t) later = some t

abbrev pub or_text : Option Text → Text → Text
or_text none t = t
or_text (some s) t = s

module _ (g : Graph) where
  abbrev instances_of : List Node → List Text
  instances_of [] = []
  instances_of (c ∷ classes) = uris_of (g.subjects rdf_type c) ++ instances_of classes

  unfoldable pub find_all_concepts : List Text
  find_all_concepts = first_of_each [] (
      uris_of (g.subjects rdf_type (uri skos_concept))
      ++ instances_of (g.transitive_subjects rdfs_sub_class_of (uri skos_concept)))

  unfoldable pub extract_concept_type_uris : Text → List Text
  extract_concept_type_uris concept_uri = order_by text_before (
      first_of_each [] (
        filter (λ t. not (text_eq t skos_concept))
          (uris_of (g.objects (uri concept_uri) rdf_type))))

  unfoldable pub find_concept_subclasses : List Text
  find_concept_subclasses = first_of_each [] (
      filter (λ c. not (text_eq c skos_concept))
        (uris_of (g.transitive_subjects rdfs_sub_class_of (uri skos_concept))))

  unfoldable pub get_scheme_title : Text → Text
  unfolding get_identifier_from_uri
  get_scheme_title scheme_uri =
      or_text
        (or_else (present (g.value (uri scheme_uri) rdfs_label)) (
          or_else (present (g.value (uri scheme_uri) skos_pref_label))
            (present (g.value (uri scheme_uri) dcterms_title))))
        (get_identifier_from_uri scheme_uri)

  unfoldable pub get_scheme_description : Text → Option Text
  get_scheme_description scheme_uri =
      or_else (present (g.value (uri scheme_uri) rdfs_comment))
        (present (g.value (uri scheme_uri) dcterms_description))

  unfoldable pub get_concept_scheme : Text → Option Text
  get_concept_scheme concept_uri =
      or_else (present_uri (g.value (uri concept_uri) skos_in_scheme))
        (present_uri (g.value (uri concept_uri) skos_top_concept_of))

  abbrev label_or_warning : Text → Option Text → Text × Option Text
  label_or_warning concept_uri (some label) = (label, none)
  label_or_warning concept_uri none = (
    get_identifier_from_uri concept_uri,
    some (
        text "Concept "
        ++ concept_uri
        ++ text " has no prefLabel, using URI fragment: "
        ++ get_identifier_from_uri concept_uri),
  )

  unfoldable pub get_concept_pref_label : Text → Text × Option Text
  get_concept_pref_label concept_uri =
      label_or_warning concept_uri (present (g.value (uri concept_uri) skos_pref_label))

  abbrev pub broader_of : List Text → List Text → ℕ
  broader_of concepts [] = 0
  broader_of concepts (c ∷ rest) =
      length (filter (contains_text concepts) (uris_of (g.objects (uri c) skos_broader)))
      + broader_of concepts rest

  unfoldable pub count_broader_relationships : List Text → ℕ
  count_broader_relationships concepts = broader_of concepts concepts
