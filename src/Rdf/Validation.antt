-- ===== src/Rdf/Validation.antt =====
-- `validate_graph`: what is reported about a file before its import.
pub mod Refusal
use taxonomy_builder.Common.{
  Result, ok, raise, all, ℕ, suc, Bool, true, false, not, ◌&&◌, ◌||◌, Option, none, some, List, [],
  ◌∷◌, ◌++◌, Text, text, text_eq, is_empty, contains_text, first_of_each, text_before, filter,
  length, map, ◌==◌, if◌then◌else◌, any,
}
use taxonomy_builder.Common.Decimal.{decimal}
use taxonomy_builder.Common.Sort.{order_by}
use taxonomy_builder.Snapshots.{well_known_superclass_uris}
use taxonomy_builder.Rdf.Graph.{
  Node, uri, blank, literal, Statement, Graph, present, uri_of, uris_of, rdf_type, rdf_property,
  rdfs_label, rdfs_domain, owl_restriction, owl_on_property, owl_all_values_from,
  owl_some_values_from, owl_has_value, owl_named_individual,
}
use taxonomy_builder.Rdf.Classes.{find_owl_classes, extract_class_metadata}
use taxonomy_builder.Rdf.Concepts.{or_text}
use taxonomy_builder.Rdf.Cycles.{detect_superclass_cycles}
use taxonomy_builder.Rdf.PropertyData.{find_properties, domain_uris}
use taxonomy_builder.Rdf.Uris.{uri_scheme, is_parsed, get_identifier_from_uri, last_part}
use taxonomy_builder.Rdf.Issues.{
  Severity, ValidationIssue, GraphResult, is_some_issue, has_errors, plural, allowed, scheme_issue,
  ends_of, append_issues, join_edges, cycle_issues, issues_of_cycles, pair_before,
  individual_issues, has_value, property_label, join_details, restriction_issues, empty_graph,
  is_empty_graph, error, warning, info,
}

-- `value_error`: `urlparse` refuses a URI; `endless`: the fuel of a search ran out
pub data GraphError : Type 0 where
  value_error : GraphError
  endless : GraphError

-- what follows the check of the schemes
abbrev pub with_schemes :
    Result GraphError (List ValidationIssue)
    → (List ValidationIssue → Result GraphError GraphResult)
    → Result GraphError GraphResult
with_schemes (raise e) rest = raise e
with_schemes (ok issues) rest = rest issues

module _ (g : Graph) where
  -- a URI of another scheme is reported once
  abbrev pub scheme_issues : List ValidationIssue
  scheme_issues =
      map scheme_issue
        (first_of_each [] (filter (λ u. not (allowed u)) (uris_of (ends_of g.triples))))

  -- A URI that is seen again was parsed before, so that all are parsed or one is refused.
  unfoldable pub check_uri_schemes :
      (is_netloc : Text → Bool) → Result GraphError (List ValidationIssue)
  unfolding uri_scheme is_parsed
  check_uri_schemes is_netloc =
      if all (is_parsed is_netloc) (uris_of (ends_of g.triples))
      then ok scheme_issues
      else raise value_error

  abbrev pub unresolved : List Text → Text → List Text → List ValidationIssue
  unresolved class_uris u domains =
      map
        (λ d. record {
          severity = warning;
          kind = text "unresolved_domain";
          message =
              text "Property '"
              ++ get_identifier_from_uri u
              ++ text "' has domain '"
              ++ d
              ++ text "' which doesn't match any class in the project";
          entity_uri = some u;
        })
        (filter (λ d. not (contains_text class_uris d)) domains)

  abbrev pub add_unresolved :
      List Text
      → Text
      → Option (List Text)
      → Option (List ValidationIssue)
      → Option (List ValidationIssue)
  add_unresolved class_uris u none rest = none
  add_unresolved class_uris u (some domains) rest =
      append_issues (unresolved class_uris u domains) rest

  abbrev pub unresolved_in : List Text → List (Text × Text) → Option (List ValidationIssue)
  unresolved_in class_uris [] = some []
  unresolved_in class_uris ((u, kind) ∷ properties) =
      add_unresolved class_uris u (domain_uris g (g.value (uri u) rdfs_domain))
        (unresolved_in class_uris properties)

  unfoldable pub check_unresolved_domains : List Text → Option (List ValidationIssue)
  check_unresolved_domains class_uris =
      unresolved_in (class_uris ++ find_owl_classes g) (find_properties g)

  unfoldable pub check_rdf_properties : List ValidationIssue
  check_rdf_properties =
      map
        (λ u. record {
          severity = info;
          kind = text "rdf_property";
          message =
              text "'"
              ++ get_identifier_from_uri u
              ++ text "' is typed as rdf:Property (not owl:ObjectProperty/DatatypeProperty)";
          entity_uri = some u;
        })
        (uris_of (g.subjects rdf_type (uri rdf_property)))

  unfoldable pub check_superclass_cycles : Option (List ValidationIssue)
  check_superclass_cycles = issues_of_cycles (
      detect_superclass_cycles
        (map (extract_class_metadata g well_known_superclass_uris) (find_owl_classes g)))

  unfoldable pub find_named_individuals : List (Text × Text)
  find_named_individuals = order_by pair_before (
      map (λ u. (u, or_text (present (g.value (uri u) rdfs_label)) (last_part b'/' [] u)))
        (uris_of (g.subjects rdf_type (uri owl_named_individual))))

  unfoldable pub check_unsupported_named_individuals : List ValidationIssue
  check_unsupported_named_individuals =
      individual_issues (length (uris_of (g.subjects rdf_type (uri owl_named_individual))))

  abbrev is_handled : Node → Bool
  is_handled subject =
      has_value (g.value subject owl_all_values_from)
      || has_value (g.value subject owl_some_values_from)
      || has_value (g.value subject owl_has_value)

  unfoldable pub check_unsupported_restrictions : List ValidationIssue
  check_unsupported_restrictions = restriction_issues (
      map
        (λ s. property_label (g.value s owl_on_property) ++ text " (unrecognised restriction type)")
        (filter (λ s. not (is_handled s)) (g.subjects rdf_type (uri owl_restriction))))

  abbrev pub collected :
      Option (List ValidationIssue)
      → Option (List ValidationIssue)
      → List ValidationIssue
      → Result GraphError GraphResult
  collected none cycles schemes = raise endless
  collected (some domains) none schemes = raise endless
  collected (some domains) (some cycles) schemes = ok (record {
    errors = schemes ++ cycles;
    warnings = domains ++ check_unsupported_restrictions;
    infos = check_rdf_properties ++ check_unsupported_named_individuals;
  })

  unfoldable pub validate_graph :
      (is_netloc : Text → Bool) → List Text → Result GraphError GraphResult
  unfolding check_uri_schemes check_unresolved_domains check_superclass_cycles
      check_unsupported_restrictions check_rdf_properties check_unsupported_named_individuals
  validate_graph is_netloc class_uris =
      if is_empty_graph g.triples
      then ok empty_graph
      else with_schemes (check_uri_schemes is_netloc)
          (collected (check_unresolved_domains class_uris) check_superclass_cycles)
