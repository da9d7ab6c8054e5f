-- ===== src/Rdf/Issues.antt =====
-- The issues that `validate_graph` reports, and their messages.
use taxonomy_builder.Common.{
  ℕ, suc, Bool, true, false, ◌&&◌, ◌||◌, Option, none, some, List, [], ◌∷◌, ◌++◌, Text, text,
  text_eq, text_before, length, ◌==◌, if◌then◌else◌,
}
use taxonomy_builder.Common.Decimal.{decimal}
use taxonomy_builder.Rdf.Graph.{Node, uri, Statement}
use taxonomy_builder.Rdf.Uris.{uri_scheme, get_identifier_from_uri}

pub data Severity : Type 0 where
  error : Severity
  warning : Severity
  info : Severity

pub record ValidationIssue : Type 0 where
  pub severity : Severity
  pub kind : Text
  pub message : Text
  pub entity_uri : Option Text

pub record GraphResult : Type 0 where
  pub errors : List ValidationIssue
  pub warnings : List ValidationIssue
  pub infos : List ValidationIssue

abbrev pub is_some_issue : List ValidationIssue → Bool
is_some_issue [] = false
is_some_issue (i ∷ issues) = true

abbrev pub has_errors : GraphResult → Bool
has_errors r = is_some_issue r.errors

abbrev pub plural : ℕ → Text
plural n = if n == 1 then [] else text "s"

abbrev pub allowed : Text → Bool
allowed u = text_eq (uri_scheme u) (text "http") || text_eq (uri_scheme u) (text "https")

abbrev pub scheme_issue : Text → ValidationIssue
scheme_issue u =
    if text_eq (uri_scheme u) (text "file")
    then record {
      severity = error;
      kind = text "file_uri";
      message =
          text "file:// URI detected: "
          ++ u
          ++ text " — this usually means the file is missing an @base directive";
      entity_uri = some u;
    }
    else record {
      severity = error;
      kind = text "unsupported_uri_scheme";
      message =
          text "Unsupported URI scheme '"
          ++ uri_scheme u
          ++ text ":' in "
          ++ u
          ++ text " — only http:// and https:// URIs are supported";
      entity_uri = some u;
    }

-- the subjects and objects, in the order in which they are looked at
abbrev pub ends_of : List Statement → List Node
ends_of [] = []
ends_of (t ∷ triples) = t.subject ∷ t.object ∷ ends_of triples

abbrev pub append_issues :
    List ValidationIssue → Option (List ValidationIssue) → Option (List ValidationIssue)
append_issues issues none = none
append_issues issues (some more) = some (issues ++ more)

abbrev pub join_edges : List (Text × Text) → Text
join_edges [] = []
join_edges ((a, b) ∷ []) = a ++ text " → " ++ b
join_edges ((a, b) ∷ rest) = a ++ text " → " ++ b ++ text ", " ++ join_edges rest

abbrev pub cycle_issues : List (Text × Text) → List ValidationIssue
cycle_issues [] = []
cycle_issues (e ∷ edges) =
    record {
      severity = error;
      kind = text "superclass_cycle";
      message = text "Cycle detected in rdfs:subClassOf hierarchy: " ++ join_edges (e ∷ edges);
      entity_uri = none;
    }
    ∷ []

abbrev pub issues_of_cycles : Option (List (Text × Text)) → Option (List ValidationIssue)
issues_of_cycles none = none
issues_of_cycles (some edges) = some (cycle_issues edges)

-- `sorted` of pairs
abbrev pub pair_before : Text × Text → Text × Text → Bool
pair_before (a, b) (c, d) = text_before a c || text_eq a c && text_before b d

abbrev pub individual_issues : ℕ → List ValidationIssue
individual_issues n =
    if n == 0
    then []
    else record {
      severity = info;
      kind = text "unsupported_named_individual";
      message =
          text "Found "
          ++ decimal n
          ++ text " named individual"
          ++ plural n
          ++ text " — not yet supported (#112)";
      entity_uri = none;
    }
      ∷ []

abbrev pub has_value : Option Node → Bool
has_value none = false
has_value (some n) = true

abbrev pub property_label : Option Node → Text
property_label (some (uri u)) = get_identifier_from_uri u
property_label _ = text "?"

abbrev pub join_details : List Text → Text
join_details [] = []
join_details (t ∷ []) = t
join_details (t ∷ rest) = t ++ text "; " ++ join_details rest

abbrev pub restriction_issues : List Text → List ValidationIssue
restriction_issues [] = []
restriction_issues (r ∷ restrictions) =
    record {
      severity = warning;
      kind = text "unsupported_restriction";
      message =
          text "Found "
          ++ decimal (suc (length restrictions))
          ++ text " unsupported OWL restriction"
          ++ plural (suc (length restrictions))
          ++ text " that will be dropped on import: "
          ++ join_details (r ∷ restrictions);
      entity_uri = none;
    }
    ∷ []

abbrev pub empty_graph : GraphResult
empty_graph = record {
  errors = [];
  warnings =
      record {
        severity = warning;
        kind = text "empty_graph";
        message =
            text
              "File parsed successfully but contains no RDF data — check the file format matches the file extension";
        entity_uri = none;
      }
      ∷ [];
  infos = [];
}

abbrev pub is_empty_graph : List Statement → Bool
is_empty_graph [] = true
is_empty_graph (t ∷ triples) = false
