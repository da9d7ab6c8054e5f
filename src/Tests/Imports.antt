-- ===== src/Tests/Imports.antt =====
-- The theorems about imports at a small file.
use taxonomy_builder.Common.{
  ℕ, ◌+◌, ◌≡◌, refl, true, false, none, some, List, [], ◌∷◌, Text, text, length, ok, raise, ◌++◌,
  Result,
}
use taxonomy_builder.Common.Decimal.{decimal}
use taxonomy_builder.Models.Session.{Session}
use taxonomy_builder.Models.Vocabulary.{ConceptScheme}
use taxonomy_builder.Rdf.Cycles.{detect_superclass_cycles}
use taxonomy_builder.Rdf.Graph.{
  Node, uri, literal, Graph, rdf_type, rdfs_domain, rdfs_range, owl_class, owl_object_property,
  skos_concept, skos_concept_scheme, skos_in_scheme, skos_broader, skos_pref_label,
}
use taxonomy_builder.Imports.{ImportError, Environment}
use taxonomy_builder.Imports.Agree.{is_distinct_file, Foretells, execute-Foretells}
use taxonomy_builder.Imports.Classes.{import_classes}
use taxonomy_builder.Imports.Edges.{are_keys, import_classes-are_keys}
use taxonomy_builder.Rdf.Classes.{ClassMetadata}
use taxonomy_builder.Imports.Execute.{ImportResultResponse, execute}
use taxonomy_builder.Imports.Preview.{preview}
use taxonomy_builder.Imports.Schemes.{is_taken, get_unique_title}
use taxonomy_builder.Imports.Titles.{get_unique_title_lem}
use taxonomy_builder.Tests.{actor}
use taxonomy_builder.Tests.Properties.{properties_db}
use taxonomy_builder.Tests.Rdf.{graph_of, says, is_netloc}

abbrev at : Text → Node
at name = uri (text "http://example.org/i/" ++ name)

abbrev file : Graph
file = graph_of (
    says (at (text "Colours")) rdf_type (uri skos_concept_scheme)
    ∷ says (at (text "Red")) rdf_type (uri skos_concept)
    ∷ says (at (text "Red")) skos_in_scheme (at (text "Colours"))
    ∷ says (at (text "Red")) skos_pref_label (literal (text "red") true false)
    ∷ says (at (text "Pink")) rdf_type (uri skos_concept)
    ∷ says (at (text "Pink")) skos_in_scheme (at (text "Colours"))
    ∷ says (at (text "Pink")) skos_broader (at (text "Red"))
    ∷ says (at (text "Thing")) rdf_type (uri owl_class)
    ∷ says (at (text "colour")) rdf_type (uri owl_object_property)
    ∷ says (at (text "colour")) rdfs_domain (at (text "Thing"))
    ∷ says (at (text "colour")) rdfs_range (at (text "Colours"))
    ∷ [])

-- ids count on from 1000
abbrev env : Environment
env = record {
  actor = actor;
  new_id = λ db.
      1000
      + length db.schemes
      + length db.concepts
      + length db.classes
      + length db.restrictions
      + length db.properties;
  lower = λ t. t;
  is_netloc = is_netloc;
  parse_rdf = λ content fmt.
      some (record { graph = file; namespaces = (text "i", text "http://example.org/i/") ∷ [] });
}

abbrev session : Session
session = record { tables = properties_db; committed = properties_db }

abbrev totals : Result ImportError ImportResultResponse → List ℕ
totals (ok r) =
    r.total_concepts_created
    ∷ r.total_relationships_created
    ∷ length r.schemes_created
    ∷ length r.classes_created
    ∷ length r.properties_created
    ∷ []
totals (raise e) = []

file_is_imported : totals (execute env 9 [] (text "file.ttl") session).0 ≡ 2 ∷ 1 ∷ 1 ∷ 1 ∷ 1 ∷ []
unfolding execute detect_superclass_cycles
file_is_imported = refl

execute-Foretells_example :
    Foretells
      (preview env 9 [] (text "file.ttl") session)
      (execute env 9 [] (text "file.ttl") session)
      session
unfolding is_distinct_file
execute-Foretells_example = execute-Foretells env 9 [] (text "file.ttl") session refl

abbrev scheme_called : ℕ → Text → ConceptScheme
scheme_called id title = record {
  id = id;
  project_id = 2;
  title = title;
  description = none;
  uri = none;
  created_at = 0;
  updated_at = 0;
}

abbrev two_titles : List ConceptScheme
two_titles = scheme_called 1 (text "Colours") ∷ scheme_called 2 (text "Colours (2)") ∷ []

third_title : get_unique_title two_titles 2 (text "Colours") ≡ some (text "Colours (3)")
unfolding get_unique_title decimal
third_title = refl

get_unique_title_lem_example :
    (title : Text) × (get_unique_title two_titles 2 (text "Colours") ≡ some title)
    × (is_taken two_titles 2 title ≡ false)
    × (is_taken two_titles 2 (text "Colours") ≡ false → title ≡ text "Colours")
get_unique_title_lem_example = get_unique_title_lem 2 (text "Colours") two_titles

abbrev thing_below : ClassMetadata
thing_below = record {
  identifier = text "Thing";
  label = text "Thing";
  description = none;
  scope_note = none;
  uri = text "http://example.org/i/Thing";
  superclass_uris = text "http://example.org/v/Study" ∷ text "http://example.org/v/Study" ∷ [];
}

-- a superclass that is named twice is stored once
import_classes-are_keys_example :
    are_keys
      (import_classes env 9
        (thing_below ∷ [])
        []
        []
        ((text "http://example.org/v/Study", 30) ∷ [])
        session).1.superclasses
    ≡ true
import_classes-are_keys_example =
    import_classes-are_keys env 9 (thing_below ∷ []) [] []
      ((text "http://example.org/v/Study", 30) ∷ []) session refl
