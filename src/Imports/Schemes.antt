-- ===== src/Imports/Schemes.antt =====
-- `_import_schemes`, `_import_concepts` and `_get_unique_title`.
use taxonomy_builder.Common.{
  ℕ, zero, suc, ◌+◌, Bool, ◌&&◌, Option, none, some, List, [], ◌∷◌, ◌++◌, Text, text, text_eq,
  contains_text, ◌==◌, if◌then◌else◌, any, length, pure, throw, raise_if, ◌>>=◌, ◌>>◌,
}
use taxonomy_builder.Common.Decimal.{decimal}
use taxonomy_builder.Common.Dict.{lookup, put, keys}
use taxonomy_builder.Models.Vocabulary.{ConceptScheme, Concept, ConceptBroader}
use taxonomy_builder.Models.Session.{Session}
use taxonomy_builder.Tracker.{event, record_change, serialize_scheme, serialize_concept}
use taxonomy_builder.Rdf.Graph.{
  Node, uri, blank, literal, Graph, present, uris_of, skos_scope_note, skos_broader,
}
use taxonomy_builder.Rdf.Concepts.{
  get_scheme_title, get_scheme_description, get_concept_pref_label, extract_concept_type_uris,
}
use taxonomy_builder.Rdf.Uris.{get_identifier_from_uri}
use taxonomy_builder.Rdf.Analysis.{set_or_empty}
use taxonomy_builder.Imports.{
  Service, Environment, SchemeCreatedResponse, integrity_error, diverges, for_each, collect,
  check_project,
}

-- a scheme of the project with the title
abbrev pub is_taken : List ConceptScheme → ℕ → Text → Bool
is_taken schemes project_id title =
    any (λ x. x.project_id == project_id && text_eq x.title title) schemes

-- `f"{base_title} ({counter})"`
abbrev pub numbered : Text → ℕ → Text
numbered base_title counter = base_title ++ text " (" ++ decimal counter ++ text ")"

-- `while True`, from a counter
unfoldable pub next_title : ℕ → List ConceptScheme → ℕ → Text → ℕ → Option Text
next_title zero schemes project_id base_title counter = none
next_title (suc fuel) schemes project_id base_title counter =
    let rest = next_title fuel schemes project_id base_title (counter + 1) in
    if is_taken schemes project_id (numbered base_title counter)
    then rest
    else some (numbered base_title counter)

-- one more try than there are schemes
unfoldable pub get_unique_title : List ConceptScheme → ℕ → Text → Option Text
unfolding next_title
get_unique_title schemes project_id base_title =
    if is_taken schemes project_id base_title
    then next_title (suc (length schemes)) schemes project_id base_title 2
    else some base_title

abbrev pub skos_definition : Text
skos_definition = text "http://www.w3.org/2004/02/skos/core#definition"

abbrev pub skos_alt_label : Text
skos_alt_label = text "http://www.w3.org/2004/02/skos/core#altLabel"

-- the literals among the nodes
abbrev literals_of : List Node → List Text
literals_of [] = []
literals_of (literal t truth holds ∷ nodes) = t ∷ literals_of nodes
literals_of (uri u ∷ nodes) = literals_of nodes
literals_of (blank b ∷ nodes) = literals_of nodes

-- `uq_concept_scheme_identifier`
abbrev same_place : Concept → Concept → Bool
same_place row x = x.scheme_id == row.scheme_id && text_eq x.identifier row.identifier

abbrev pub insert_concept : Concept → Service (Unit {0})
insert_concept row s =
    (do
      raise_if (any (same_place row) s.concepts) integrity_error
      λ s. pure tt (record s { tables = record s.tables { concepts = s.concepts ++ row ∷ [] } }))
      s

abbrev same_broader : ConceptBroader → ConceptBroader → Bool
same_broader row x =
    x.concept_id == row.concept_id && x.broader_concept_id == row.broader_concept_id

-- the pair is the table's key
abbrev pub insert_broader : ConceptBroader → Service (Unit {0})
insert_broader row s =
    (do
      raise_if (any (same_broader row) s.broader) integrity_error
      λ s. pure tt (record s { tables = record s.tables { broader = s.broader ++ row ∷ [] } }))
      s

-- `uq_scheme_title_per_project`
abbrev pub insert_scheme : ConceptScheme → Service (Unit {0})
insert_scheme row s =
    (do
      check_project row.project_id
      raise_if (is_taken s.schemes row.project_id row.title) integrity_error
      λ s. pure tt (record s { tables = record s.tables { schemes = s.schemes ++ row ∷ [] } }))
      s

abbrev cons_broader : Concept → Option Concept → List ConceptBroader → List ConceptBroader
cons_broader concept none rest = rest
cons_broader concept (some broader_concept) rest =
    record { concept_id = concept.id; broader_concept_id = broader_concept.id } ∷ rest

module _ (g : Graph) where
  -- the broader rows of a concept of the file
  abbrev pub broader_to : List (Text × Concept) → Concept → List Text → List ConceptBroader
  broader_to uri_to_concept concept [] = []
  broader_to uri_to_concept concept (u ∷ broader_uris) =
      cons_broader concept (lookup u uri_to_concept)
        (broader_to uri_to_concept concept broader_uris)

  abbrev pub broader_among : List (Text × Concept) → List (Text × Concept) → List ConceptBroader
  broader_among uri_to_concept [] = []
  broader_among uri_to_concept ((u, concept) ∷ concepts) =
      broader_to uri_to_concept concept (uris_of (g.objects (uri u) skos_broader))
      ++ broader_among uri_to_concept concepts

  unfoldable pub broader_rows : List (Text × Concept) → List ConceptBroader
  broader_rows uri_to_concept = broader_among uri_to_concept uri_to_concept

-- the schemes created, the ids of all schemes, the concepts and the broader rows
pub record Imported : Type 0 where
  pub created : List SchemeCreatedResponse
  pub scheme_uri_to_id : List (Text × ℕ)
  pub total_concepts : ℕ
  pub total_relationships : ℕ

module _ (env : Environment) (g : Graph) where
  abbrev pub concept_row : ℕ → Text → Session → Concept
  concept_row scheme_id concept_uri s = record {
    id = env.new_id s.tables;
    scheme_id = scheme_id;
    identifier = get_identifier_from_uri concept_uri;
    pref_label = (get_concept_pref_label g concept_uri).0;
    definition = present (g.value (uri concept_uri) skos_definition);
    scope_note = present (g.value (uri concept_uri) skos_scope_note);
    alt_labels = literals_of (g.objects (uri concept_uri) skos_alt_label);
    concept_type_uris = extract_concept_type_uris g concept_uri;
    created_at = env.actor.now;
    updated_at = env.actor.now;
  }

  unfoldable pub create_concept : ℕ → Text → Service (Text × Concept)
  unfolding get_identifier_from_uri get_concept_pref_label extract_concept_type_uris
  create_concept scheme_id concept_uri s =
      (do
        insert_concept (concept_row scheme_id concept_uri s)
        pure (concept_uri, concept_row scheme_id concept_uri s))
        s

  abbrev pub log_concept : ℕ → ℕ → Text × Concept → Service (Unit {0})
  log_concept project_id scheme_id (u, concept) = record_change (
      event env.actor project_id (text "concept") concept.id (text "create") none
        (some (serialize_concept concept)) (some scheme_id))

  -- the number of broader rows
  unfoldable pub import_concepts : ℕ → ℕ → List Text → Service ℕ
  unfolding create_concept broader_rows
  import_concepts project_id scheme_id concept_uris = do
    uri_to_concept ← collect (create_concept scheme_id) concept_uris
    for_each insert_broader (broader_rows g uri_to_concept)
    for_each (log_concept project_id scheme_id) uri_to_concept
    pure (length (broader_rows g uri_to_concept))

  abbrev pub scheme_row : ℕ → Text → Text → Session → ConceptScheme
  scheme_row project_id scheme_uri title s = record {
    id = env.new_id s.tables;
    project_id = project_id;
    title = title;
    description = get_scheme_description g scheme_uri;
    uri = some scheme_uri;
    created_at = env.actor.now;
    updated_at = env.actor.now;
  }

  abbrev pub log_scheme : ℕ → ConceptScheme → Service (Unit {0})
  log_scheme project_id scheme = record_change (
      event env.actor project_id (text "scheme") scheme.id (text "create") none
        (some (serialize_scheme scheme)) (some scheme.id))

  -- the scheme, and the number of broader rows
  abbrev pub store_scheme : ℕ → ConceptScheme → List Text → Service (ConceptScheme × ℕ)
  store_scheme project_id scheme concepts = do
    insert_scheme scheme
    log_scheme project_id scheme
    relationships ← import_concepts project_id scheme.id concepts
    pure (scheme, relationships)

  abbrev pub titled_scheme : ℕ → Text → List Text → Option Text → Service (ConceptScheme × ℕ)
  titled_scheme project_id scheme_uri concepts none s = throw diverges s
  titled_scheme project_id scheme_uri concepts (some title) s =
      store_scheme project_id (scheme_row project_id scheme_uri title s) concepts s

  unfoldable pub import_scheme : ℕ → Text → List Text → Service (ConceptScheme × ℕ)
  unfolding get_unique_title get_scheme_title get_scheme_description import_concepts
  import_scheme project_id scheme_uri concepts s =
      titled_scheme project_id scheme_uri concepts
        (get_unique_title s.schemes project_id (get_scheme_title g scheme_uri)) s

  abbrev pub after_scheme : Imported → Text → List Text → ConceptScheme × ℕ → Imported
  after_scheme i scheme_uri concepts (scheme, relationships) = record {
    created =
        i.created
        ++ record { id = scheme.id; title = scheme.title; concepts_created = length concepts } ∷ [];
    scheme_uri_to_id = put scheme_uri scheme.id i.scheme_uri_to_id;
    total_concepts = i.total_concepts + length concepts;
    total_relationships = i.total_relationships + relationships;
  }

  -- the schemes that the project does not have
  unfoldable pub import_schemes :
      ℕ → List (Text × List Text) → List Text → Imported → Service Imported
  unfolding import_scheme
  import_schemes project_id concepts_by_scheme [] i = pure i
  import_schemes project_id concepts_by_scheme (scheme_uri ∷ schemes) i =
      let concepts = set_or_empty (lookup scheme_uri concepts_by_scheme) in
      if contains_text (keys i.scheme_uri_to_id) scheme_uri
      then import_schemes project_id concepts_by_scheme schemes i
      else (do
        stored ← import_scheme project_id scheme_uri concepts
        import_schemes project_id concepts_by_scheme schemes
            (after_scheme i scheme_uri concepts stored))
