-- ===== src/Imports/Preview.antt =====
-- `preview`: what an import would create, without creating it.
use taxonomy_builder.Common.{
  ℕ, ◌+◌, Bool, true, false, not, ◌&&◌, ◌||◌, Option, none, some, List, [], ◌∷◌, ◌++◌, Text, text,
  text_eq, contains_text, is_empty, if◌then◌else◌, filter, map, length, pure, ◌>>=◌,
}
use taxonomy_builder.Common.Dict.{lookup, put}
use taxonomy_builder.Rdf.Analysis.{Analysis, analyze_graph, set_or_empty}
use taxonomy_builder.Rdf.Classes.{ClassMetadata}
use taxonomy_builder.Rdf.Concepts.{
  get_scheme_title, get_scheme_description, get_concept_pref_label, count_broader_relationships,
}
use taxonomy_builder.Rdf.Graph.{Graph}
use taxonomy_builder.Rdf.Issues.{ValidationIssue, GraphResult, has_errors}
use taxonomy_builder.Rdf.PropertyData.{PropertyMetadata, Range, resolve_object_range}
use taxonomy_builder.Rdf.Uris.{detect_format}
use taxonomy_builder.Rdf.Validation.{validate_graph}
use taxonomy_builder.Imports.{
  Service, Environment, ExistingProjectData, load_existing_project_data, validation_to_responses,
  known_with,
}
use taxonomy_builder.Imports.Execute.{all_class_uris, detect, parse, analyze, validate}

pub record SchemePreviewResponse : Type 0 where
  pub title : Text
  pub description : Option Text
  pub uri : Option Text
  pub concepts_count : ℕ
  pub relationships_count : ℕ
  pub warnings : List Text

pub record ClassPreviewResponse : Type 0 where
  pub identifier : Text
  pub label : Text
  pub uri : Text

pub record PropertyPreviewResponse : Type 0 where
  pub identifier : Text
  pub label : Text
  pub property_type : Text
  pub domain_class_uris : List Text
  pub range_uri : Option Text
  pub range_scheme_title : Option Text

pub record ImportPreviewResponse : Type 0 where
  pub valid : Bool
  pub schemes : List SchemePreviewResponse
  pub total_concepts_count : ℕ
  pub total_relationships_count : ℕ
  pub classes : List ClassPreviewResponse
  pub properties : List PropertyPreviewResponse
  pub classes_count : ℕ
  pub properties_count : ℕ
  pub warnings : List Text
  pub errors : List Text
  pub validation_issues : List ValidationIssue

abbrev cons_warning : Option Text → List Text → List Text
cons_warning none warnings = warnings
cons_warning (some w) warnings = w ∷ warnings

-- the previews, the concepts and the broader relations
abbrev pub SchemePreviews : Type 0
SchemePreviews = List SchemePreviewResponse × ℕ × ℕ

module _ (g : Graph) where
  abbrev label_warnings : List Text → List Text
  label_warnings [] = []
  label_warnings (c ∷ concepts) =
      cons_warning (get_concept_pref_label g c).1 (label_warnings concepts)

  abbrev scheme_preview : Text → List Text → SchemePreviewResponse
  scheme_preview scheme_uri concepts = record {
    title = get_scheme_title g scheme_uri;
    description = get_scheme_description g scheme_uri;
    uri = some scheme_uri;
    concepts_count = length concepts;
    relationships_count = count_broader_relationships g concepts;
    warnings = label_warnings concepts;
  }

  abbrev cons_preview : SchemePreviewResponse → SchemePreviews → SchemePreviews
  cons_preview p (previews, concepts, relationships) =
      (p ∷ previews, p.concepts_count + concepts, p.relationships_count + relationships)

  unfoldable pub preview_schemes : List (Text × List Text) → List Text → List Text → SchemePreviews
  unfolding get_scheme_title get_scheme_description count_broader_relationships
      get_concept_pref_label
  preview_schemes concepts_by_scheme existing_uris [] = ([], 0, 0)
  preview_schemes concepts_by_scheme existing_uris (scheme_uri ∷ schemes) =
      let rest = preview_schemes concepts_by_scheme existing_uris schemes in
      if contains_text existing_uris scheme_uri
      then rest
      else cons_preview
          (scheme_preview scheme_uri (set_or_empty (lookup scheme_uri concepts_by_scheme))) rest

abbrev class_preview : ClassMetadata → ClassPreviewResponse
class_preview cm = record { identifier = cm.identifier; label = cm.label; uri = cm.uri }

unfoldable pub preview_classes :
    List ClassMetadata → List Text → List Text → List ClassPreviewResponse
preview_classes metadata existing_uris existing_identifiers = map class_preview (
    filter
      (λ cm.
        not (contains_text existing_uris cm.uri)
        && not (contains_text existing_identifiers cm.identifier))
      metadata)

abbrev pub PropertyPreviews : Type 0
PropertyPreviews = List PropertyPreviewResponse × List Text

abbrev preview_warning : Text → Text → Text → List Text
preview_warning identifier range_uri what =
    (text "Property '" ++ identifier ++ text "' range '" ++ range_uri ++ what) ∷ []

module _ (g : Graph) (scheme_uris : List Text) (scheme_uri_to_title : List (Text × Text))
    (class_uris : List Text) where
  -- the title of the scheme, and a warning
  abbrev previewed_range : PropertyMetadata → Text → Option Range → Option Text × List Text
  previewed_range pm range_uri (some (Range.scheme s)) = (lookup s scheme_uri_to_title, [])
  previewed_range pm range_uri (some (Range.class u)) = (none, [])
  previewed_range pm range_uri (some (Range.ambiguous u)) = (
    none,
    preview_warning pm.identifier range_uri (text "' matches multiple schemes — could not resolve"),
  )
  previewed_range pm range_uri none =
      (none, preview_warning pm.identifier range_uri (text "' not found in project"))

  abbrev preview_range : PropertyMetadata → Option Text → Option Text × List Text
  preview_range pm none = (none, [])
  preview_range pm (some u) =
      if not (is_empty u) && text_eq pm.property_type (text "object")
      then previewed_range pm u (resolve_object_range g u scheme_uris class_uris)
      else (none, [])

  abbrev pub property_preview : PropertyMetadata → PropertyPreviewResponse
  property_preview pm = record {
    identifier = pm.identifier;
    label = pm.label;
    property_type = pm.property_type;
    domain_class_uris = pm.domain_uris;
    range_uri = pm.range_uri;
    range_scheme_title = (preview_range pm pm.range_uri).0;
  }

  abbrev pub cons_property :
      PropertyMetadata → (domain_uris : List Text) → PropertyPreviews → PropertyPreviews
  cons_property pm [] (previews, warnings) = (
    previews,
    (text "Property '" ++ pm.identifier ++ text "' skipped: no rdfs:domain declared") ∷ warnings,
  )
  cons_property pm (u ∷ uris) (previews, warnings) =
      (property_preview pm ∷ previews, (preview_range pm pm.range_uri).1 ++ warnings)

  unfoldable pub preview_properties :
      List Text → List Text → List PropertyMetadata → PropertyPreviews
  unfolding resolve_object_range
  preview_properties known_ids known_uris [] = ([], [])
  preview_properties known_ids known_uris (pm ∷ metadata) =
      let added =
        preview_properties (known_with pm.domain_uris pm.identifier known_ids)
          (known_with pm.domain_uris pm.uri known_uris) metadata in
      if contains_text known_uris pm.uri || contains_text known_ids pm.identifier
      then preview_properties known_ids known_uris metadata
      else cons_property pm pm.domain_uris added

abbrev pub refused : GraphResult → ImportPreviewResponse
refused validation = record {
  valid = false;
  schemes = [];
  total_concepts_count = 0;
  total_relationships_count = 0;
  classes = [];
  properties = [];
  classes_count = 0;
  properties_count = 0;
  warnings = [];
  errors = [];
  validation_issues = validation_to_responses validation;
}

abbrev pub titles_of : Graph → List (Text × Text) → List Text → List (Text × Text)
titles_of g m [] = m
titles_of g m (u ∷ schemes) = titles_of g (put u (get_scheme_title g u) m) schemes

unfoldable pub preview_all :
    Graph → Analysis → ExistingProjectData → GraphResult → ImportPreviewResponse
unfolding preview_schemes preview_classes preview_properties get_scheme_title
preview_all g analysis existing validation =
    let schemes =
      preview_schemes g analysis.concepts_by_scheme existing.scheme_uris analysis.schemes in
    let classes = preview_classes analysis.classes existing.class_uris existing.class_identifiers in
    let properties =
      preview_properties g (existing.scheme_uris ++ analysis.schemes)
        (titles_of g existing.scheme_uri_to_title analysis.schemes)
        (existing.class_uris ++ map (λ c. c.uri) classes) existing.property_identifiers
        existing.property_uris analysis.properties in
    record {
      valid = true;
      schemes = schemes.0;
      total_concepts_count = schemes.1;
      total_relationships_count = schemes.2;
      classes = classes;
      properties = properties.0;
      classes_count = length classes;
      properties_count = length properties.0;
      warnings = analysis.warnings ++ properties.1;
      errors = [];
      validation_issues = validation_to_responses validation;
    }

module _ (env : Environment) (project_id : ℕ) where
  abbrev pub previewed :
      Graph → Analysis → ExistingProjectData → GraphResult → ImportPreviewResponse
  previewed g analysis existing validation =
      if has_errors validation
      then refused validation
      else preview_all g analysis existing validation

  unfoldable pub preview : Text → Text → Service ImportPreviewResponse
  unfolding detect_format analyze_graph load_existing_project_data validate_graph preview_all
  preview content filename s =
      (do
        fmt ← detect env filename
        file ← parse env content fmt
        analysis ← analyze file.graph
        let existing = load_existing_project_data project_id s.tables in
            (do
              validation ← validate env file.graph (all_class_uris existing analysis)
              pure (previewed file.graph analysis existing validation)))
        s
