-- ===== src/Rdf/Graph.antt =====
-- What rdf_parser.py asks of rdflib: the nodes, and a graph by the answers that it gives. A node is
-- a URI, a blank node, or a literal with its text, its truth value and whether `toPython()` is True (`holds`).
use taxonomy_builder.Common.{
  Bool, true, false, not, Option, none, some, List, [], ◌∷◌, Text, text, is_empty,
}

pub data Node : Type 0 where
  uri : Text → Node
  blank : Text → Node
  literal : Text → (truth holds : Bool) → Node

pub record Statement : Type 0 where
  pub subject : Node
  pub predicate : Text
  pub object : Node

-- the methods of `rdflib.Graph` that are called, with predicates as strings
pub record Graph : Type 0 where
  pub triples : List Statement
  pub subjects : Text → Node → List Node
  pub objects : Node → Text → List Node
  pub value : Node → Text → Option Node
  pub predicate_objects : Node → List (Text × Node)
  pub contains : Node → Text → Option Node → Bool
  pub transitive_subjects : Text → Node → List Node

-- `str(node)`
abbrev pub str : Node → Text
str (uri u) = u
str (blank b) = b
str (literal t truth holds) = t

-- `if node`
abbrev pub truthy : Node → Bool
truthy (uri u) = not (is_empty u)
truthy (blank b) = not (is_empty b)
truthy (literal t truth holds) = truth

-- `isinstance(node, URIRef)`, with the URI
abbrev pub uri_of : Node → Option Text
uri_of (uri u) = some u
uri_of (blank b) = none
uri_of (literal t truth holds) = none

abbrev pub text_if : Bool → Text → Option Text
text_if true t = some t
text_if false t = none

-- `if value`, for a value that may be None
abbrev pub present : Option Node → Option Text
present none = none
present (some n) = text_if (truthy n) (str n)

-- `scheme and isinstance(scheme, URIRef)`
abbrev pub present_uri : Option Node → Option Text
present_uri none = none
present_uri (some (uri u)) = text_if (not (is_empty u)) u
present_uri (some (blank b)) = none
present_uri (some (literal t truth holds)) = none

-- the URIs among the nodes, in their order
abbrev pub uris_of : List Node → List Text
uris_of [] = []
uris_of (uri u ∷ nodes) = u ∷ uris_of nodes
uris_of (blank b ∷ nodes) = uris_of nodes
uris_of (literal t truth holds ∷ nodes) = uris_of nodes

abbrev pub rdf_type : Text
rdf_type = text "http://www.w3.org/1999/02/22-rdf-syntax-ns#type"

abbrev pub rdf_property : Text
rdf_property = text "http://www.w3.org/1999/02/22-rdf-syntax-ns#Property"

abbrev pub rdf_first : Text
rdf_first = text "http://www.w3.org/1999/02/22-rdf-syntax-ns#first"

abbrev pub rdf_rest : Text
rdf_rest = text "http://www.w3.org/1999/02/22-rdf-syntax-ns#rest"

abbrev pub rdf_nil : Text
rdf_nil = text "http://www.w3.org/1999/02/22-rdf-syntax-ns#nil"

abbrev pub rdfs_label : Text
rdfs_label = text "http://www.w3.org/2000/01/rdf-schema#label"

abbrev pub rdfs_comment : Text
rdfs_comment = text "http://www.w3.org/2000/01/rdf-schema#comment"

abbrev pub rdfs_domain : Text
rdfs_domain = text "http://www.w3.org/2000/01/rdf-schema#domain"

abbrev pub rdfs_range : Text
rdfs_range = text "http://www.w3.org/2000/01/rdf-schema#range"

abbrev pub rdfs_sub_class_of : Text
rdfs_sub_class_of = text "http://www.w3.org/2000/01/rdf-schema#subClassOf"

abbrev pub owl_class : Text
owl_class = text "http://www.w3.org/2002/07/owl#Class"

abbrev pub owl_union_of : Text
owl_union_of = text "http://www.w3.org/2002/07/owl#unionOf"

abbrev pub owl_restriction : Text
owl_restriction = text "http://www.w3.org/2002/07/owl#Restriction"

abbrev pub owl_on_property : Text
owl_on_property = text "http://www.w3.org/2002/07/owl#onProperty"

abbrev pub owl_all_values_from : Text
owl_all_values_from = text "http://www.w3.org/2002/07/owl#allValuesFrom"

abbrev pub owl_some_values_from : Text
owl_some_values_from = text "http://www.w3.org/2002/07/owl#someValuesFrom"

abbrev pub owl_has_value : Text
owl_has_value = text "http://www.w3.org/2002/07/owl#hasValue"

abbrev pub owl_object_property : Text
owl_object_property = text "http://www.w3.org/2002/07/owl#ObjectProperty"

abbrev pub owl_datatype_property : Text
owl_datatype_property = text "http://www.w3.org/2002/07/owl#DatatypeProperty"

abbrev pub owl_named_individual : Text
owl_named_individual = text "http://www.w3.org/2002/07/owl#NamedIndividual"

abbrev pub skos_concept : Text
skos_concept = text "http://www.w3.org/2004/02/skos/core#Concept"

abbrev pub skos_concept_scheme : Text
skos_concept_scheme = text "http://www.w3.org/2004/02/skos/core#ConceptScheme"

abbrev pub skos_pref_label : Text
skos_pref_label = text "http://www.w3.org/2004/02/skos/core#prefLabel"

abbrev pub skos_scope_note : Text
skos_scope_note = text "http://www.w3.org/2004/02/skos/core#scopeNote"

abbrev pub skos_in_scheme : Text
skos_in_scheme = text "http://www.w3.org/2004/02/skos/core#inScheme"

abbrev pub skos_top_concept_of : Text
skos_top_concept_of = text "http://www.w3.org/2004/02/skos/core#topConceptOf"

abbrev pub skos_broader : Text
skos_broader = text "http://www.w3.org/2004/02/skos/core#broader"

abbrev pub dcterms_title : Text
dcterms_title = text "http://purl.org/dc/terms/title"

abbrev pub dcterms_description : Text
dcterms_description = text "http://purl.org/dc/terms/description"

abbrev pub xsd_ns : Text
xsd_ns = text "http://www.w3.org/2001/XMLSchema#"
