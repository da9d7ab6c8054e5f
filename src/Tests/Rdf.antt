-- ===== src/Tests/Rdf.antt =====
-- The theorems about RDF files at small graphs.
use taxonomy_builder.Common.{
  false, raise, text_eq, ◌≡◌, refl, Bool, true, ◌&&◌, Option, none, some, List, [], ◌∷◌, Text, text,
  text_eq, any, if◌then◌else◌, arith,
}
use taxonomy_builder.Rdf.Graph.{
  Node, uri, blank, Statement, Graph, rdf_type, rdf_first, rdf_rest, rdf_nil, rdfs_sub_class_of,
  owl_class, owl_union_of,
}
use taxonomy_builder.Rdf.Classes.{ClassMetadata}
use taxonomy_builder.Rdf.Cycles.{by_uri, detect_superclass_cycles}
use taxonomy_builder.Rdf.Cycles.Decides.{Reports, detect_superclass_cycles_lem}
use taxonomy_builder.Rdf.Unions.{node_eq, resolve_union_all}
use taxonomy_builder.Rdf.Unions.Collection.{IsFinite, resolve_union_all-Encodes}
use taxonomy_builder.Rdf.Uris.{is_parsed}
use taxonomy_builder.Rdf.Validation.{value_error, validate_graph}
use taxonomy_builder.Rdf.Validation.Refusal.{Refuses, validate_graph-Refuses}

abbrev subjects_in : List Statement → Text → Node → List Node
subjects_in [] p o = []
subjects_in (t ∷ ts) p o =
    if text_eq t.predicate p && node_eq t.object o
    then t.subject ∷ subjects_in ts p o
    else subjects_in ts p o

abbrev objects_in : List Statement → Node → Text → List Node
objects_in [] s p = []
objects_in (t ∷ ts) s p =
    if text_eq t.predicate p && node_eq t.subject s
    then t.object ∷ objects_in ts s p
    else objects_in ts s p

abbrev value_in : List Statement → Node → Text → Option Node
value_in [] s p = none
value_in (t ∷ ts) s p =
    if text_eq t.predicate p && node_eq t.subject s then some t.object else value_in ts s p

abbrev about : List Statement → Node → List (Text × Node)
about [] s = []
about (t ∷ ts) s = if node_eq t.subject s then (t.predicate, t.object) ∷ about ts s else about ts s

abbrev matches : Option Node → Node → Bool
matches none n = true
matches (some m) n = node_eq m n

-- a graph that answers from its triples
abbrev pub graph_of : List Statement → Graph
graph_of ts = record {
  triples = ts;
  subjects = subjects_in ts;
  objects = objects_in ts;
  value = value_in ts;
  predicate_objects = about ts;
  contains =
      λ s p o. any (λ t. node_eq t.subject s && text_eq t.predicate p && matches o t.object) ts;
  transitive_subjects = λ p o. o ∷ subjects_in ts p o;
}

value_in-subject :
    (ts : List Statement) (n m : Node) (p : Text)
    → value_in ts n p ≡ some m
    → any (λ t. node_eq t.subject n) ts ≡ true
value_in-subject [] n m p h = cc
value_in-subject (t ∷ ts) n m p h = ground (arith, value_in-subject ts n m p)

graph_of-IsFinite : (ts : List Statement) → IsFinite (graph_of ts)
graph_of-IsFinite ts = record { listed = λ n m. value_in-subject ts n m rdf_rest }

abbrev pub says : Node → Text → Node → Statement
says s p o = record { subject = s; predicate = p; object = o }

abbrev study : Text
study = text "http://example.org/v/Study"

abbrev arm : Text
arm = text "http://example.org/v/Arm"

abbrev union : Graph
union = graph_of (
    says (blank (text "b0")) owl_union_of (blank (text "b1"))
    ∷ says (blank (text "b1")) rdf_first (uri study)
    ∷ says (blank (text "b1")) rdf_rest (blank (text "b2"))
    ∷ says (blank (text "b2")) rdf_first (uri arm)
    ∷ says (blank (text "b2")) rdf_rest (uri rdf_nil)
    ∷ [])

resolve_union_all-Encodes_example :
    resolve_union_all union (blank (text "b0")) ≡ some (study ∷ arm ∷ [])
resolve_union_all-Encodes_example =
    resolve_union_all-Encodes union (graph_of-IsFinite union.triples) (blank (text "b0"))
      (blank (text "b1")) (study ∷ arm ∷ []) refl
      (refl, refl, (blank (text "b2"), refl, (refl, refl, (uri rdf_nil, refl, refl))))

-- a collection that goes round
round_ends :
    resolve_union_all
      (graph_of (
        says (blank (text "b0")) owl_union_of (blank (text "b1"))
        ∷ says (blank (text "b1")) rdf_first (uri study)
        ∷ says (blank (text "b1")) rdf_rest (blank (text "b1"))
        ∷ []))
      (blank (text "b0"))
    ≡ some (study ∷ [])
unfolding resolve_union_all
round_ends = refl

abbrev circular : Graph
circular = graph_of (
    says (uri study) rdf_type (uri owl_class)
    ∷ says (uri arm) rdf_type (uri owl_class)
    ∷ says (uri study) rdfs_sub_class_of (uri arm)
    ∷ says (uri arm) rdfs_sub_class_of (uri study)
    ∷ [])

-- one address in brackets, and no name outside of ASCII
abbrev pub is_netloc : Text → Bool
is_netloc t = text_eq t (text "[::1]")

one_bracket : is_parsed (λ t. true) (text "http://[x/y") ≡ false
unfolding is_parsed
one_bracket = refl

no_address : is_parsed is_netloc (text "http://[1.2]/y") ≡ false
unfolding is_parsed
no_address = refl

bracketed : is_parsed is_netloc (text "http://[::1]/y") ≡ true
unfolding is_parsed
bracketed = refl

brackets_behind : is_parsed is_netloc (text "http://a.org/[x") ≡ true
unfolding is_parsed
brackets_behind = refl

-- a bracket in one URI, and the whole file is not validated
not_validated :
    validate_graph
      (graph_of (says (uri (text "http://[x")) rdf_type (uri owl_class) ∷ []))
      is_netloc
      []
    ≡ raise value_error
unfolding validate_graph
not_validated = refl

validate_graph-Refuses_example : Refuses circular is_netloc (validate_graph circular is_netloc [])
validate_graph-Refuses_example =
    validate_graph-Refuses circular is_netloc [] (says (uri study) rdf_type (uri owl_class))
      (says (uri arm) rdf_type (uri owl_class)
        ∷ says (uri study) rdfs_sub_class_of (uri arm)
        ∷ says (uri arm) rdfs_sub_class_of (uri study)
        ∷ [])
      (graph_of-IsFinite circular.triples) refl

abbrev class_with : Text → List Text → ClassMetadata
class_with u supers = record {
  identifier = u;
  label = u;
  description = none;
  scope_note = none;
  uri = u;
  superclass_uris = supers;
}

abbrev two_classes : List ClassMetadata
two_classes = class_with study (arm ∷ []) ∷ class_with arm (study ∷ []) ∷ []

cycle_found : detect_superclass_cycles two_classes ≡ some ((arm, study) ∷ [])
unfolding detect_superclass_cycles
cycle_found = refl

detect_superclass_cycles_lem_example :
    Reports (by_uri two_classes) (detect_superclass_cycles two_classes)
detect_superclass_cycles_lem_example = detect_superclass_cycles_lem two_classes
