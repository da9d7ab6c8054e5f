-- ===== src/Concepts/Tree.antt =====
-- `ConceptService.get_tree`: the roots of a scheme, each with the concepts below it. A node is built
-- by recursion on fuel, and `none` is a recursion that does not end within it.
pub mod Built
pub mod Forests
pub mod Complete
pub mod Ends
use taxonomy_builder.Common.{
  ℕ, zero, suc, Bool, not, ◌&&◌, Option, none, some, List, [], ◌∷◌, ◌++◌, Text, text_before, length,
  find, filter, any, ◌==◌, if◌then◌else◌, pure, ◌>>=◌,
}
use taxonomy_builder.Common.Sort.{order_by}
use taxonomy_builder.Concepts.{Service, get_scheme}
use taxonomy_builder.Models.Session.{Db, Session}
use taxonomy_builder.Models.Vocabulary.{Concept, ConceptScheme, ConceptBroader}
use taxonomy_builder.Snapshots.Build.{concept_uri}

-- the fields of the dictionary, "narrower" aside
pub record TreeEntry : Type 0 where
  pub id : ℕ
  pub scheme_id : ℕ
  pub identifier : Text
  pub pref_label : Text
  pub definition : Option Text
  pub scope_note : Option Text
  pub uri : Text
  pub alt_labels : List Text
  pub created_at : ℕ
  pub updated_at : ℕ

mutual
  pub data TreeNode : Type 0 where
    node : TreeEntry → Forest → TreeNode

  pub data Forest : Type 0 where
    nil : Forest
    cons : TreeNode → Forest → Forest

-- by label
abbrev pub by_label : List Concept → List Concept
by_label concepts = order_by (λ c d. text_before c.pref_label d.pref_label) concepts

abbrev pub in_map : List Concept → ℕ → Bool
in_map concepts id = any (λ c. c.id == id) concepts

abbrev pub with_found : Option Concept → List Concept → List Concept
with_found none rest = rest
with_found (some c) rest = c ∷ rest

-- `children_map[parent]`
abbrev pub children_of : List Concept → List ConceptBroader → ℕ → List Concept
children_of concepts [] parent = []
children_of concepts (rel ∷ rels) parent =
    let rest = children_of concepts rels parent in
    if rel.broader_concept_id == parent
    then with_found (find (λ c. c.id == rel.concept_id) concepts) rest
    else rest

-- `concept_id in has_parent`
abbrev pub has_parent : List Concept → List ConceptBroader → ℕ → Bool
has_parent concepts rels id =
    any (λ rel. rel.concept_id == id && in_map concepts rel.broader_concept_id) rels

abbrev pub cons_node : Option TreeNode → Option Forest → Option Forest
cons_node (some t) (some ts) = some (cons t ts)
cons_node _ _ = none

-- `[build(c) for c in concepts]`
abbrev pub build_all : (Concept → Option TreeNode) → List Concept → Option Forest
build_all build [] = some nil
build_all build (c ∷ concepts) = cons_node (build c) (build_all build concepts)

abbrev pub entry_of : ConceptScheme → Concept → TreeEntry
entry_of scheme c = record {
  id = c.id;
  scheme_id = c.scheme_id;
  identifier = c.identifier;
  pref_label = c.pref_label;
  definition = c.definition;
  scope_note = c.scope_note;
  uri = concept_uri scheme c;
  alt_labels = c.alt_labels;
  created_at = c.created_at;
  updated_at = c.updated_at;
}

abbrev pub with_narrower : TreeEntry → Option Forest → Option TreeNode
with_narrower e none = none
with_narrower e (some ts) = some (node e ts)

module _ (scheme : ConceptScheme) (concepts : List Concept) (rels : List ConceptBroader) where
  pub build_tree_node : ℕ → Concept → Option TreeNode
  build_tree_node zero c = none
  build_tree_node (suc fuel) c =
      with_narrower (entry_of scheme c)
        (build_all (build_tree_node fuel) (by_label (children_of concepts rels c.id)))

  abbrev pub roots : List Concept
  roots = filter (λ c. not (has_parent concepts rels c.id)) concepts

  -- no node is deeper than there are concepts
  abbrev pub build_tree : Option Forest
  unfolding build_tree_node
  build_tree = build_all (build_tree_node (length concepts)) roots

-- `select(Concept).where(scheme_id == ...).order_by(pref_label)`
abbrev pub concepts_in : Db → ℕ → List Concept
concepts_in db scheme_id = by_label (filter (λ c. c.scheme_id == scheme_id) db.concepts)

unfoldable pub get_tree : ℕ → Service (Option Forest)
unfolding get_scheme build_tree_node
get_tree scheme_id s =
    (do
      scheme ← get_scheme scheme_id
      pure (build_tree scheme (concepts_in s.tables scheme_id) s.broader))
      s
