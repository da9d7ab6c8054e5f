-- ===== src/Rdf/Unions.antt =====
-- `_resolve_union_all`: the URIs of an RDF collection.
pub mod Collection
use taxonomy_builder.Common.{
  ℕ, zero, suc, ◌+◌, Bool, true, false, not, ◌&&◌, ◌||◌, Option, none, some, List, [], ◌∷◌, ◌++◌,
  Text, text, text_eq, contains_text, length, if◌then◌else◌,
}
use taxonomy_builder.Rdf.Graph.{
  Node, uri, blank, literal, Graph, owl_union_of, rdf_first, rdf_rest, rdf_nil,
}

abbrev pub same_flag : Bool → Bool → Bool
same_flag true b = b
same_flag false b = not b

abbrev pub node_eq : Node → Node → Bool
node_eq (uri u) (uri v) = text_eq u v
node_eq (blank u) (blank v) = text_eq u v
node_eq (literal s a b) (literal t c d) = text_eq s t && same_flag a c && same_flag b d
node_eq _ _ = false

abbrev pub has_node : List Node → Node → Bool
has_node [] n = false
has_node (m ∷ nodes) n = node_eq m n || has_node nodes n

-- `first`, appended if it is a URI that was not seen
abbrev pub with_first : List Text → Option Node → List Text
with_first uris (some (uri u)) = if contains_text uris u then uris else uris ++ u ∷ []
with_first uris _ = uris

module _ (g : Graph) where
  -- The loop, where `none` means that the fuel ran out. `seen_uris` holds what `uris` holds.
  pub union_loop : ℕ → List Node → List Text → Option Node → Option (List Text)
  union_loop zero seen uris at = none
  union_loop (suc fuel) seen uris none = some uris
  union_loop (suc fuel) seen uris (some n) =
      let rest =
        union_loop fuel (n ∷ seen) (with_first uris (g.value n rdf_first)) (g.value n rdf_rest) in
      if node_eq n (uri rdf_nil) || has_node seen n then some uris else rest

  abbrev union_from : Option Node → Option (List Text)
  union_from none = some []
  union_from (some n) = union_loop (suc (suc (length g.triples))) [] [] (some n)

  unfoldable pub resolve_union_all : Node → Option (List Text)
  unfolding union_loop
  resolve_union_all bnode = union_from (g.value bnode owl_union_of)
