-- ===== src/Concepts/Tree/Complete.antt =====
-- The tree of an acyclic hierarchy shows every concept of the scheme.
use taxonomy_builder.Concepts.Tree.Forests.{
  shows, In, node_id, In-shows, In-node, built_In, not_in_map,
}
use taxonomy_builder.Common.{
  ℕ, zero, suc, ◌≤◌, ◌≡◌, refl, sym, ◌∙◌, ap, subst, inl, inr, true, false, not, ◌&&◌, Option, none,
  some, List, [], ◌∷◌, length, contains, ◌==◌, ==_iff, find, filter, Bool-cases, Option-cases,
  arith,
}
use mathlib.Core.Option.{some-injective}
use taxonomy_builder.Hierarchy.{children_ids, Edge, Below, child}
use taxonomy_builder.Hierarchy.Acyclic.{Acyclic, Below-trans}
use taxonomy_builder.Models.Vocabulary.{Concept, ConceptScheme, ConceptBroader}
use taxonomy_builder.Concepts.Tree.{
  TreeEntry, TreeNode, Forest, node, by_label, in_map, children_of, has_parent, entry_of,
  with_narrower, build_tree_node, build_tree, roots,
}
use taxonomy_builder.Concepts.Tree.Built.{
  rest_of, rest_of_le, rest_of_less, find-in_map, any-by_label,
}

-- a row of the table, as one of `children_map`
child_listed :
    (concepts : List Concept) (rels : List ConceptBroader) (parent k : ℕ)
    → Edge rels parent k
    → in_map concepts k ≡ true
    → in_map (children_of concepts rels parent) k ≡ true
unfolding children_ids
child_listed concepts [] parent k e h = absurd cc
child_listed concepts (rel ∷ rels) parent k e h =
    elim (Bool-cases (rel.broader_concept_id == parent)) [
      | inr b ↦ rw b (child_listed concepts rels parent k (ground arith) h)
      | inl b ↦ rw b (elim (Bool-cases (rel.concept_id == k)) [
        | inr other ↦
            let rest = child_listed concepts rels parent k (ground arith) h in
            elim (Option-cases (find (λ c. c.id == rel.concept_id) concepts)) [
              | inl f ↦ rw f rest
              | inr (c, f) ↦ rw f (ground (arith, rest))
            ]
        | inl same ↦ elim (Option-cases (find (λ c. c.id == rel.concept_id) concepts)) [
          | inl f ↦ absurd (
              ground (
                arith,
                subst (λ j. in_map concepts j ≡ false) ((==_iff rel.concept_id k).0 same)
                    (not_in_map rel.concept_id concepts f),
              ))
          | inr (c, f) ↦
              let found = (find-in_map rel.concept_id concepts c f).0 in
              rw f (ground (arith, (==_iff c.id k).1 (found ∙ (==_iff rel.concept_id k).0 same)))
        ]
      ])
    ]

-- a concept with a parent stands under one
parent_of :
    (concepts : List Concept) (rels : List ConceptBroader) (k : ℕ)
    → has_parent concepts rels k ≡ true
    → (p : ℕ) × Edge rels p k × (in_map concepts p ≡ true)
unfolding children_ids
parent_of concepts [] k h = absurd cc
parent_of concepts (rel ∷ rels) k h =
    elim (Bool-cases (rel.concept_id == k && in_map concepts rel.broader_concept_id)) [
      | inl e ↦ (
        rel.broader_concept_id,
        rw ((==_iff rel.broader_concept_id rel.broader_concept_id).1 refl) (ground arith),
        ground arith,
      )
      | inr e ↦
          let (p, edge, there) = parent_of concepts rels k (ground arith) in
          (p, ground (arith, edge), there)
    ]

narrower_some :
    (e : TreeEntry) (o : Option Forest) (t : TreeNode)
    → with_narrower e o ≡ some t
    → (us : Forest) × (o ≡ some us) × (node e us ≡ t)
narrower_some e none t h = absurd cc
narrower_some e (some us) t h = (us, refl, some-injective (node e us) t h)

module _ (scheme : ConceptScheme) (concepts : List Concept) (rels : List ConceptBroader)
    (ts : Forest) where
  -- a node that is built for the concept, somewhere in the tree
  record IsPlaced (k : ℕ) : Type 0 where
    concept : Concept
    fuel : ℕ
    tree : TreeNode
    same : concept.id ≡ k
    built : build_tree_node scheme concepts rels fuel concept ≡ some tree
    inside : In tree ts

  IsPlaced-shows : (k : ℕ) → IsPlaced k → shows k ts ≡ true
  unfolding build_tree_node node_id
  IsPlaced-shows k p = go p.concept p.fuel p.tree p.same p.built p.inside
    where
      go :
          (c : Concept) (fuel : ℕ) (t : TreeNode)
          → c.id ≡ k
          → build_tree_node scheme concepts rels fuel c ≡ some t
          → In t ts
          → shows k ts ≡ true
      go c zero t same built inside = absurd cc
      go c (suc fuel) t same built inside =
          let (us, e, is) = narrower_some (entry_of scheme c) _ t built in
          subst (λ j. shows j ts ≡ true) (ap node_id (sym is) ∙ same) (In-shows t ts inside)

  -- the concepts that stand under a concept in the tree
  IsPlaced-child : (p k : ℕ) → IsPlaced p → Edge rels p k → in_map concepts k ≡ true → IsPlaced k
  unfolding build_tree_node
  IsPlaced-child p k placed edge there =
      go placed.concept placed.fuel placed.tree placed.same placed.built placed.inside
    where
      go :
          (c : Concept) (fuel : ℕ) (t : TreeNode)
          → c.id ≡ p
          → build_tree_node scheme concepts rels fuel c ≡ some t
          → In t ts
          → IsPlaced k
      go c zero t same built inside = absurd cc
      go c (suc fuel) t same built inside =
          let (us, e, is) = narrower_some (entry_of scheme c) _ t built in
          let (d, u, j, b, i) =
            built_In (build_tree_node scheme concepts rels fuel) k
              (by_label (children_of concepts rels c.id)) us e
              (any-by_label (λ x. x.id == k) (children_of concepts rels c.id)
                ∙ child_listed concepts rels c.id k (subst (λ q. Edge rels q k) (sym same) edge)
                    there) in
          record {
            concept = d;
            fuel = fuel;
            tree = u;
            same = j;
            built = b;
            inside = In-node u (entry_of scheme c) us (subst (λ n. In n ts) (sym is) inside) i;
          }

  module _ (acyclic : Acyclic rels) (built : build_tree scheme concepts rels ≡ some ts) where
    IsPlaced-root :
        (k : ℕ) → in_map concepts k ≡ true → has_parent concepts rels k ≡ false → IsPlaced k
    unfolding build_tree_node
    IsPlaced-root k there root =
        let (c, t, j, b, i) =
          built_In (build_tree_node scheme concepts rels (length concepts)) k
            (roots scheme concepts rels) ts built (root_listed concepts there) in
        record { concept = c; fuel = length concepts; tree = t; same = j; built = b; inside = i }
      where
        root_listed :
            (rows : List Concept)
            → in_map rows k ≡ true
            → in_map (filter (λ c. not (has_parent concepts rels c.id)) rows) k ≡ true
        root_listed [] h = h
        root_listed (c ∷ rows) h = elim (Bool-cases (c.id == k)) [
          | inl e ↦ rw (ap (has_parent concepts rels) ((==_iff c.id k).0 e) ∙ root) (rw e refl)
          | inr e ↦ elim (Bool-cases (has_parent concepts rels c.id)) [
            | inl f ↦ rw f (root_listed rows (ground arith))
            | inr f ↦ rw f (rw e (root_listed rows (ground arith)))
          ]
        ]

    -- from the concept up to a root
    IsPlaced-from :
        (fuel : ℕ) (path : List ℕ) (k : ℕ)
        → in_map concepts k ≡ true
        → contains path k ≡ false
        → ((j : ℕ) → contains path j ≡ true → Below rels k j)
        → rest_of path concepts ≤ fuel
        → IsPlaced k
    IsPlaced-from zero path k there fresh under h =
        absurd (omega (arith, rest_of_less k path concepts there fresh))
    IsPlaced-from (suc fuel) path k there fresh under h =
        elim (Bool-cases (has_parent concepts rels k)) [
          | inr root ↦ IsPlaced-root k there root
          | inl has ↦
              let (p, edge, up) = parent_of concepts rels k has in
              let above : (j : ℕ) → contains (k ∷ path) j ≡ true → Below rels p j = λ j m.
                elim (Bool-cases (k == j)) [
                  | inl e ↦ subst (Below rels p) ((==_iff k j).0 e) (child edge)
                  | inr e ↦ Below-trans (child edge) (under j (ground arith))
                ] in
              let less = rest_of_less k path concepts there fresh in
              let new : contains (k ∷ path) p ≡ false = elim (Bool-cases (contains (k ∷ path) p)) [
                | inl e ↦ absurd (acyclic p (above p e))
                | inr e ↦ e
              ] in
              IsPlaced-child p k (IsPlaced-from fuel (k ∷ path) p up new above (omega arith)) edge
                there
        ]

    pub all_shown : (k : ℕ) → in_map concepts k ≡ true → shows k ts ≡ true
    all_shown k there = IsPlaced-shows k (
        IsPlaced-from (length concepts) [] k there refl (λ j m. absurd cc) (rest_of_le [] concepts))
