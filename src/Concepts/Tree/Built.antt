-- ===== src/Concepts/Tree/Built.antt =====
-- The tree of an acyclic hierarchy is built: no branch is longer than there are concepts.
use taxonomy_builder.Common.{
  ℕ, zero, suc, ◌≤◌, ◌<◌, ◌≡◌, refl, sym, ◌∙◌, subst, inl, inr, Bool, true, false, not, ◌&&◌,
  Option, some, List, [], ◌∷◌, length, contains, text_before, ◌==◌, ==_iff, if◌then◌else◌, find,
  filter, any, Bool-cases, Option-cases, arith,
}
use mathlib.Core.Option.{some-injective}
use taxonomy_builder.Common.Sort.{any-order_by}
use taxonomy_builder.Hierarchy.{children_ids, Edge, Below, child, deeper}
use taxonomy_builder.Hierarchy.Acyclic.{Acyclic}
use taxonomy_builder.Models.Vocabulary.{Concept, ConceptScheme, ConceptBroader}
use taxonomy_builder.Concepts.Tree.{
  TreeNode, Forest, node, nil, cons, by_label, in_map, children_of, has_parent, entry_of, build_all,
  build_tree_node, build_tree, roots,
}

-- the concepts that are not on the path
abbrev pub rest_of : List ℕ → List Concept → ℕ
rest_of path [] = 0
rest_of path (c ∷ concepts) =
    if contains path c.id then rest_of path concepts else suc (rest_of path concepts)

pub rest_of_le : (path : List ℕ) (concepts : List Concept) → rest_of path concepts ≤ length concepts
rest_of_le path [] = omega arith
rest_of_le path (c ∷ concepts) = ground (arith, rest_of_le path concepts)

rest_of_more :
    (k : ℕ) (path : List ℕ) (concepts : List Concept)
    → rest_of (k ∷ path) concepts ≤ rest_of path concepts
rest_of_more k path [] = omega arith
rest_of_more k path (c ∷ concepts) = ground (arith, rest_of_more k path concepts)

-- a concept that comes onto the path
pub rest_of_less :
    (k : ℕ) (path : List ℕ) (concepts : List Concept)
    → in_map concepts k ≡ true
    → contains path k ≡ false
    → rest_of (k ∷ path) concepts < rest_of path concepts
rest_of_less k path [] h e = absurd cc
rest_of_less k path (c ∷ concepts) h e =
    ground (arith, rest_of_less k path concepts, rest_of_more k path concepts)

-- a concept of the scheme that stands under the parent
abbrev pub is_child : List Concept → List ℕ → Concept → Bool
is_child concepts ids d = in_map concepts d.id && contains ids d.id

pub find-in_map :
    (k : ℕ) (concepts : List Concept) (c : Concept)
    → find (λ c. c.id == k) concepts ≡ some c
    → (c.id ≡ k) × (in_map concepts k ≡ true)
find-in_map k [] c h = absurd cc
find-in_map k (x ∷ concepts) c h = elim (Bool-cases (x.id == k)) [
  | inl e ↦
      (subst (λ y. y.id ≡ k) (some-injective x c (rw e at h)) ((==_iff x.id k).0 e), rw e refl)
  | inr e ↦ let (same, there) = find-in_map k concepts c (rw e at h) in (same, rw e there)
]

children_of-is_child :
    (concepts : List Concept) (rels : List ConceptBroader) (parent : ℕ) (ids : List ℕ)
    → ((k : ℕ) → contains (children_ids rels parent) k ≡ true → contains ids k ≡ true)
    → any (λ d. not (is_child concepts ids d)) (children_of concepts rels parent) ≡ false
unfolding children_ids
children_of-is_child concepts [] parent ids h = refl
children_of-is_child concepts (rel ∷ rels) parent ids h =
    let rest = children_of-is_child concepts rels parent ids (λ k m. h k (ground arith)) in
    elim (Bool-cases (rel.broader_concept_id == parent)) [
      | inr e ↦ rw e rest
      | inl e ↦ rw e (elim (Option-cases (find (λ c. c.id == rel.concept_id) concepts)) [
        | inl f ↦ rw f rest
        | inr (c, f) ↦
            let (same, there) = find-in_map rel.concept_id concepts c f in
            let held : is_child concepts ids c ≡ true =
              subst (λ k. (in_map concepts k && contains ids k) ≡ true) (sym same)
                (rw (there, h rel.concept_id (ground arith)) refl) in
            rw f (rw (held, rest) refl)
      ])
    ]

pub any-by_label :
    (f : Concept → Bool) (concepts : List Concept) → any f (by_label concepts) ≡ any f concepts
any-by_label f concepts = any-order_by (λ c d. text_before c.pref_label d.pref_label) f concepts

-- all nodes are built if each one is
all_built :
    (build : Concept → Option TreeNode) (good : Concept → Bool)
    → ((d : Concept) → good d ≡ true → (t : TreeNode) × (build d ≡ some t))
    → (concepts : List Concept) → any (λ d. not (good d)) concepts ≡ false
    → (ts : Forest) × (build_all build concepts ≡ some ts)
all_built build good f [] h = (nil, refl)
all_built build good f (c ∷ concepts) h =
    let (t, e) = f c (ground arith) in
    let (ts, k) = all_built build good f concepts (ground arith) in (cons t ts, rw (e, k) refl)

kept_in_map :
    (keep : Concept → Bool) (concepts rows : List Concept)
    → ((k : ℕ) → in_map rows k ≡ true → in_map concepts k ≡ true)
    → any (λ d. not (in_map concepts d.id)) (filter keep rows) ≡ false
kept_in_map keep concepts [] h = refl
kept_in_map keep concepts (c ∷ rows) h =
    let rest = kept_in_map keep concepts rows (λ k m. h k (ground arith)) in
    let there = h c.id (ground arith) in
    elim (Bool-cases (keep c)) [ inl e ↦ rw e (rw (there, rest) refl) | inr e ↦ rw e rest ]

module _ (scheme : ConceptScheme) (concepts : List Concept) (rels : List ConceptBroader)
    (acyclic : Acyclic rels) where
  -- the path leads down to the concept
  record IsPath (path : List ℕ) (c : Concept) : Type 0 where
    there : in_map concepts c.id ≡ true
    fresh : contains path c.id ≡ false
    above : (k : ℕ) → contains path k ≡ true → Below rels k c.id

  IsPath-child :
      (path : List ℕ) (c d : Concept)
      → IsPath path c
      → is_child concepts (children_ids rels c.id) d ≡ true
      → IsPath (c.id ∷ path) d
  IsPath-child path c d p h =
      let edge : Edge rels c.id d.id = ground arith in
      let above : (k : ℕ) → contains (c.id ∷ path) k ≡ true → Below rels k d.id = λ k m.
        elim (Bool-cases (c.id == k)) [
          | inl e ↦ subst (λ j. Below rels j d.id) ((==_iff c.id k).0 e) (child edge)
          | inr e ↦ deeper (p.above k (ground arith)) edge
        ] in
      record {
        there = ground arith;
        fresh = elim (Bool-cases (contains (c.id ∷ path) d.id)) [
          | inl e ↦ absurd (acyclic d.id (above d.id e))
          | inr e ↦ e
        ];
        above = above;
      }

  build_tree_node-some :
      (fuel : ℕ) (path : List ℕ) (c : Concept)
      → IsPath path c
      → rest_of path concepts ≤ fuel
      → (t : TreeNode) × (build_tree_node scheme concepts rels fuel c ≡ some t)
  unfolding build_tree_node
  build_tree_node-some zero path c p h =
      absurd (omega (arith, rest_of_less c.id path concepts p.there p.fresh))
  build_tree_node-some (suc fuel) path c p h =
      let less = rest_of_less c.id path concepts p.there p.fresh in
      let (ts, e) =
        all_built (build_tree_node scheme concepts rels fuel)
          (is_child concepts (children_ids rels c.id))
          (λ d k.
            build_tree_node-some fuel (c.id ∷ path) d (IsPath-child path c d p k) (omega arith))
          (by_label (children_of concepts rels c.id))
          (any-by_label (λ d. not (is_child concepts (children_ids rels c.id) d))
              (children_of concepts rels c.id)
            ∙ children_of-is_child concepts rels c.id (children_ids rels c.id) (λ k m. m)) in
      (node (entry_of scheme c) ts, rw e refl)

  -- a concept of the scheme, from where it stands
  pub build_tree_node-all :
      (c : Concept)
      → in_map concepts c.id ≡ true
      → (t : TreeNode) × (build_tree_node scheme concepts rels (length concepts) c ≡ some t)
  build_tree_node-all c h =
      build_tree_node-some (length concepts) [] c
        (record { there = h; fresh = refl; above = λ k m. absurd cc }) (rest_of_le [] concepts)

  pub build_tree-some : (ts : Forest) × (build_tree scheme concepts rels ≡ some ts)
  unfolding build_tree_node
  build_tree-some =
      all_built (build_tree_node scheme concepts rels (length concepts)) (λ c. in_map concepts c.id)
        build_tree_node-all (roots scheme concepts rels)
        (kept_in_map (λ c. not (has_parent concepts rels c.id)) concepts concepts (λ k m. m))
