-- ===== src/Concepts/Tree/Forests.antt =====
-- The nodes of a tree.
use taxonomy_builder.Common.{
  ℕ, ◌≡◌, refl, subst, inl, inr, Bool, true, false, ◌||◌, Option, none, some, List, [], ◌∷◌, ◌==◌,
  ==_iff, find, Bool-cases, arith,
}
use mathlib.Core.Option.{some-injective}
use taxonomy_builder.Models.Vocabulary.{Concept}
use taxonomy_builder.Concepts.Tree.{
  TreeEntry, TreeNode, Forest, node, nil, cons, in_map, cons_node, build_all,
}

unfoldable mutual
  -- the tree has a node with the id
  pub shows : ℕ → Forest → Bool
  shows id nil = false
  shows id (cons t ts) = shows_below id t || shows id ts

  pub shows_below : ℕ → TreeNode → Bool
  shows_below id (node e ts) = e.id == id || shows id ts

pub data In (t : TreeNode) : Forest → Type 0 where
  here : {ts : Forest} → In t (cons t ts)
  later : {u : TreeNode} {ts : Forest} → In t ts → In t (cons u ts)
  below : {e : TreeEntry} {us ts : Forest} → In t us → In t (cons (node e us) ts)

unfoldable pub node_id : TreeNode → ℕ
node_id (node e ts) = e.id

pub In-shows : (t : TreeNode) (ts : Forest) → In t ts → shows (node_id t) ts ≡ true
unfolding shows shows_below node_id
In-shows t nil i = elim i [ ]
In-shows (node e us) (cons t ts) here = ground arith
In-shows t (cons u ts) (later i) = ground (arith, In-shows t ts i)
In-shows t (cons u ts) (below {us = us} i) = ground (arith, In-shows t us i)

pub In-node :
    (t : TreeNode) (e : TreeEntry) (us : Forest) {ts : Forest}
    → In (node e us) ts
    → In t us
    → In t ts
In-node t e us here i = below i
In-node t e us (later j) i = later (In-node t e us j i)
In-node t e us (below j) i = below (In-node t e us j i)

cons_some :
    (o : Option TreeNode) (os : Option Forest) (ts : Forest)
    → cons_node o os ≡ some ts
    → (t : TreeNode) × (us : Forest) × (o ≡ some t) × (os ≡ some us) × (cons t us ≡ ts)
cons_some none os ts e = absurd cc
cons_some (some t) none ts e = absurd cc
cons_some (some t) (some us) ts e = (t, us, refl, refl, some-injective (cons t us) ts e)

-- the node of a concept that is in a list of nodes
pub built_In :
    (build : Concept → Option TreeNode) (k : ℕ) (concepts : List Concept) (ts : Forest)
    → build_all build concepts ≡ some ts
    → in_map concepts k ≡ true
    → (c : Concept) × (t : TreeNode) × (c.id ≡ k) × (build c ≡ some t) × In t ts
built_In build k [] ts e h = absurd cc
built_In build k (c ∷ concepts) ts e h =
    let (t, us, p, q, same) = cons_some (build c) (build_all build concepts) ts e in
    elim (Bool-cases (c.id == k)) [
      | inl here_it ↦ (c, t, (==_iff c.id k).0 here_it, p, subst (In t) same here)
      | inr other ↦
          let (d, u, j, b, i) = built_In build k concepts us q (ground arith) in
          (d, u, j, b, subst (In u) same (later i))
    ]

pub not_in_map :
    (k : ℕ) (concepts : List Concept)
    → find (λ c. c.id == k) concepts ≡ none
    → in_map concepts k ≡ false
not_in_map k [] h = refl
not_in_map k (c ∷ concepts) h = elim (Bool-cases (c.id == k)) [
  | inl e ↦ absurd (some_is_not_none (rw e at h))
  | inr e ↦ rw e (not_in_map k concepts (rw e at h))
]
  where
    some_is_not_none : {A : Type 0} {a : A} → some a ≡ none → ⊥
    some_is_not_none e = cc
