-- ===== src/Hierarchy.antt =====
-- `ConceptService._is_descendant` of backend/src/taxonomy_builder/services/concept_service.py: a
-- breadth-first search down the rows of `concept_broader`.
pub mod Search
pub mod Acyclic
use taxonomy_builder.Common.{
  ℕ, zero, suc, ◌+◌, ◌≡◌, Bool, true, false, Option, none, some, List, [], ◌∷◌, ◌++◌, length,
  contains, ◌==◌, if◌then◌else◌,
}
use taxonomy_builder.Models.Vocabulary.{ConceptBroader}

-- `select(ConceptBroader.concept_id).where(ConceptBroader.broader_concept_id == current_id)`
unfoldable pub children_ids : List ConceptBroader → ℕ → List ℕ
children_ids [] parent = []
children_ids (rel ∷ rels) parent =
    let rest = children_ids rels parent in
    if rel.broader_concept_id == parent then rel.concept_id ∷ rest else rest

module _ (rels : List ConceptBroader) (target : ℕ) where
  -- The `while queue` loop; `none` if the fuel runs out. The inner loop over the children returns at
  -- the first that is the target, and otherwise has queued all of them.
  pub search_loop : ℕ → List ℕ → List ℕ → Option Bool
  search_loop fuel visited [] = some false
  search_loop zero visited (current ∷ queue) = none
  search_loop (suc fuel) visited (current ∷ queue) = elim (contains visited current) [
    | true ↦ search_loop fuel visited queue
    | false ↦ elim (contains (children_ids rels current) target) [
      | true ↦ some true
      | false ↦ search_loop fuel (current ∷ visited) (queue ++ children_ids rels current)
    ]
  ]

-- every row queues its narrower concept once at most, and the source is queued once
unfoldable pub is_descendant : List ConceptBroader → ℕ → ℕ → Option Bool
unfolding search_loop children_ids
is_descendant rels concept_id target =
    search_loop rels target (length rels + 1) [] (concept_id ∷ [])

-- `child` stands under `parent` in one step
abbrev pub Edge : List ConceptBroader → ℕ → ℕ → Type 0
Edge rels parent child = contains (children_ids rels parent) child ≡ true

-- the concepts below `top`, in one or more steps
pub data Below (rels : List ConceptBroader) (top : ℕ) : ℕ → Type 0 where
  child : {c : ℕ} → Edge rels top c → Below rels top c
  deeper : {p c : ℕ} → Below rels top p → Edge rels p c → Below rels top c
