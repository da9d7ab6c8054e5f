-- ===== src/Hierarchy/Acyclic.antt =====
-- No concept is below itself: what keeps the hierarchy so when rows are added and removed.
use taxonomy_builder.Common.{
  ℕ, ◌≡◌, refl, ◌↔◌, ◌⊎◌, inl, inr, ◌≢◌, sym, ◌∙◌, subst, Bool, List, [], ◌∷◌, ◌++◌,
  contains-append, filter, arith,
}
use taxonomy_builder.Models.Vocabulary.{ConceptBroader}
use taxonomy_builder.Hierarchy.{children_ids, Edge, Below, child, deeper}

abbrev pub Acyclic : List ConceptBroader → Type 0
Acyclic rels = (x : ℕ) → ¬ Below rels x x

abbrev pub AtOrBelow : List ConceptBroader → ℕ → ℕ → Type 0
AtOrBelow rels top x = (top ≡ x) ⊎ Below rels top x

pub Below-mono :
    (rels rels' : List ConceptBroader)
    → ((x y : ℕ) → Edge rels x y → Edge rels' x y)
    → {top x : ℕ} → Below rels top x
    → Below rels' top x
Below-mono rels rels' keep (child e) = child (keep _ _ e)
Below-mono rels rels' keep (deeper b e) = deeper (Below-mono rels rels' keep b) (keep _ _ e)

pub Below-trans :
    {rels : List ConceptBroader} {top p x : ℕ}
    → Below rels top p
    → Below rels p x
    → Below rels top x
Below-trans b (child e) = deeper b e
Below-trans b (deeper c e) = deeper (Below-trans b c) e

pub Edge-filter :
    (keep : ConceptBroader → Bool) (rels : List ConceptBroader) (x y : ℕ)
    → Edge (filter keep rels) x y
    → Edge rels x y
unfolding children_ids
Edge-filter keep [] x y e = e
Edge-filter keep (rel ∷ rels) x y e = ground (arith, Edge-filter keep rels x y)

-- Removing rows makes no cycle.
pub Acyclic-filter :
    (keep : ConceptBroader → Bool) (rels : List ConceptBroader)
    → Acyclic rels
    → Acyclic (filter keep rels)
Acyclic-filter keep rels h x b = h x (Below-mono (filter keep rels) rels (Edge-filter keep rels) b)

children_ids-append :
    (rels more : List ConceptBroader) (p : ℕ)
    → children_ids (rels ++ more) p ≡ children_ids rels p ++ children_ids more p
unfolding children_ids
children_ids-append [] more p = refl
children_ids-append (rel ∷ rels) more p = ground (arith, children_ids-append rels more p)

module _ (rels : List ConceptBroader) (c p : ℕ) where
  abbrev row : ConceptBroader
  row = record { concept_id = c; broader_concept_id = p }

  pub Edge-added : (x y : ℕ) → Edge (rels ++ row ∷ []) x y ↔ (Edge rels x y ⊎ (x ≡ p) × (y ≡ c))
  unfolding children_ids
  Edge-added x y = ground (
    arith,
    children_ids-append rels (row ∷ []) x,
    contains-append (children_ids rels x) (children_ids (row ∷ []) x) y,
  )

  Below-added :
      (top x : ℕ)
      → Below (rels ++ row ∷ []) top x
      → Below rels top x ⊎ AtOrBelow rels top p × AtOrBelow rels c x
  Below-added top x (child e) = elim ((Edge-added top x).0 e) [
    | inl old ↦ inl (child old)
    | inr new ↦ inr (inl new.0, inl (sym new.1))
  ]
  Below-added top x (deeper {p = q} b e) = after q (Below-added top q b) ((Edge-added q x).0 e)
    where
      after :
          (q : ℕ)
          → Below rels top q ⊎ AtOrBelow rels top p × AtOrBelow rels c q
          → Edge rels q x ⊎ (q ≡ p) × (x ≡ c)
          → Below rels top x ⊎ AtOrBelow rels top p × AtOrBelow rels c x
      after q (inl below) (inl old) = inl (deeper below old)
      after q (inl below) (inr new) =
          inr (inr (subst (Below rels top) new.0 below), inl (sym new.1))
      after q (inr (up, inl at)) (inl old) =
          inr (up, inr (subst (λ t. Below rels t x) (sym at) (child old)))
      after q (inr (up, inr below)) (inl old) = inr (up, inr (deeper below old))
      after q (inr (up, down)) (inr new) = inr (up, inl (sym new.1))

  Below-cycle : (x : ℕ) → AtOrBelow rels x p → AtOrBelow rels c x → (c ≡ p) ⊎ Below rels c p
  Below-cycle x (inl e) (inl f) = inl (f ∙ e)
  Below-cycle x (inl e) (inr b) = inr (subst (Below rels c) e b)
  Below-cycle x (inr b) (inl f) = inr (subst (λ t. Below rels t p) (sym f) b)
  Below-cycle x (inr b) (inr d) = inr (Below-trans d b)

  -- A row whose broader concept is neither the concept nor below it makes no cycle.
  pub Acyclic-added : Acyclic rels → c ≢ p → ¬ Below rels c p → Acyclic (rels ++ row ∷ [])
  Acyclic-added h ne not_below x b = elim (Below-added x x b) [
    | inl old ↦ h x old
    | inr new ↦ elim (Below-cycle x new.0 new.1) [ inl e ↦ ne e | inr d ↦ not_below d ]
  ]

  -- A row whose broader concept is the concept, or is below it, closes a cycle.
  pub not-Acyclic-added : AtOrBelow rels c p → ¬ Acyclic (rels ++ row ∷ [])
  not-Acyclic-added (inl e) h = h c (child ((Edge-added c c).1 (inr (e, refl))))
  not-Acyclic-added (inr b) h = h c (
      deeper (Below-mono rels (rels ++ row ∷ []) (λ x y old. (Edge-added x y).1 (inl old)) b)
        ((Edge-added p c).1 (inr (refl, refl))))
