-- ===== src/Hierarchy/Search.antt =====
-- The search ends within its fuel, and finds exactly what is below the source.
use taxonomy_builder.Common.{
  ℕ, zero, suc, ◌+◌, ◌≤◌, ◌≡◌, refl, ◌↔◌, ◌⊎◌, inl, inr, Bool, true, false, ◌||◌, some, List, [],
  ◌∷◌, ◌++◌, length, length-append, contains, contains-append, ◌==◌, ==_refl, if◌then◌else◌,
  Bool-cases, arith, sym, ◌∙◌, subst, ◌≢◌, ap,
}
use taxonomy_builder.Models.Vocabulary.{ConceptBroader}
use taxonomy_builder.Hierarchy.{
  children_ids, search_loop, is_descendant, Edge, Below, child, deeper,
}

-- the rows whose broader concept is still to be expanded
-- facts about `or`
or_true : (a b : Bool) → (a || b) ≡ true → (a ≡ true) ⊎ (b ≡ true)
or_true true b h = inl refl
or_true false b h = inr h

or_left : (a b : Bool) → a ≡ true → (a || b) ≡ true
or_left a b h = ground arith

or_right : (a b : Bool) → b ≡ true → (a || b) ≡ true
or_right a b h = ground arith

pending : List ConceptBroader → List ℕ → ℕ
pending [] visited = 0
pending (rel ∷ rels) visited =
    (if contains visited rel.broader_concept_id then 0 else 1) + pending rels visited

pending-visit :
    (rels : List ConceptBroader) (visited : List ℕ) (u : ℕ)
    → contains visited u ≡ false
    → pending rels (u ∷ visited) + length (children_ids rels u) ≡ pending rels visited
unfolding pending children_ids
pending-visit [] visited u h = omega arith
pending-visit (rel ∷ rels) visited u h = ground (arith, pending-visit rels visited u)

pending-le : (rels : List ConceptBroader) (visited : List ℕ) → pending rels visited ≤ length rels
unfolding pending
pending-le [] visited = omega arith
pending-le (rel ∷ rels) visited = ground (arith, pending-le rels visited)

module _ (rels : List ConceptBroader) (target : ℕ) where
  search_ends :
      (fuel : ℕ) (visited queue : List ℕ)
      → length queue + pending rels visited ≤ fuel
      → (b : Bool) × (search_loop rels target fuel visited queue ≡ some b)
  unfolding search_loop
  search_ends fuel visited [] h = (false, refl)
  search_ends zero visited (u ∷ queue) h = absurd (omega arith)
  search_ends (suc fuel) visited (u ∷ queue) h = elim (Bool-cases (contains visited u)) [
    | inl old ↦
        let (b, e) = search_ends fuel visited queue (omega arith) in (b, rw (old, search_loop) e)
    | inr new ↦ elim (Bool-cases (contains (children_ids rels u) target)) [
      | inl hit ↦ (true, rw (new, hit, search_loop) refl)
      | inr miss ↦
          let (b, e) = search_ends fuel (u ∷ visited) (queue ++ children_ids rels u) (
            omega (
              arith,
              pending-visit rels visited u new,
              length-append queue (children_ids rels u),
            )) in
          (b, rw (new, miss, search_loop) e)
    ]
  ]

  -- what is the source or below it has only children that are below it
  Below-child : (top u x : ℕ) → (u ≡ top) ⊎ Below rels top u → Edge rels u x → Below rels top x
  Below-child top u x (inl e) edge = subst (λ t. Below rels t x) e (child edge)
  Below-child top u x (inr b) edge = deeper b edge

  abbrev Queued : ℕ → List ℕ → Type 0
  Queued top queue = (x : ℕ) → contains queue x ≡ true → (x ≡ top) ⊎ Below rels top x

  Queued-children :
      (top u : ℕ) (queue : List ℕ)
      → Queued top (u ∷ queue)
      → Queued top (queue ++ children_ids rels u)
  Queued-children top u queue q x m =
      elim (or_true _ _ (sym (contains-append queue (children_ids rels u) x) ∙ m)) [
        | inl old ↦ q x (or_right _ _ old)
        | inr new ↦ inr (Below-child top u x (q u (or_left _ _ (==_refl u))) new)
      ]

  search_sound :
      (top fuel : ℕ) (visited queue : List ℕ)
      → Queued top queue
      → search_loop rels target fuel visited queue ≡ some true
      → Below rels top target
  unfolding search_loop
  search_sound top fuel visited [] q h = cc
  search_sound top zero visited (u ∷ queue) q h = cc
  search_sound top (suc fuel) visited (u ∷ queue) q h = elim (Bool-cases (contains visited u)) [
    | inl old ↦
        search_sound top fuel visited queue (λ x m. q x (or_right _ _ m))
          (rw (old, search_loop) at h)
    | inr new ↦ elim (Bool-cases (contains (children_ids rels u) target)) [
      | inl hit ↦ Below-child top u target (q u (or_left _ _ (==_refl u))) hit
      | inr miss ↦
          search_sound top fuel (u ∷ visited) (queue ++ children_ids rels u)
            (Queued-children top u queue q) (rw (new, miss, search_loop) at h)
    ]
  ]

  record Inv (top : ℕ) (visited queue : List ℕ) : Type 0 where
    closed :
        (x y : ℕ)
        → contains visited x ≡ true
        → Edge rels x y
        → (contains visited y || contains queue y) ≡ true
    missed : (x : ℕ) → contains visited x ≡ true → contains (children_ids rels x) target ≡ false
    source : (contains visited top || contains queue top) ≡ true

  Inv-skip :
      (top u : ℕ) (visited queue : List ℕ)
      → contains visited u ≡ true
      → Inv top visited (u ∷ queue)
      → Inv top visited queue
  Inv-skip top u visited queue old inv = record {
    closed = λ x y m e. ground (arith, inv.closed x y m e, same_id u y);
    missed = inv.missed;
    source = ground (arith, inv.source, same_id u top);
  }
    where
      same_id : (u y : ℕ) → (u == y) ≡ true → u ≡ y
      same_id u y h = ground arith

  Inv-expand :
      (top u : ℕ) (visited queue : List ℕ)
      → contains (children_ids rels u) target ≡ false
      → Inv top visited (u ∷ queue)
      → Inv top (u ∷ visited) (queue ++ children_ids rels u)
  Inv-expand top u visited queue miss inv = record {
    closed =
        λ x y m e. ground (arith, inv.closed x y, contains-append queue (children_ids rels u) y);
    missed = λ x m. ground (arith, inv.missed x);
    source = ground (arith, inv.source, contains-append queue (children_ids rels u) top);
  }

  search_Inv :
      (top fuel : ℕ) (visited queue : List ℕ)
      → Inv top visited queue
      → search_loop rels target fuel visited queue ≡ some false
      → (visited' : List ℕ) × Inv top visited' []
  unfolding search_loop
  search_Inv top fuel visited [] inv h = (visited, inv)
  search_Inv top zero visited (u ∷ queue) inv h = cc
  search_Inv top (suc fuel) visited (u ∷ queue) inv h = elim (Bool-cases (contains visited u)) [
    | inl old ↦
        search_Inv top fuel visited queue (Inv-skip top u visited queue old inv)
          (rw (old, search_loop) at h)
    | inr new ↦ elim (Bool-cases (contains (children_ids rels u) target)) [
      | inl hit ↦ absurd (cc (rw (new, hit, search_loop) at h))
      | inr miss ↦
          search_Inv top fuel (u ∷ visited) (queue ++ children_ids rels u)
            (Inv-expand top u visited queue miss inv) (rw (new, miss, search_loop) at h)
    ]
  ]

  seen_child :
      {top : ℕ} (u x : ℕ) (visited : List ℕ)
      → Inv top visited []
      → contains visited u ≡ true
      → Edge rels u x
      → (contains visited x ≡ true) × (x ≢ target)
  seen_child u x visited inv seen edge =
      (ground (arith, inv.closed u x), λ same. cc (inv.missed u seen, same, edge))

  -- what the search has seen is closed under children
  visited-Below :
      (top x : ℕ) (visited : List ℕ)
      → Inv top visited []
      → Below rels top x
      → (contains visited x ≡ true) × (x ≢ target)
  visited-Below top x visited inv (child e) =
      seen_child top x visited inv (ground (arith, inv.source)) e
  visited-Below top x visited inv (deeper {p} b e) =
      seen_child p x visited inv (visited-Below top p visited inv b).0 e

  Inv-start : (top : ℕ) → Inv top [] (top ∷ [])
  Inv-start top = record {
    closed = λ x y m e. cc m;
    missed = λ x m. cc m;
    source = or_left _ _ (==_refl top);
  }

-- The search ends within its fuel, and its answer is that the target is below the source.
pub is_descendant_decides :
    (rels : List ConceptBroader) (top target : ℕ)
    → (b : Bool) × (is_descendant rels top target ≡ some b) × ((b ≡ true) ↔ Below rels top target)
unfolding is_descendant
is_descendant_decides rels top target =
    let fuel = length rels + 1 in
    let (b, ends) =
      search_ends rels target fuel [] (top ∷ []) (omega (arith, pending-le rels [])) in
    (b, ends, (sound b ends, complete b ends))
  where
    sound : (b : Bool) → is_descendant rels top target ≡ some b → b ≡ true → Below rels top target
    sound b ends yes' =
        search_sound rels target top (length rels + 1) [] (top ∷ []) (λ x m. inl (ground arith))
          (ends ∙ ap some yes')

    complete :
        (b : Bool) → is_descendant rels top target ≡ some b → Below rels top target → b ≡ true
    complete true ends below = refl
    complete false ends below =
        let (visited, inv) =
          search_Inv rels target top (length rels + 1) [] (top ∷ []) (Inv-start rels target top)
            ends in
        absurd ((visited-Below rels target top target visited inv below).1 refl)

pub Below-of_found :
    (rels : List ConceptBroader) (top target : ℕ)
    → is_descendant rels top target ≡ some true
    → Below rels top target
Below-of_found rels top target h =
    let (b, e, decides) = is_descendant_decides rels top target in
    decides.0 (ground (arith, sym e ∙ h))

pub not-Below_of_missed :
    (rels : List ConceptBroader) (top target : ℕ)
    → is_descendant rels top target ≡ some false
    → ¬ Below rels top target
not-Below_of_missed rels top target h below =
    let (b, e, decides) = is_descendant_decides rels top target in cc (decides.1 below, sym e ∙ h)

pub found_of_Below :
    (rels : List ConceptBroader) (top target : ℕ)
    → Below rels top target
    → is_descendant rels top target ≡ some true
found_of_Below rels top target below =
    let (b, e, decides) = is_descendant_decides rels top target in e ∙ ap some (decides.1 below)
