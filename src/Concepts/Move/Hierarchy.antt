-- ===== src/Concepts/Move/Hierarchy.antt =====
-- A move keeps the hierarchy free of cycles, whatever its outcome.
use taxonomy_builder.Common.{
  List, ℕ, ◌≡◌, ◌≢◌, refl, Bool, true, false, Option, none, some, filter, any, Result, ok, raise,
  Triple, Ensures, Triple-bind, Triple-fail, Triple-after, ◌>>=◌, Triple-raise_if, inl, inr,
  Bool-cases, arith,
}
use taxonomy_builder.Models.Vocabulary.{ConceptBroader}
use taxonomy_builder.Models.Session.{Db, Session, Both, request, request_keeps}
use taxonomy_builder.Tracker.{Actor}
use taxonomy_builder.Hierarchy.{is_descendant, Below}
use taxonomy_builder.Hierarchy.Search.{not-Below_of_missed}
use taxonomy_builder.Hierarchy.Acyclic.{
  Acyclic, Acyclic-filter, Acyclic-added, Below-mono, Edge-filter,
}
use taxonomy_builder.Concepts.{Error, Service, get_concept, self_reference}
use taxonomy_builder.Concepts.Rules.{get_concept_keeps, get_scheme_keeps}
use taxonomy_builder.Concepts.Broader.{
  same_pair, insert_broader, delete_broader, add_broader, remove_broader,
}
use taxonomy_builder.Concepts.Move.{
  is_self, refuse, reject_descendant, check_parent, ignore, attempt, drop_previous, add_new,
  move_concept,
}

-- before and after a rollback
abbrev BothAcyclic : Session → Type 0
BothAcyclic = Both (λ db. Acyclic db.broader)

abbrev SafeParent : Option ℕ → ℕ → List ConceptBroader → Type 0
SafeParent none c rels = Unit {0}
SafeParent (some p) c rels = (c ≢ p) × (¬ Below rels c p)

abbrev Ready : Option ℕ → ℕ → Session → Type 0
Ready new c s = BothAcyclic s × SafeParent new c s.broader

SafeParent-filter :
    (new : Option ℕ) (c : ℕ) (keep : ConceptBroader → Bool) (rels : List ConceptBroader)
    → SafeParent new c rels
    → SafeParent new c (filter keep rels)
SafeParent-filter none c keep rels h = tt
SafeParent-filter (some p) c keep rels (ne, clear) =
    (ne, λ b. clear (Below-mono (filter keep rels) rels (Edge-filter keep rels) b))

module _ (new : Option ℕ) (c : ℕ) where
  delete_broader-Ready :
      (b : ℕ) → Triple (Ready new c) (delete_broader c b) (λ _. Ready new c) (λ _. Ready new c)
  unfolding delete_broader
  delete_broader-Ready b = record {
    at = λ s ((now, back), safe). elim (Bool-cases (any (same_pair c b) s.broader)) [
      | inl e ↦
          rw e ((Acyclic-filter _ s.broader now, back), SafeParent-filter new c _ s.broader safe)
      | inr e ↦ rw e ((now, back), safe)
    ];
  }

insert_broader_Acyclic :
    (c p : ℕ) → Triple (Ready (some p) c) (insert_broader c p) (λ _. BothAcyclic) (λ _. BothAcyclic)
unfolding insert_broader
insert_broader_Acyclic c p = record {
  at = λ s ((now, back), (ne, clear)). elim (Bool-cases (any (same_pair c p) s.broader)) [
    | inl e ↦ rw e (back, back)
    | inr e ↦ rw e (Acyclic-added s.broader c p now ne clear, back)
  ];
}

attempt_keeps :
    (expected : Error → Bool) (m : Service (Unit {0})) {before after : Session → Type 0}
    → Triple before m (λ _. after) (λ _. after)
    → Triple before (attempt expected m) (λ _. after) (λ _. after)
attempt_keeps expected m {after = after} t = record { at = λ s h. go (m s).0 (m s).1 (t.at s h) }
  where
    go :
        (r : Result Error (Unit {0})) (s : Session)
        → Ensures (λ _. after) (λ _. after) r s
        → Ensures (λ _. after) (λ _. after) (ignore expected r) s
    go (ok u) s h = h
    go (raise e) s h = elim (Bool-cases (expected e)) [ inl q ↦ rw q h | inr q ↦ rw q h ]

module _ (actor : Actor) where
  remove_broader-Ready :
      (new : Option ℕ) (c b : ℕ)
      → Triple (Ready new c) (remove_broader actor c b) (λ _. Ready new c) (λ _. Ready new c)
  unfolding remove_broader
  remove_broader-Ready new c b = Triple-bind _ _ (get_concept_keeps (Ready new c) c) λ concept.
      Triple-bind _ _ (get_concept_keeps (Ready new c) b) λ broader.
        Triple-bind _ _ (get_scheme_keeps (Ready new c) concept.scheme_id)
          λ scheme. Triple-bind _ _ (delete_broader-Ready new c b) λ _. record { at = λ s h. h }

  add_broader_Acyclic :
      (c p : ℕ)
      → Triple (Ready (some p) c) (add_broader actor c p) (λ _. BothAcyclic) (λ _. BothAcyclic)
  unfolding add_broader
  add_broader_Acyclic c p =
      Triple-bind _ _ (Triple-fail _ (λ e s h. h.0) (get_concept_keeps (Ready (some p) c) c))
        λ concept.
          Triple-bind _ _ (Triple-fail _ (λ e s h. h.0) (get_concept_keeps (Ready (some p) c) p))
            λ broader.
              Triple-bind _ _
                (Triple-fail _ (λ e s h. h.0)
                  (get_scheme_keeps (Ready (some p) c) concept.scheme_id))
                λ scheme. Triple-bind _ _ (insert_broader_Acyclic c p) λ _. record { at = λ s h. h }

  drop_previous-Ready :
      (new previous : Option ℕ) (c : ℕ)
      → Triple (Ready new c) (drop_previous actor previous c) (λ _. Ready new c) (λ _. Ready new c)
  unfolding drop_previous
  drop_previous-Ready new none c = record { at = λ s h. h }
  drop_previous-Ready new (some b) c = attempt_keeps _ _ (remove_broader-Ready new c b)

  add_new_Acyclic :
      (new : Option ℕ) (c : ℕ)
      → Triple (Ready new c) (add_new actor new c) (λ _. BothAcyclic) (λ _. BothAcyclic)
  unfolding add_new
  add_new_Acyclic none c = record { at = λ s h. h.0 }
  add_new_Acyclic (some p) c = attempt_keeps _ _ (add_broader_Acyclic c p)

refuse_clear :
    (c p : ℕ) (s : Session) (v : Option Bool)
    → is_descendant s.broader c p ≡ v
    → BothAcyclic s
    → Ensures
        (λ _ s. BothAcyclic s × (¬ Below s.broader c p))
        (λ _. BothAcyclic)
        (refuse v c p s).0
        (refuse v c p s).1
unfolding refuse
refuse_clear c p s none e h = h
refuse_clear c p s (some true) e h = h
refuse_clear c p s (some false) e h = (h, not-Below_of_missed s.broader c p e)

reject_descendant_clear :
    (c p : ℕ)
    → Triple BothAcyclic
        (reject_descendant c p)
        (λ _ s. BothAcyclic s × (¬ Below s.broader c p))
        (λ _. BothAcyclic)
unfolding reject_descendant
reject_descendant_clear c p = record {
  at = λ s h. refuse_clear c p s (is_descendant s.broader c p) refl h;
}

check_parent-Ready :
    (new : Option ℕ) (c : ℕ)
    → is_self new c ≡ false
    → Triple BothAcyclic (check_parent new c) (λ _. Ready new c) (λ _. BothAcyclic)
unfolding check_parent
check_parent-Ready none c other = record { at = λ s h. (h, tt) }
check_parent-Ready (some p) c other =
    Triple-bind _ _ (get_concept_keeps BothAcyclic p)
      λ _. Triple-after _ (λ _ s h. (h.0, (ground arith, h.1))) (reject_descendant_clear c p)

module _ (actor : Actor) where
  move_keeps :
      (c : ℕ) (new previous : Option ℕ)
      → Triple BothAcyclic (move_concept actor c new previous) (λ _. BothAcyclic) (λ _. BothAcyclic)
  unfolding move_concept
  move_keeps c new previous = Triple-bind _ _ (get_concept_keeps BothAcyclic c) λ _.
      Triple-bind _ _ (Triple-raise_if BothAcyclic (is_self new c) (self_reference c))
        λ _. record { at = λ s (h, other). (rest other).at s h }
    where
      rest :
          is_self new c ≡ false
          → Triple BothAcyclic
              (check_parent new c >>= λ _.
                drop_previous actor previous c >>= λ _. add_new actor new c >>= λ _. get_concept c)
              (λ _. BothAcyclic)
              (λ _. BothAcyclic)
      rest other = Triple-bind _ _ (check_parent-Ready new c other) λ _.
          Triple-bind _ _ (Triple-fail _ (λ e s h. h.0) (drop_previous-Ready actor new previous c))
            λ _. Triple-bind _ _ (add_new_Acyclic actor new c) λ _. get_concept_keeps BothAcyclic c

  -- A move request, whatever its arguments and its outcome, leaves a hierarchy without cycles
  -- without cycles.
  pub move-Acyclic :
      (c : ℕ) (new previous : Option ℕ) (db : Db)
      → Acyclic db.broader
      → Acyclic (request (move_concept actor c new previous) db).1.broader
  move-Acyclic c new previous =
      request_keeps (λ db. Acyclic db.broader) (move_concept actor c new previous)
        (move_keeps c new previous)
