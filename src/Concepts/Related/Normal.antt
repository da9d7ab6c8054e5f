-- ===== src/Concepts/Related/Normal.antt =====
-- What holds of the rows of `concept_related`: the smaller identifier first, and no pair twice.
use taxonomy_builder.Common.{
  ℕ, ◌<◌, ◌≡◌, refl, inl, inr, Bool, false, not, List, [], ◌∷◌, ◌++◌, filter, any, ◌==◌, Bool-cases,
  arith, Triple, Triple-bind, Triple-fail, Triple-after, Triple-raise_if,
}
use taxonomy_builder.Models.Vocabulary.{ConceptRelated}
use taxonomy_builder.Models.Session.{Db, Session, Both, request, request_keeps}
use taxonomy_builder.Tracker.{Actor}
use taxonomy_builder.Concepts.{related_self_reference, related_same_scheme}
use taxonomy_builder.Concepts.Rules.{get_concept_keeps, get_scheme_keeps}
use taxonomy_builder.Concepts.Related.{
  same_related, smaller, larger, insert_related, delete_related, add_related, remove_related,
}

abbrev pub Normal : List ConceptRelated → Type 0
Normal [] = Unit {0}
Normal (rel ∷ rels) =
    (rel.concept_id < rel.related_concept_id)
    × (any (same_related rel.concept_id rel.related_concept_id) rels ≡ false)
    × Normal rels

any-filter :
    (a b : ℕ) (keep : ConceptRelated → Bool) (rels : List ConceptRelated)
    → any (same_related a b) rels ≡ false
    → any (same_related a b) (filter keep rels) ≡ false
any-filter a b keep [] h = h
any-filter a b keep (rel ∷ rels) h = ground (arith, any-filter a b keep rels)

pub Normal-filter :
    (keep : ConceptRelated → Bool) (rels : List ConceptRelated)
    → Normal rels
    → Normal (filter keep rels)
Normal-filter keep [] h = tt
Normal-filter keep (rel ∷ rels) (lt, fresh, rest) = elim (Bool-cases (keep rel)) [
  | inl e ↦ rw e (
    lt,
    any-filter rel.concept_id rel.related_concept_id keep rels fresh,
    Normal-filter keep rels rest,
  )
  | inr e ↦ rw e (Normal-filter keep rels rest)
]

any-append_row :
    (c d a b : ℕ) (rels : List ConceptRelated)
    → any (same_related c d) rels ≡ false
    → any (same_related a b) rels ≡ false
    → (c ≡ a → d ≡ b → ⊥)
    → any (same_related c d) (rels ++ record { concept_id = a; related_concept_id = b } ∷ [])
      ≡ false
any-append_row c d a b [] h k ne = ground (arith, ne)
any-append_row c d a b (rel ∷ rels) h k ne = ground (arith, any-append_row c d a b rels)

Normal-append :
    (a b : ℕ) (rels : List ConceptRelated)
    → a < b
    → any (same_related a b) rels ≡ false
    → Normal rels
    → Normal (rels ++ record { concept_id = a; related_concept_id = b } ∷ [])
Normal-append a b [] lt fresh h = (lt, refl, tt)
Normal-append a b (rel ∷ rels) lt fresh (lt', alone, rest) = (
  lt',
  any-append_row rel.concept_id rel.related_concept_id a b rels alone (ground arith)
      (λ p q. ground arith),
  Normal-append a b rels lt (ground arith) rest,
)

abbrev pub HasNormal : Session → Type 0
HasNormal = Both (λ db. Normal db.related)

ordered_pair : (a b : ℕ) → (a == b) ≡ false → smaller a b < larger a b
ordered_pair a b h = ground arith

insert_related_Normal :
    (a b : ℕ)
    → Triple
        (λ s. HasNormal s × ((a == b) ≡ false))
        (insert_related a b)
        (λ _. HasNormal)
        (λ _. HasNormal)
unfolding insert_related
insert_related_Normal a b = record {
  at = λ s ((now, back), ne).
      elim (Bool-cases (any (same_related (smaller a b) (larger a b)) s.related)) [
        | inl e ↦ rw e (back, back)
        | inr e ↦ rw e (Normal-append _ _ s.related (ordered_pair a b ne) e now, back)
      ];
}

delete_related_Normal :
    (a b : ℕ) → Triple HasNormal (delete_related a b) (λ _. HasNormal) (λ _. HasNormal)
unfolding delete_related
delete_related_Normal a b = record {
  at = λ s (now, back).
      elim (Bool-cases (any (same_related (smaller a b) (larger a b)) s.related)) [
        | inl e ↦ rw e (Normal-filter _ s.related now, back)
        | inr e ↦ rw e (now, back)
      ];
}

module _ (actor : Actor) (a b : ℕ) where
  abbrev Apart : Session → Type 0
  Apart s = HasNormal s × ((a == b) ≡ false)

  add_related_keeps : Triple HasNormal (add_related actor a b) (λ _. HasNormal) (λ _. HasNormal)
  unfolding add_related
  add_related_keeps =
      Triple-bind _ _ (Triple-raise_if HasNormal (a == b) (related_self_reference a)) λ _.
        Triple-bind _ _ (Triple-fail _ (λ e s h. h.0) (get_concept_keeps Apart a)) λ concept.
          Triple-bind _ _ (Triple-fail _ (λ e s h. h.0) (get_concept_keeps Apart b)) λ related.
            Triple-bind _ _
              (Triple-fail _ (λ e s h. h.0)
                (Triple-after _ (λ _ s h. h.0)
                  (Triple-raise_if Apart (not (concept.scheme_id == related.scheme_id))
                    (related_same_scheme a b))))
              λ _.
                Triple-bind _ _
                  (Triple-fail _ (λ e s h. h.0) (get_scheme_keeps Apart concept.scheme_id))
                  λ _. Triple-bind _ _ (insert_related_Normal a b) λ _. record { at = λ s h. h }

  remove_related_keeps :
      Triple HasNormal (remove_related actor a b) (λ _. HasNormal) (λ _. HasNormal)
  unfolding remove_related
  remove_related_keeps = Triple-bind _ _ (get_concept_keeps HasNormal a) λ concept.
      Triple-bind _ _ (get_concept_keeps HasNormal b) λ related.
        Triple-bind _ _ (get_scheme_keeps HasNormal concept.scheme_id)
          λ _. Triple-bind _ _ (delete_related_Normal a b) λ _. record { at = λ s h. h }

  -- Both requests, whatever their outcome, keep every stored pair in order and no pair twice.
  pub related-Normal :
      (db : Db)
      → Normal db.related
      → Normal (request (add_related actor a b) db).1.related
        × Normal (request (remove_related actor a b) db).1.related
  related-Normal db h = (
    request_keeps (λ d. Normal d.related) (add_related actor a b) add_related_keeps db h,
    request_keeps (λ d. Normal d.related) (remove_related actor a b) remove_related_keeps db h,
  )
