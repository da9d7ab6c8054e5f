-- ===== src/Schemes/Resolved.antt =====
-- The references to schemes and concepts resolve.
use taxonomy_builder.Common.{
  all-kept, all-weaken, ℕ, ◌≡◌, refl, ◌∙◌, inl, inr, Bool, true, false, not, ◌&&◌, Option, none,
  some, List, [], ◌∷◌, ◌++◌, Text, text, ◌==◌, find, filter, any, all, Bool-cases, arith, Triple,
  Triple-bind, Triple-or_raise, Triple-after, Triple-pure,
}
use taxonomy_builder.Models.Vocabulary.{ConceptScheme, Concept, Property}
use taxonomy_builder.Models.Activity.{ChangeEvent}
use taxonomy_builder.Models.Session.{Db, Session, Both, request, request_keeps}
use taxonomy_builder.Tracker.{Actor, event, record_change, serialize_scheme}
use taxonomy_builder.Concepts.Delete.Events.{known, broader_known, related_known}
use taxonomy_builder.Schemes.{
  SchemeError, ConceptSchemeCreate, ConceptSchemeUpdate, scheme_not_found, project_not_found,
  get_project, get_scheme, same_title, insert_scheme, replace_scheme, write_scheme, without_scheme,
  ranges_over, is_range, erase_scheme, new_scheme, create_scheme, updated_scheme, update_scheme,
  delete_scheme,
}

abbrev scheme_known : List ConceptScheme → ℕ → Bool
scheme_known schemes k = any (λ x. x.id == k) schemes

abbrev range_known : List ConceptScheme → Option ℕ → Bool
range_known schemes none = true
range_known schemes (some k) = scheme_known schemes k

-- the foreign keys between schemes, concepts, their relations and the ranges of properties
pub record IsResolved (db : Db) : Type 0 where
  pub concepts : all (λ c. scheme_known db.schemes c.scheme_id) db.concepts ≡ true
  pub ranges : all (λ p. range_known db.schemes p.range_scheme_id) db.properties ≡ true
  pub broader : all (broader_known db.concepts) db.broader ≡ true
  pub related : all (related_known db.concepts) db.related ≡ true

abbrev Good : Session → Type 0
Good = Both IsResolved

-- more schemes, with the ids that there were
more_schemes :
    (db : Db) (schemes : List ConceptScheme)
    → ((k : ℕ) → scheme_known db.schemes k ≡ true → scheme_known schemes k ≡ true)
    → IsResolved db
    → IsResolved (record db { schemes = schemes })
more_schemes db schemes more h = record {
  concepts = all-weaken _ _ db.concepts (λ c. more c.scheme_id) h.concepts;
  ranges = all-weaken _ _ db.properties (λ p. range p.range_scheme_id) h.ranges;
  broader = h.broader;
  related = h.related;
}
  where
    range : (o : Option ℕ) → range_known db.schemes o ≡ true → range_known schemes o ≡ true
    range none e = refl
    range (some k) e = more k e

known-append :
    (row : ConceptScheme) (xs : List ConceptScheme) (k : ℕ)
    → scheme_known xs k ≡ true
    → scheme_known (xs ++ row ∷ []) k ≡ true
known-append row [] k h = cc
known-append row (x ∷ xs) k h = ground (arith, known-append row xs k)

known-replace :
    (row : ConceptScheme) (xs : List ConceptScheme) (k : ℕ)
    → scheme_known xs k ≡ true
    → scheme_known (replace_scheme row xs) k ≡ true
known-replace row [] k h = h
known-replace row (x ∷ xs) k h = ground (arith, known-replace row xs k)

known-removed :
    (xs : List ConceptScheme) (c k : ℕ)
    → scheme_known (filter (λ x. not (x.id == c)) xs) k ≡ (scheme_known xs k && not (k == c))
known-removed [] c k = refl
known-removed (x ∷ xs) c k = ground (arith, known-removed xs c k)

-- a concept of another scheme stays
concept-stays :
    (concepts : List Concept) (scheme_id k : ℕ)
    → known concepts k ≡ true
    → any (λ (c : Concept). c.id == k && c.scheme_id == scheme_id) concepts ≡ false
    → known (filter (λ c. not (c.scheme_id == scheme_id)) concepts) k ≡ true
concept-stays [] scheme_id k h gone = h
concept-stays (c ∷ concepts) scheme_id k h gone = ground (arith, concept-stays concepts scheme_id k)

not_range :
    (schemes : List ConceptScheme) (scheme_id : ℕ) (o : Option ℕ)
    → range_known schemes o ≡ true
    → is_range scheme_id o ≡ false
    → range_known (filter (λ x. not (x.id == scheme_id)) schemes) o ≡ true
not_range schemes scheme_id none h e = refl
not_range schemes scheme_id (some k) h e = known-removed schemes scheme_id k ∙ ground arith

ranges_kept :
    (schemes : List ConceptScheme) (scheme_id : ℕ) (properties : List Property)
    → any (ranges_over scheme_id) properties ≡ false
    → all (λ p. range_known schemes p.range_scheme_id) properties ≡ true
    → all
        (λ p. range_known (filter (λ x. not (x.id == scheme_id)) schemes) p.range_scheme_id)
        properties
      ≡ true
ranges_kept schemes scheme_id [] none_over h = refl
ranges_kept schemes scheme_id (p ∷ properties) none_over h =
    ground (
      arith,
      not_range schemes scheme_id p.range_scheme_id,
      ranges_kept schemes scheme_id properties,
    )

without_scheme-IsResolved :
    (db : Db) (scheme_id : ℕ)
    → any (ranges_over scheme_id) db.properties ≡ false
    → IsResolved db
    → IsResolved (without_scheme scheme_id db)
without_scheme-IsResolved db scheme_id none_over h = record {
  concepts =
      all-kept _ _ _ db.concepts
        (λ c k kept. known-removed db.schemes scheme_id c.scheme_id ∙ ground arith) h.concepts;
  ranges = ranges_kept db.schemes scheme_id db.properties none_over h.ranges;
  broader =
      all-kept _ _ _ db.broader
        (λ r k kept.
          both (concept-stays db.concepts scheme_id r.concept_id (ground arith) (ground arith)) (
            concept-stays db.concepts scheme_id r.broader_concept_id (ground arith) (ground arith)))
        h.broader;
  related =
      all-kept _ _ _ db.related
        (λ r k kept.
          both (concept-stays db.concepts scheme_id r.concept_id (ground arith) (ground arith)) (
            concept-stays db.concepts scheme_id r.related_concept_id (ground arith) (ground arith)))
        h.related;
}
  where
    both : {a b : Bool} → a ≡ true → b ≡ true → (a && b) ≡ true
    both p q = rw (p, q) refl

get_project_keeps : (project_id : ℕ) → Triple Good (get_project project_id) (λ _. Good) (λ _. Good)
unfolding get_project
get_project_keeps project_id =
    Triple-after _ (λ _ s h. h.0)
      (Triple-or_raise Good (project_not_found project_id)
        (λ s. find (λ p. p.id == project_id) s.projects))

get_scheme_keeps : (scheme_id : ℕ) → Triple Good (get_scheme scheme_id) (λ _. Good) (λ _. Good)
unfolding get_scheme
get_scheme_keeps scheme_id =
    Triple-after _ (λ _ s h. h.0)
      (Triple-or_raise Good (scheme_not_found scheme_id)
        (λ s. find (λ x. x.id == scheme_id) s.schemes))

-- events are no foreign keys here
log_keeps :
    (e : ChangeEvent) → Triple {E = SchemeError} Good (record_change e) (λ _. Good) (λ _. Good)
log_keeps e = record {
  at = λ s (now, back). (
    record {
      concepts = now.concepts;
      ranges = now.ranges;
      broader = now.broader;
      related = now.related;
    },
    back,
  );
}

insert_scheme_keeps :
    (row : ConceptScheme) → Triple Good (insert_scheme row) (λ _. Good) (λ _. Good)
unfolding insert_scheme
insert_scheme_keeps row = record {
  at = λ s (now, back). elim (Bool-cases (any (same_title row) s.schemes)) [
    | inl e ↦ rw e (back, back)
    | inr e ↦
        rw e (more_schemes s.tables (s.schemes ++ row ∷ []) (known-append row s.schemes) now, back)
  ];
}

write_scheme_keeps :
    (row : ConceptScheme) (title : Option Text)
    → Triple Good (write_scheme row title) (λ _. Good) (λ _. Good)
unfolding write_scheme
write_scheme_keeps row title = record {
  at = λ s (now, back). elim (Bool-cases (any (same_title row) s.schemes)) [
    | inl e ↦ rw e (back, back)
    | inr e ↦ rw e (
      more_schemes s.tables (replace_scheme row s.schemes) (known-replace row s.schemes) now,
      back,
    )
  ];
}

erase_scheme_keeps :
    (scheme_id : ℕ) (title : Text)
    → Triple Good (erase_scheme scheme_id title) (λ _. Good) (λ _. Good)
unfolding erase_scheme
erase_scheme_keeps scheme_id title = record {
  at = λ s (now, back). elim (Bool-cases (any (ranges_over scheme_id) s.properties)) [
    | inl e ↦ rw e (back, back)
    | inr e ↦ rw e (without_scheme-IsResolved s.tables scheme_id e now, back)
  ];
}

module _ (actor : Actor) where
  create_keeps :
      (new_id project_id : ℕ) (scheme_in : ConceptSchemeCreate)
      → Triple Good (create_scheme actor new_id project_id scheme_in) (λ _. Good) (λ _. Good)
  unfolding create_scheme
  create_keeps new_id project_id scheme_in =
      Triple-bind _ _ (get_project_keeps project_id) λ project.
        Triple-bind _ _ (insert_scheme_keeps (new_scheme actor new_id project_id scheme_in)) λ _.
          Triple-bind _ _
            (log_keeps (
              event actor project_id (text "concept_scheme") new_id (text "create") none
                (some (serialize_scheme (new_scheme actor new_id project_id scheme_in)))
                (some new_id)))
            λ _. Triple-pure (new_scheme actor new_id project_id scheme_in)

  update_keeps :
      (scheme_id : ℕ) (scheme_in : ConceptSchemeUpdate)
      → Triple Good (update_scheme actor scheme_id scheme_in) (λ _. Good) (λ _. Good)
  unfolding update_scheme
  update_keeps scheme_id scheme_in = Triple-bind _ _ (get_scheme_keeps scheme_id) λ scheme.
      Triple-bind _ _ (write_scheme_keeps (updated_scheme actor scheme_in scheme) scheme_in.title)
        λ _.
          Triple-bind _ _
            (log_keeps (
              event actor scheme.project_id (text "concept_scheme") scheme.id (text "update")
                (some (serialize_scheme scheme))
                (some (serialize_scheme (updated_scheme actor scheme_in scheme))) (some scheme.id)))
            λ _. Triple-pure (updated_scheme actor scheme_in scheme)

  delete_keeps :
      (scheme_id : ℕ) → Triple Good (delete_scheme actor scheme_id) (λ _. Good) (λ _. Good)
  unfolding delete_scheme
  delete_keeps scheme_id = Triple-bind _ _ (get_scheme_keeps scheme_id) λ scheme.
      Triple-bind _ _
        (log_keeps (
          event actor scheme.project_id (text "concept_scheme") scheme_id (text "delete")
            (some (serialize_scheme scheme)) none (some scheme_id)))
        λ _. erase_scheme_keeps scheme_id scheme.title

  -- Where every concept has its scheme, every relation its concepts, and every range that is a scheme
  -- its scheme, this is so after creating, updating and deleting a scheme, whatever the outcome.
  pub write-IsResolved :
      (db : Db) (new_id project_id scheme_id : ℕ) (scheme_in : ConceptSchemeCreate)
      (update_in : ConceptSchemeUpdate)
      → IsResolved db
      → IsResolved (request (create_scheme actor new_id project_id scheme_in) db).1
        × IsResolved (request (update_scheme actor scheme_id update_in) db).1
        × IsResolved (request (delete_scheme actor scheme_id) db).1
  write-IsResolved db new_id project_id scheme_id scheme_in update_in h = (
    request_keeps IsResolved _ (create_keeps new_id project_id scheme_in) db h,
    request_keeps IsResolved _ (update_keeps scheme_id update_in) db h,
    request_keeps IsResolved _ (delete_keeps scheme_id) db h,
  )
