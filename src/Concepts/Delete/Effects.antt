-- ===== src/Concepts/Delete/Effects.antt =====
-- What a deletion that goes through leaves in the tables and in the audit log.
use taxonomy_builder.Common.{
  filter_same, ℕ, ◌≡◌, refl, ◌∙◌, ap, Bool, true, false, not, ◌&&◌, ◌||◌, text, Option, none, some,
  List, [], ◌∷◌, ◌++◌, map, filter, find, any, all, ok, ◌==◌, arith,
}
use mathlib.Core.List.{append_assoc}
use taxonomy_builder.Models.Vocabulary.{Concept, ConceptScheme}
use taxonomy_builder.Models.Activity.{ChangeEvent, Comment}
use taxonomy_builder.Models.Session.{Db, Session, request}
use taxonomy_builder.Tracker.{Actor, event, serialize_concept}
use taxonomy_builder.Concepts.Delete.{
  is_narrower, is_broader, in_related, answers, without_concept, delete_concept,
}
use taxonomy_builder.Concepts.Delete.Events.{
  broader_known, related_known, broader_deleted, related_deleted, with_events, log_broader_lem,
  log_narrower_lem, log_related_lem,
}

all-filter {ℓ} :
    {A : Type ℓ} (p keep : A → Bool) (xs : List A)
    → all p xs ≡ true
    → all (λ x. p x && keep x) (filter keep xs) ≡ true
all-filter p keep [] h = refl
all-filter p keep (x ∷ xs) h = ground (arith, all-filter p keep xs)

abbrev answers_to : ℕ → Option ℕ → Bool
answers_to k none = false
answers_to k (some parent) = k == parent

-- a comment on the concept, or a reply to one
abbrev pub hangs_on : ℕ → List Comment → Comment → Bool
hangs_on c comments x =
    x.concept_id == c
    || any (λ y. answers_to y.id x.parent_comment_id && y.concept_id == c) comments

answers_lem :
    (comments : List Comment) (c : ℕ) (o : Option ℕ)
    → answers comments c o ≡ any (λ y. answers_to y.id o && y.concept_id == c) comments
answers_lem [] c none = refl
answers_lem (x ∷ xs) c none = answers_lem xs c none
answers_lem comments c (some parent) = refl

module _ (actor : Actor) (db : Db) (concept : Concept) (scheme : ConceptScheme) where
  -- the rows to log: where the concept is the narrower, where it is the broader, where it is related
  abbrev pub deletion_events : List ChangeEvent
  deletion_events =
      map (broader_deleted actor scheme.project_id db.concepts concept)
        (filter (λ r. r.concept_id == concept.id) db.broader)
      ++ map (broader_deleted actor scheme.project_id db.concepts concept)
          (filter (λ r. r.broader_concept_id == concept.id) db.broader)
      ++ map (related_deleted actor scheme.project_id db.concepts concept) (
          filter (λ r. r.concept_id == concept.id || r.related_concept_id == concept.id) db.related)
      ++ event actor scheme.project_id (text "concept") concept.id (text "delete")
          (some (serialize_concept concept)) none (some concept.scheme_id)
        ∷ []

  pub delete_concept_done :
      find (λ x. x.id == concept.id) db.concepts ≡ some concept
      → find (λ x. x.id == concept.scheme_id) db.schemes ≡ some scheme
      → all (broader_known db.concepts) db.broader ≡ true
      → all (related_known db.concepts) db.related ≡ true
      → request (delete_concept actor concept.id) db
        ≡ (ok tt, record (without_concept concept.id db) { events = db.events ++ deletion_events })
  unfolding request delete_concept
  delete_concept_done found in_scheme broader related =
      let start : Session = record { tables = db; committed = db } in
      let narrower_rows = filter (is_narrower concept.id) db.broader in
      let broader_rows = filter (is_broader concept.id) db.broader in
      let related_rows = filter (in_related concept.id) db.related in
      let es = map (broader_deleted actor scheme.project_id db.concepts concept) narrower_rows in
      let fs = map (broader_deleted actor scheme.project_id db.concepts concept) broader_rows in
      let p =
        log_broader_lem actor scheme.project_id concept narrower_rows start found
          (all-filter _ _ db.broader broader) in
      let q =
        log_narrower_lem actor scheme.project_id concept broader_rows (with_events start es) found
          (all-filter _ _ db.broader broader) in
      let r =
        log_related_lem actor scheme.project_id concept related_rows
          (with_events (with_events start es) fs) found (all-filter _ _ db.related related) in
      rw (found, in_scheme, p, q, r) (simp append_assoc refl)

  -- Where the rows of the two join tables refer to concepts that are there, deleting an existing
  -- concept of an existing scheme goes through. The concept goes, with the rows of the join tables
  -- that name it, the comments on it and the replies to those; no other row does. The log gets, in
  -- this order, a "delete" event for each row where it was the narrower, for each where it was the
  -- broader and for each where it was related, with the identifiers and labels of both concepts, and
  -- one for the concept itself.
  pub delete_concept_ok :
      find (λ x. x.id == concept.id) db.concepts ≡ some concept
      → find (λ x. x.id == concept.scheme_id) db.schemes ≡ some scheme
      → all (broader_known db.concepts) db.broader ≡ true
      → all (related_known db.concepts) db.related ≡ true
      → request (delete_concept actor concept.id) db ≡ (
        ok tt,
        record db {
          concepts = filter (λ x. not (x.id == concept.id)) db.concepts;
          broader =
              filter
                (λ r. not (r.concept_id == concept.id || r.broader_concept_id == concept.id))
                db.broader;
          related =
              filter
                (λ r. not (r.concept_id == concept.id || r.related_concept_id == concept.id))
                db.related;
          comments = filter (λ x. not (hangs_on concept.id db.comments x)) db.comments;
          events = db.events ++ deletion_events;
        },
      )
  delete_concept_ok found in_scheme broader related =
      delete_concept_done found in_scheme broader related
      ∙ ap
          (λ rows. (
            ok tt,
            record (without_concept concept.id db) {
              comments = rows;
              events = db.events ++ deletion_events;
            },
          ))
          (filter_same _ _ db.comments (λ x.
            ap (λ b. not (x.concept_id == concept.id || b))
              (answers_lem db.comments concept.id x.parent_comment_id)))
