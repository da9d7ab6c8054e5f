-- ===== src/Concepts/Delete/Closed.antt =====
-- A deletion leaves no reference to the concept, and no dangling reference to a concept or comment.
use taxonomy_builder.Common.{
  all-kept, ℕ, ◌≡◌, refl, ◌∙◌, true, false, not, ◌&&◌, ◌||◌, Option, none, some, List, [], ◌∷◌,
  filter, find, all, ◌==◌, arith,
}
use taxonomy_builder.Models.Vocabulary.{Concept, ConceptScheme, ConceptBroader, ConceptRelated}
use taxonomy_builder.Models.Session.{Db, request}
use taxonomy_builder.Tracker.{Actor}
use taxonomy_builder.Projects.Delete.References.{is_none, optional, top_level_known, stays_for}
use taxonomy_builder.Concepts.Delete.{
  is_narrower, is_broader, in_related, answers, goes_with, without_concept, delete_concept,
}
use taxonomy_builder.Concepts.Delete.Events.{known, broader_known, related_known}
use taxonomy_builder.Concepts.Delete.Effects.{delete_concept_done}

-- The foreign keys to concepts and to comments; a reply moreover answers a comment that is no reply.
pub record IsClosed (db : Db) : Type 0 where
  pub broader : all (broader_known db.concepts) db.broader ≡ true
  pub related : all (related_known db.concepts) db.related ≡ true
  pub comments : all (λ x. known db.concepts x.concept_id) db.comments ≡ true
  pub parents : all (λ x. optional (top_level_known db) x.parent_comment_id) db.comments ≡ true

known-removed :
    (concepts : List Concept) (c x : ℕ)
    → known (filter (λ y. not (y.id == c)) concepts) x ≡ (known concepts x && not (x == c))
known-removed [] c x = refl
known-removed (y ∷ ys) c x = ground (arith, known-removed ys c x)

abbrev without : ℕ → List Concept → List Concept
without c = filter (λ y. not (y.id == c))

broader_row_closed :
    (concepts : List Concept) (c : ℕ) (rel : ConceptBroader)
    → broader_known concepts rel ≡ true
    → not (is_narrower c rel || is_broader c rel) ≡ true
    → broader_known (without c concepts) rel ≡ true
broader_row_closed concepts c rel h k =
    rw (known-removed concepts c rel.concept_id, known-removed concepts c rel.broader_concept_id)
      (ground arith)

related_row_closed :
    (concepts : List Concept) (c : ℕ) (rel : ConceptRelated)
    → related_known concepts rel ≡ true
    → not (in_related c rel) ≡ true
    → related_known (without c concepts) rel ≡ true
related_row_closed concepts c rel h k =
    rw (known-removed concepts c rel.concept_id, known-removed concepts c rel.related_concept_id)
      (ground arith)

module _ (db : Db) (c : ℕ) where
  answers_none : (o : Option ℕ) → is_none o ≡ true → answers db.comments c o ≡ false
  answers_none none h = refl
  answers_none (some k) h = absurd cc

  parent_stays :
      (o : Option ℕ)
      → optional (top_level_known db) o ≡ true
      → answers db.comments c o ≡ false
      → optional (top_level_known (without_concept c db)) o ≡ true
  parent_stays none h e = refl
  parent_stays (some k) h e =
      stays_for (λ x. x.id == k) (λ x. is_none x.parent_comment_id) (λ x. x.concept_id == c)
        (goes_with db.comments c) db.comments
        (λ x top. ground (arith, answers_none x.parent_comment_id top)) h e

  without_concept-IsClosed : IsClosed db → IsClosed (without_concept c db)
  without_concept-IsClosed h = record {
    broader = all-kept _ _ _ db.broader (broader_row_closed db.concepts c) h.broader;
    related = all-kept _ _ _ db.related (related_row_closed db.concepts c) h.related;
    comments =
        all-kept _ _ _ db.comments
          (λ x k e. known-removed db.concepts c x.concept_id ∙ ground arith) h.comments;
    parents =
        all-kept _ _ _ db.comments (λ x k e. parent_stays x.parent_comment_id k (ground arith))
          h.parents;
  }

module _ (actor : Actor) (db : Db) (concept : Concept) (scheme : ConceptScheme) where
  -- Take tables in which the join tables and the comments refer to concepts that are there, and
  -- every reply answers a comment that is there and is no reply. Deleting an existing concept of an
  -- existing scheme leaves tables of which the same holds, and in which the concept is gone.
  pub delete-IsClosed :
      find (λ x. x.id == concept.id) db.concepts ≡ some concept
      → find (λ x. x.id == concept.scheme_id) db.schemes ≡ some scheme
      → IsClosed db
      → IsClosed (request (delete_concept actor concept.id) db).1
        × (known (request (delete_concept actor concept.id) db).1.concepts concept.id ≡ false)
  delete-IsClosed found in_scheme closed =
      let e =
        delete_concept_done actor db concept scheme found in_scheme closed.broader closed.related in
      let after = without_concept-IsClosed db concept.id closed in
      rw e (
        record {
          broader = after.broader;
          related = after.related;
          comments = after.comments;
          parents = after.parents;
        },
        known-removed db.concepts concept.id concept.id ∙ ground arith,
      )
