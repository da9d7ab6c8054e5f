-- ===== src/Concepts/Broader/Branches.antt =====
-- The branches of `add_broader` and `remove_broader` that the moves use.
use taxonomy_builder.Common.{
  ℕ, ◌≡◌, refl, true, false, not, text, none, some, [], ◌∷◌, ◌++◌, find, filter, any, ok, raise,
  ◌==◌,
}
use taxonomy_builder.Models.Vocabulary.{Concept, ConceptScheme}
use taxonomy_builder.Models.Activity.{ChangeEvent}
use taxonomy_builder.Models.Session.{Session, rollback}
use taxonomy_builder.Tracker.{Actor, event, serialize_broader}
use taxonomy_builder.Concepts.{broader_relationship_exists, broader_relationship_not_found}
use taxonomy_builder.Concepts.Broader.{same_pair, add_broader, remove_broader}

-- the rows that both methods read first
pub record Reads (s : Session) (c b : ℕ) (concept broader : Concept) (scheme : ConceptScheme)
    : Type 0 where
  pub concept_row : find (λ x. x.id == c) s.concepts ≡ some concept
  pub broader_row : find (λ x. x.id == b) s.concepts ≡ some broader
  pub scheme_row : find (λ x. x.id == concept.scheme_id) s.schemes ≡ some scheme

module _ (actor : Actor) (s : Session) (c b : ℕ) (concept broader : Concept)
    (scheme : ConceptScheme) where
  abbrev pub created : ChangeEvent
  created =
      event actor scheme.project_id (text "concept_broader") c (text "create") none
        (some (serialize_broader c b concept.pref_label broader.pref_label))
        (some concept.scheme_id)

  abbrev pub deleted : ChangeEvent
  deleted =
      event actor scheme.project_id (text "concept_broader") c (text "delete")
        (some (serialize_broader c b concept.pref_label broader.pref_label)) none
        (some concept.scheme_id)

  abbrev pub after_add : Session
  after_add = record s {
    tables = record s.tables {
      broader = s.broader ++ record { concept_id = c; broader_concept_id = b } ∷ [];
      events = s.events ++ created ∷ [];
    };
  }

  abbrev pub after_remove : Session
  after_remove = record s {
    tables = record s.tables {
      broader = filter (λ x. not (same_pair c b x)) s.broader;
      events = s.events ++ deleted ∷ [];
    };
  }

  module _ (reads : Reads s c b concept broader scheme) where
    pub add_broader_new :
        any (same_pair c b) s.broader ≡ false → add_broader actor c b s ≡ (ok tt, after_add)
    unfolding add_broader
    add_broader_new fresh = rw (reads.concept_row, reads.broader_row, reads.scheme_row, fresh) refl

    pub add_broader_again :
        any (same_pair c b) s.broader ≡ true
        → add_broader actor c b s ≡ (raise (broader_relationship_exists c b), rollback s)
    unfolding add_broader
    add_broader_again had = rw (reads.concept_row, reads.broader_row, reads.scheme_row, had) refl

    pub remove_broader_row :
        any (same_pair c b) s.broader ≡ true → remove_broader actor c b s ≡ (ok tt, after_remove)
    unfolding remove_broader
    remove_broader_row had = rw (reads.concept_row, reads.broader_row, reads.scheme_row, had) refl

    pub remove_broader_absent :
        any (same_pair c b) s.broader ≡ false
        → remove_broader actor c b s ≡ (raise (broader_relationship_not_found c b), s)
    unfolding remove_broader
    remove_broader_absent had =
        rw (reads.concept_row, reads.broader_row, reads.scheme_row, had) refl
