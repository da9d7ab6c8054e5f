-- ===== src/Concepts/Broader.antt =====
-- The broader relation: `add_broader` and `remove_broader`.
pub mod Branches
pub mod Cycles
use taxonomy_builder.Common.{
  ℕ, Bool, true, false, not, ◌&&◌, text, none, some, [], ◌∷◌, ◌++◌, filter, any, ok, raise, ◌>>=◌,
  ◌>>◌, ◌==◌, if◌then◌else◌,
}
use taxonomy_builder.Models.Vocabulary.{Concept, ConceptScheme, ConceptBroader}
use taxonomy_builder.Models.Session.{Session, rollback}
use taxonomy_builder.Tracker.{Actor, event, record_change, serialize_broader}
use taxonomy_builder.Concepts.{
  Service, get_concept, get_scheme, broader_relationship_exists, broader_relationship_not_found,
}

abbrev pub same_pair : ℕ → ℕ → ConceptBroader → Bool
same_pair concept_id broader_id rel =
    rel.concept_id == concept_id && rel.broader_concept_id == broader_id

-- `db.add(rel); db.flush()` with the handler of `IntegrityError`: the primary key is the pair
unfoldable pub insert_broader : ℕ → ℕ → Service (Unit {0})
insert_broader c b s =
    if any (same_pair c b) s.broader
    then (raise (broader_relationship_exists c b), rollback s)
    else (
      ok tt,
      record s {
        tables = record s.tables {
          broader = s.broader ++ record { concept_id = c; broader_concept_id = b } ∷ [];
        };
      },
    )

unfoldable pub delete_broader : ℕ → ℕ → Service (Unit {0})
delete_broader c b s =
    if any (same_pair c b) s.broader
    then (
      ok tt,
      record s {
        tables = record s.tables { broader = filter (λ x. not (same_pair c b x)) s.broader };
      },
    )
    else (raise (broader_relationship_not_found c b), s)

module _ (actor : Actor) where
  unfoldable pub add_broader : ℕ → ℕ → Service (Unit {0})
  unfolding get_concept get_scheme insert_broader
  add_broader concept_id broader_id = do
    concept ← get_concept concept_id
    broader ← get_concept broader_id
    scheme ← get_scheme concept.scheme_id
    insert_broader concept_id broader_id
    record_change (
        event actor scheme.project_id (text "concept_broader") concept_id (text "create") none
          (some (serialize_broader concept_id broader_id concept.pref_label broader.pref_label))
          (some concept.scheme_id))

  unfoldable pub remove_broader : ℕ → ℕ → Service (Unit {0})
  unfolding get_concept get_scheme delete_broader
  remove_broader concept_id broader_id = do
    concept ← get_concept concept_id
    broader ← get_concept broader_id
    scheme ← get_scheme concept.scheme_id
    delete_broader concept_id broader_id
    record_change (
        event actor scheme.project_id (text "concept_broader") concept_id (text "delete")
          (some (serialize_broader concept_id broader_id concept.pref_label broader.pref_label))
          none (some concept.scheme_id))
