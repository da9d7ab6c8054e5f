-- ===== src/Concepts.antt =====
-- `ConceptService` of backend/src/taxonomy_builder/services/concept_service.py. Each method is an
-- action on the session; the actor (user and clock) is the service's own field.
mod Rules
pub mod Broader
pub mod Related
pub mod Move
pub mod Edit
pub mod Delete
pub mod Tree
use taxonomy_builder.Common.{
  ℕ, ◌≡◌, Bool, true, false, not, ◌&&◌, ◌||◌, Text, text, text_eq, optional_eq, Option, none, some,
  List, [], ◌∷◌, ◌++◌, filter, find, any, contains, Exec, Result, ok, raise, or_raise, raise_if,
  pure, throw, ◌>>=◌, ◌>>◌, ◌==◌, ltb, if◌then◌else◌,
}
use taxonomy_builder.Models.Vocabulary.{Concept, ConceptScheme, ConceptBroader, ConceptRelated}
use taxonomy_builder.Models.Session.{Db, Session, rollback}
use taxonomy_builder.Tracker.{
  Actor, event, record_change, serialize_concept, serialize_broader, serialize_related,
}
use taxonomy_builder.Hierarchy.{is_descendant}

-- The exceptions of the module. `integrity_error` is the database's own, where it is not caught;
-- `diverges` stands for a search that does not end, which no table can bring about.
pub data Error : Type 0 where
  concept_not_found : ℕ → Error
  scheme_not_found : ℕ → Error
  broader_relationship_exists : ℕ → ℕ → Error
  broader_relationship_not_found : ℕ → ℕ → Error
  cycle_detected : ℕ → ℕ → Error
  self_reference : ℕ → Error
  related_relationship_exists : ℕ → ℕ → Error
  related_relationship_not_found : ℕ → ℕ → Error
  related_self_reference : ℕ → Error
  related_same_scheme : ℕ → ℕ → Error
  integrity_error : Error
  diverges : Error

abbrev pub Service : Type 0 → Type 0
Service = Exec Session Error

pub get_scheme : ℕ → Service ConceptScheme
get_scheme scheme_id s =
    or_raise (scheme_not_found scheme_id) (find (λ x. x.id == scheme_id) s.schemes) s

pub get_concept : ℕ → Service Concept
get_concept concept_id s =
    or_raise (concept_not_found concept_id) (find (λ x. x.id == concept_id) s.concepts) s
