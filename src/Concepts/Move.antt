-- ===== src/Concepts/Move.antt =====
-- `ConceptService.move_concept`.
pub mod Hierarchy
pub mod Effects
use taxonomy_builder.Common.{
  ℕ, Bool, true, false, Option, none, some, Result, ok, raise, raise_if, if◌then◌else◌, pure, throw,
  ◌>>=◌, ◌>>◌, ◌==◌,
}
use taxonomy_builder.Models.Vocabulary.{Concept}
use taxonomy_builder.Models.Session.{Session}
use taxonomy_builder.Tracker.{Actor}
use taxonomy_builder.Hierarchy.{is_descendant}
use taxonomy_builder.Concepts.{
  Error, Service, get_concept, self_reference, cycle_detected, diverges,
  broader_relationship_exists, broader_relationship_not_found,
}
use taxonomy_builder.Concepts.Broader.{add_broader, remove_broader}

-- `new_parent_id == concept_id`
abbrev pub is_self : Option ℕ → ℕ → Bool
is_self none concept_id = false
is_self (some p) concept_id = p == concept_id

-- `if await self._is_descendant(...): raise CycleDetectedError`
unfoldable pub refuse : Option Bool → ℕ → ℕ → Service (Unit {0})
refuse none concept_id parent_id = throw diverges
refuse (some true) concept_id parent_id = throw (cycle_detected concept_id parent_id)
refuse (some false) concept_id parent_id = pure tt

unfoldable pub reject_descendant : ℕ → ℕ → Service (Unit {0})
unfolding refuse
reject_descendant concept_id parent_id s =
    refuse (is_descendant s.broader concept_id parent_id) concept_id parent_id s

unfoldable pub check_parent : Option ℕ → ℕ → Service (Unit {0})
unfolding get_concept reject_descendant
check_parent none concept_id = pure tt
check_parent (some p) concept_id = do get_concept p; reject_descendant concept_id p

-- `except BroaderRelationshipNotFoundError: pass`, and the same for the other exception
abbrev pub is_missing : Error → Bool
is_missing (broader_relationship_not_found c b) = true
is_missing _ = false

abbrev pub is_existing : Error → Bool
is_existing (broader_relationship_exists c b) = true
is_existing _ = false

abbrev pub ignore : (Error → Bool) → Result Error (Unit {0}) → Result Error (Unit {0})
ignore expected (ok u) = ok u
ignore expected (raise e) = if expected e then ok tt else raise e

-- `try: m except expected: pass`; what `m` left in the session stays
abbrev pub attempt : (Error → Bool) → Service (Unit {0}) → Service (Unit {0})
attempt expected m s = let (r, s') = m s in (ignore expected r, s')

module _ (actor : Actor) where
  unfoldable pub drop_previous : Option ℕ → ℕ → Service (Unit {0})
  drop_previous none concept_id = pure tt
  drop_previous (some p) concept_id = attempt is_missing (remove_broader actor concept_id p)

  unfoldable pub add_new : Option ℕ → ℕ → Service (Unit {0})
  add_new none concept_id = pure tt
  add_new (some p) concept_id = attempt is_existing (add_broader actor concept_id p)

  unfoldable pub move_concept : ℕ → Option ℕ → Option ℕ → Service Concept
  unfolding get_concept check_parent drop_previous add_new
  move_concept concept_id new_parent_id previous_parent_id = do
    get_concept concept_id
    raise_if (is_self new_parent_id concept_id) (self_reference concept_id)
    check_parent new_parent_id concept_id
    drop_previous previous_parent_id concept_id
    add_new new_parent_id concept_id
    get_concept concept_id
