-- ===== src/Concepts/Delete.antt =====
-- `ConceptService.delete_concept`: the audit events of every row that goes, then the deletion with
-- its cascades.
pub mod Events
pub mod Effects
pub mod Closed
use taxonomy_builder.Common.{
  ℕ, Bool, true, false, not, ◌&&◌, ◌||◌, Text, text, Option, none, some, List, [], ◌∷◌, ◌++◌,
  filter, any, ok, pure, ◌>>=◌, ◌>>◌, ◌==◌, ltb, if◌then◌else◌,
}
use taxonomy_builder.Models.Vocabulary.{Concept, ConceptScheme, ConceptBroader, ConceptRelated}
use taxonomy_builder.Models.Activity.{State, Comment}
use taxonomy_builder.Models.Session.{Db, Session}
use taxonomy_builder.Tracker.{
  Actor, event, record_change, serialize_concept, serialize_broader, serialize_related,
}
use taxonomy_builder.Concepts.{Service, get_concept, get_scheme}

module _ (actor : Actor) (project_id scheme_id : ℕ) (concept : Concept) where
  -- the loop over the rows where the concept is the narrower
  unfoldable pub log_broader : List ConceptBroader → Service (Unit {0})
  log_broader [] = pure tt
  log_broader (rel ∷ rels) = do
    broader ← get_concept rel.broader_concept_id
    record_change (
        event actor project_id (text "concept_broader") rel.concept_id (text "delete")
          (some (
            serialize_broader rel.concept_id rel.broader_concept_id concept.pref_label
              broader.pref_label))
          none (some scheme_id))
    log_broader rels

  -- the loop over the rows where the concept is the broader
  unfoldable pub log_narrower : List ConceptBroader → Service (Unit {0})
  log_narrower [] = pure tt
  log_narrower (rel ∷ rels) = do
    narrower ← get_concept rel.concept_id
    record_change (
        event actor project_id (text "concept_broader") rel.concept_id (text "delete")
          (some (
            serialize_broader rel.concept_id rel.broader_concept_id narrower.pref_label
              concept.pref_label))
          none (some scheme_id))
    log_narrower rels

  abbrev pub other_id : ConceptRelated → ℕ
  other_id rel = if rel.concept_id == concept.id then rel.related_concept_id else rel.concept_id

  -- `id1, label1` and `id2, label2` by the order of the identifiers
  abbrev pub related_state : ConceptRelated → Concept → Option State
  related_state rel other = some (
      if ltb rel.concept_id rel.related_concept_id
      then serialize_related rel.concept_id rel.related_concept_id
          (if rel.concept_id == concept.id then concept.pref_label else other.pref_label)
          (if rel.concept_id == concept.id then other.pref_label else concept.pref_label)
      else serialize_related rel.related_concept_id rel.concept_id
          (if rel.related_concept_id == concept.id then concept.pref_label else other.pref_label)
          (if rel.related_concept_id == concept.id then other.pref_label else concept.pref_label))

  unfoldable pub log_related : List ConceptRelated → Service (Unit {0})
  log_related [] = pure tt
  log_related (rel ∷ rels) = do
    other ← get_concept (other_id rel)
    record_change (
        event actor project_id (text "concept_related") concept.id (text "delete")
          (related_state rel other) none (some scheme_id))
    log_related rels

abbrev pub is_narrower : ℕ → ConceptBroader → Bool
is_narrower c rel = rel.concept_id == c

abbrev pub is_broader : ℕ → ConceptBroader → Bool
is_broader c rel = rel.broader_concept_id == c

abbrev pub in_related : ℕ → ConceptRelated → Bool
in_related c rel = rel.concept_id == c || rel.related_concept_id == c

-- the comments that go with the concept: its own, and the replies to those (replies have no replies)
abbrev pub answers : List Comment → ℕ → Option ℕ → Bool
answers comments c none = false
answers comments c (some parent) = any (λ x. x.id == parent && x.concept_id == c) comments

abbrev pub goes_with : List Comment → ℕ → Comment → Bool
goes_with comments c x = x.concept_id == c || answers comments c x.parent_comment_id

-- `db.delete(concept); db.flush()`, with ON DELETE CASCADE
abbrev pub without_concept : ℕ → Db → Db
without_concept c db = record db {
  concepts = filter (λ x. not (x.id == c)) db.concepts;
  broader = filter (λ x. not (is_narrower c x || is_broader c x)) db.broader;
  related = filter (λ x. not (in_related c x)) db.related;
  comments = filter (λ x. not (goes_with db.comments c x)) db.comments;
}

unfoldable pub erase_concept : ℕ → Service (Unit {0})
erase_concept c s = (ok tt, record s { tables = without_concept c s.tables })

unfoldable pub delete_concept : Actor → ℕ → Service (Unit {0})
unfolding get_concept get_scheme erase_concept
delete_concept actor concept_id s =
    (do
      concept ← get_concept concept_id
      scheme ← get_scheme concept.scheme_id
      log_broader actor scheme.project_id concept.scheme_id concept
          (filter (is_narrower concept_id) s.broader)
      log_narrower actor scheme.project_id concept.scheme_id concept
          (filter (is_broader concept_id) s.broader)
      log_related actor scheme.project_id concept.scheme_id concept
          (filter (in_related concept_id) s.related)
      erase_concept concept_id
      record_change (
          event actor scheme.project_id (text "concept") concept_id (text "delete")
            (some (serialize_concept concept)) none (some concept.scheme_id)))
      s
