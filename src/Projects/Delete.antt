-- ===== src/Projects/Delete.antt =====
-- `delete_project` of `ProjectService`, with its cascades.
pub mod References
pub mod Resolved
use taxonomy_builder.Common.{
  ℕ, Bool, true, false, not, ◌&&◌, ◌||◌, Option, none, some, List, Text, text, ◌==◌, if◌then◌else◌,
  any, filter, map, ok, raise, ◌>>=◌, ◌>>◌,
}
use taxonomy_builder.Models.Vocabulary.{Project, ConceptScheme, Concept, OntologyClass, Property}
use taxonomy_builder.Models.Activity.{ChangeEvent, Comment, PublishedVersion}
use taxonomy_builder.Models.Session.{Db, Session}
use taxonomy_builder.Tracker.{Actor, event, record_change}
use taxonomy_builder.Projects.{get_project}
use taxonomy_builder.Projects.Edit.{Service, of_project, integrity_error, serialize_project}

-- ON DELETE SET NULL
abbrev pub kept : (ℕ → Bool) → Option ℕ → Option ℕ
kept gone none = none
kept gone (some k) = if gone k then none else some k

-- what goes with the project
module _ (db : Db) (project_id : ℕ) where
  abbrev pub scheme_gone : ℕ → Bool
  scheme_gone k = any (λ (x : ConceptScheme). x.id == k && x.project_id == project_id) db.schemes

  abbrev pub concept_gone : ℕ → Bool
  concept_gone k = any (λ (c : Concept). c.id == k && scheme_gone c.scheme_id) db.concepts

  abbrev pub class_gone : ℕ → Bool
  class_gone k = any (λ (c : OntologyClass). c.id == k && c.project_id == project_id) db.classes

  abbrev pub property_gone : ℕ → Bool
  property_gone k = any (λ (p : Property). p.id == k && p.project_id == project_id) db.properties

  abbrev pub version_gone : ℕ → Bool
  version_gone k =
      any (λ (v : PublishedVersion). v.id == k && v.project_id == project_id) db.versions

  abbrev pub answers_gone : Option ℕ → Bool
  answers_gone none = false
  answers_gone (some parent) =
      any (λ (x : Comment). x.id == parent && concept_gone x.concept_id) db.comments

  abbrev pub in_gone_scheme : Option ℕ → Bool
  in_gone_scheme none = false
  in_gone_scheme (some k) = scheme_gone k

  -- a property of another project whose range is a scheme that goes; those of this one go first
  abbrev pub restricts : Property → Bool
  restricts p = not (p.project_id == project_id) && in_gone_scheme p.range_scheme_id

  -- Replies have no replies, so that one round finds the answers to a comment that goes.
  abbrev pub without_project : Db
  without_project = record db {
    projects = filter (λ (p : Project). not (p.id == project_id)) db.projects;
    schemes = filter (λ x. not (x.project_id == project_id)) db.schemes;
    concepts = filter (λ c. not (scheme_gone c.scheme_id)) db.concepts;
    broader =
        filter (λ r. not (concept_gone r.concept_id || concept_gone r.broader_concept_id))
          db.broader;
    related =
        filter (λ r. not (concept_gone r.concept_id || concept_gone r.related_concept_id))
          db.related;
    classes = filter (λ c. not (c.project_id == project_id)) db.classes;
    superclasses =
        filter (λ r. not (class_gone r.class_id || class_gone r.superclass_id)) db.superclasses;
    restrictions = filter (λ r. not (class_gone r.class_id)) db.restrictions;
    properties = filter (λ p. not (p.project_id == project_id)) db.properties;
    domain_classes =
        filter (λ r. not (property_gone r.property_id || class_gone r.class_id)) db.domain_classes;
    events =
        map {A = ChangeEvent}
          (λ e. record e {
            project_id = kept (λ k. k == project_id) e.project_id;
            scheme_id = kept scheme_gone e.scheme_id;
          })
          db.events;
    versions =
        map {A = PublishedVersion}
          (λ v. record v { previous_version_id = kept version_gone v.previous_version_id })
          (filter (λ v. not (v.project_id == project_id)) db.versions);
    feedback = filter (λ f. not (f.project_id == project_id)) db.feedback;
    comments =
        filter (λ x. not (concept_gone x.concept_id || answers_gone x.parent_comment_id))
          db.comments;
  }

-- `db.delete(project); db.flush()`
unfoldable pub erase_project : ℕ → Service (Unit {0})
erase_project project_id s =
    if any (restricts s.tables project_id) s.properties
    then (raise integrity_error, s)
    else (ok tt, record s { tables = without_project s.tables project_id })

unfoldable pub delete_project : Actor → ℕ → Service (Unit {0})
unfolding get_project erase_project serialize_project
delete_project actor project_id = do
  project ← λ s. of_project (get_project project_id s)
  record_change (
      event actor project_id (text "project") project_id (text "delete")
        (some (serialize_project project)) none none)
  erase_project project_id
