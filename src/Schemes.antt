-- ===== src/Schemes.antt =====
-- `ConceptSchemeService` of backend/src/taxonomy_builder/services/concept_scheme_service.py.
pub mod Resolved
use taxonomy_builder.Common.{
  ℕ, Bool, true, false, not, ◌&&◌, ◌||◌, Option, none, some, List, [], ◌∷◌, ◌++◌, Text, text,
  text_eq, optional_eq, ◌==◌, if◌then◌else◌, find, filter, any, map, Exec, ok, raise, pure,
  or_raise, ◌>>=◌, ◌>>◌, text_before,
}
use taxonomy_builder.Common.Sort.{order_by}
use taxonomy_builder.Models.Vocabulary.{Project, ConceptScheme, Concept, Property}
use taxonomy_builder.Models.Activity.{ChangeEvent, Comment}
use taxonomy_builder.Models.Session.{Db, Session, rollback}
use taxonomy_builder.Tracker.{Actor, event, record_change, serialize_scheme}

pub data SchemeError : Type 0 where
  scheme_not_found : ℕ → SchemeError
  scheme_title_exists : Text → ℕ → SchemeError
  project_not_found : ℕ → SchemeError
  scheme_referenced_by_property : ℕ → Text → SchemeError

abbrev pub Service : Type 0 → Type 0
Service = Exec Session SchemeError

pub record ConceptSchemeCreate : Type 0 where
  pub title : Text
  pub description : Option Text
  pub uri : Option Text

pub record ConceptSchemeUpdate : Type 0 where
  pub title : Option Text
  pub description : Option Text
  pub uri : Option Text

-- `_get_project`
pub get_project : ℕ → Service Project
get_project project_id s =
    or_raise (project_not_found project_id) (find (λ p. p.id == project_id) s.projects) s

pub get_scheme : ℕ → Service ConceptScheme
get_scheme scheme_id s =
    or_raise (scheme_not_found scheme_id) (find (λ x. x.id == scheme_id) s.schemes) s

unfoldable pub list_schemes_for_project : ℕ → Service (List ConceptScheme)
unfolding get_project
list_schemes_for_project project_id s =
    (do
      project ← get_project project_id
      pure (
          order_by (λ a b. text_before a.title b.title)
            (filter (λ x. x.project_id == project_id) s.schemes)))
      s

-- `uq_scheme_title_per_project`, for another row
abbrev pub same_title : ConceptScheme → ConceptScheme → Bool
same_title row x =
    not (x.id == row.id) && x.project_id == row.project_id && text_eq x.title row.title

-- an insertion of the row
unfoldable pub insert_scheme : ConceptScheme → Service (Unit {0})
insert_scheme row s =
    if any (same_title row) s.schemes
    then (raise (scheme_title_exists row.title row.project_id), rollback s)
    else (ok tt, record s { tables = record s.tables { schemes = s.schemes ++ row ∷ [] } })

abbrev pub replace_scheme : ConceptScheme → List ConceptScheme → List ConceptScheme
replace_scheme row [] = []
replace_scheme row (x ∷ rows) =
    if x.id == row.id then row ∷ replace_scheme row rows else x ∷ replace_scheme row rows

abbrev text_or_empty : Option Text → Text
text_or_empty none = []
text_or_empty (some t) = t

-- the row written back, with the title of the request
unfoldable pub write_scheme : ConceptScheme → Option Text → Service (Unit {0})
write_scheme row title s =
    if any (same_title row) s.schemes
    then (raise (scheme_title_exists (text_or_empty title) row.project_id), rollback s)
    else (ok tt, record s { tables = record s.tables { schemes = replace_scheme row s.schemes } })

-- the concepts of the scheme
abbrev pub is_gone : Db → ℕ → ℕ → Bool
is_gone db scheme_id k = any (λ (c : Concept). c.id == k && c.scheme_id == scheme_id) db.concepts

abbrev answers_gone : Db → ℕ → Option ℕ → Bool
answers_gone db scheme_id none = false
answers_gone db scheme_id (some parent) =
    any (λ (x : Comment). x.id == parent && is_gone db scheme_id x.concept_id) db.comments

abbrev clear_scheme : ℕ → Option ℕ → Option ℕ
clear_scheme scheme_id none = none
clear_scheme scheme_id (some id) = if id == scheme_id then none else some id

-- The deletion with its cascades: the concepts go with their rows in the join tables and their
-- comments (replies have no replies), and events lose the reference (ON DELETE SET NULL).
abbrev pub without_scheme : ℕ → Db → Db
without_scheme scheme_id db = record db {
  schemes = filter (λ x. not (x.id == scheme_id)) db.schemes;
  concepts = filter (λ c. not (c.scheme_id == scheme_id)) db.concepts;
  broader =
      filter
        (λ r. not (is_gone db scheme_id r.concept_id || is_gone db scheme_id r.broader_concept_id))
        db.broader;
  related =
      filter
        (λ r. not (is_gone db scheme_id r.concept_id || is_gone db scheme_id r.related_concept_id))
        db.related;
  comments =
      filter
        (λ x.
          not (is_gone db scheme_id x.concept_id || answers_gone db scheme_id x.parent_comment_id))
        db.comments;
  events =
      map {A = ChangeEvent} (λ e. record e { scheme_id = clear_scheme scheme_id e.scheme_id })
        db.events;
}

abbrev pub is_range : ℕ → Option ℕ → Bool
is_range scheme_id none = false
is_range scheme_id (some id) = id == scheme_id

-- a property whose range is the scheme
abbrev pub ranges_over : ℕ → Property → Bool
ranges_over scheme_id p = is_range scheme_id p.range_scheme_id

-- `db.delete(scheme); db.flush()`, where the range of a property restricts
unfoldable pub erase_scheme : ℕ → Text → Service (Unit {0})
erase_scheme scheme_id title s =
    if any (ranges_over scheme_id) s.properties
    then (raise (scheme_referenced_by_property scheme_id title), rollback s)
    else (ok tt, record s { tables = without_scheme scheme_id s.tables })

module _ (actor : Actor) where
  abbrev pub new_scheme : ℕ → ℕ → ConceptSchemeCreate → ConceptScheme
  new_scheme new_id project_id scheme_in = record {
    id = new_id;
    project_id = project_id;
    title = scheme_in.title;
    description = scheme_in.description;
    uri = scheme_in.uri;
    created_at = actor.now;
    updated_at = actor.now;
  }

  unfoldable pub create_scheme : ℕ → ℕ → ConceptSchemeCreate → Service ConceptScheme
  unfolding get_project insert_scheme
  create_scheme new_id project_id scheme_in = do
    project ← get_project project_id
    insert_scheme (new_scheme new_id project_id scheme_in)
    record_change (
        event actor project_id (text "concept_scheme") new_id (text "create") none
          (some (serialize_scheme (new_scheme new_id project_id scheme_in))) (some new_id))
    pure (new_scheme new_id project_id scheme_in)

  abbrev or_old : {A : Type 0} → Option A → A → A
  or_old none old = old
  or_old (some new) old = new

  abbrev or_kept : Option Text → Option Text → Option Text
  or_kept none old = old
  or_kept (some new) old = some new

  -- the fields that are not None, `updated_at` aside
  abbrev edited_scheme : ConceptSchemeUpdate → ConceptScheme → ConceptScheme
  edited_scheme u x = record x {
    title = or_old u.title x.title;
    description = or_kept u.description x.description;
    uri = or_kept u.uri x.uri;
  }

  abbrev pub updated_scheme : ConceptSchemeUpdate → ConceptScheme → ConceptScheme
  updated_scheme u x =
      let row = edited_scheme u x in
      if text_eq x.title row.title
        && optional_eq x.description row.description
        && optional_eq x.uri row.uri
      then row
      else record row { updated_at = actor.now }

  unfoldable pub update_scheme : ℕ → ConceptSchemeUpdate → Service ConceptScheme
  unfolding get_scheme write_scheme
  update_scheme scheme_id scheme_in = do
    scheme ← get_scheme scheme_id
    write_scheme (updated_scheme scheme_in scheme) scheme_in.title
    record_change (
        event actor scheme.project_id (text "concept_scheme") scheme.id (text "update")
          (some (serialize_scheme scheme))
          (some (serialize_scheme (updated_scheme scheme_in scheme))) (some scheme.id))
    pure (updated_scheme scheme_in scheme)

  unfoldable pub delete_scheme : ℕ → Service (Unit {0})
  unfolding get_scheme erase_scheme
  delete_scheme scheme_id = do
    scheme ← get_scheme scheme_id
    record_change (
        event actor scheme.project_id (text "concept_scheme") scheme_id (text "delete")
          (some (serialize_scheme scheme)) none (some scheme_id))
    erase_scheme scheme_id scheme.title
