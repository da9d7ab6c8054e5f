-- ===== src/Projects/Edit.antt =====
-- `create_project` and `update_project` of `ProjectService`. `message` is the text of the driver for a
-- unique constraint and the value that is there.
use taxonomy_builder.Projects.Input.{ProjectCreate, ProjectUpdate}
use taxonomy_builder.Common.{
  ℕ, Bool, true, false, not, ◌&&◌, ◌||◌, Option, none, some, List, [], ◌∷◌, ◌++◌, Text, text,
  text_eq, optional_eq, ◌==◌, if◌then◌else◌, any, Exec, Result, ok, raise, pure, ◌>>=◌, ◌>>◌,
}
use taxonomy_builder.Models.Vocabulary.{Project}
use taxonomy_builder.Models.Activity.{Json, State}
use taxonomy_builder.Models.Session.{Session, rollback}
use taxonomy_builder.Tracker.{Actor, event, record_change, text_or_null}
use taxonomy_builder.Projects.{
  ProjectError, get_project, check_prefix_mutable, has_prefix_concepts, with_projects,
}

-- `integrity_error` is the database's own error, which the service does not turn into another
pub data EditError : Type 0 where
  project_error : ProjectError → EditError
  project_name_exists : Text → EditError
  project_namespace_exists : Text → EditError
  integrity_error : EditError

abbrev pub Service : Type 0 → Type 0
Service = Exec Session EditError

abbrev pub of_project :
    {A : Type 0} → Result ProjectError A × Session → Result EditError A × Session
of_project (ok a, s) = (ok a, s)
of_project (raise e, s) = (raise (project_error e), s)

-- `_serialize_project`
unfoldable pub serialize_project : Project → State
serialize_project p =
    (text "id", Json.uuid p.id)
    ∷ (text "name", Json.string p.name)
    ∷ (text "description", text_or_null p.description)
    ∷ (text "namespace", Json.string p.namespace)
    ∷ (text "identifier_prefix", Json.string p.identifier_prefix)
    ∷ (text "identifier_counter", Json.integer p.identifier_counter)
    ∷ []

-- the unique columns, for another row
abbrev pub same_name : Project → Project → Bool
same_name row p = not (p.id == row.id) && text_eq p.name row.name

abbrev pub same_namespace : Project → Project → Bool
same_namespace row p = not (p.id == row.id) && text_eq p.namespace row.namespace

abbrev pub replace_project : Project → List Project → List Project
replace_project row [] = []
replace_project row (p ∷ rows) =
    if p.id == row.id then row ∷ replace_project row rows else p ∷ replace_project row rows

abbrev starts : Text → Text → Bool
starts [] t = true
starts (c ∷ s) [] = false
starts (c ∷ s) (d ∷ t) = c == d && starts s t

-- `s in t`
abbrev pub is_part : Text → Text → Bool
is_part s [] = starts s []
is_part s (d ∷ t) = starts s (d ∷ t) || is_part s t

abbrev or_empty : Option Text → Text
or_empty none = []
or_empty (some t) = t

-- the flush of a row, where the table becomes `rows`; an error that is not handled
unfoldable pub flush_early : Project → List Project → Service (Unit {0})
flush_early row rows s =
    if any (same_name row) s.projects || any (same_namespace row) s.projects
    then (raise integrity_error, rollback s)
    else (ok tt, with_projects rows s)

abbrev or_old : {A : Type 0} → Option A → A → A
or_old none old = old
or_old (some new) old = new

-- all fields but the prefix
abbrev pub edited_project : ProjectUpdate → Project → Project
edited_project u p = record p {
  name = or_old u.name p.name;
  description = or_old u.description p.description;
  namespace = or_old u.namespace p.namespace;
}

abbrev is_set : {A : Type 0} → Option A → Bool
is_set none = false
is_set (some x) = true

-- an HttpUrl is not equal to the string that is stored, so that a namespace that is set is written
abbrev is_changed : ProjectUpdate → Project → Bool
is_changed u p =
    not (text_eq (or_old u.name p.name) p.name)
    || not (optional_eq (or_old u.description p.description) p.description)
    || is_set u.namespace

-- `project_in.identifier_prefix != project.identifier_prefix`
abbrev pub new_prefix : ProjectUpdate → Project → Option Text
new_prefix u p = elim u.identifier_prefix [
  | none ↦ none
  | some t ↦ if text_eq t p.identifier_prefix then none else some t
]

-- `_enrich_prefix_locked`
abbrev pub is_locked : Project → Service Bool
is_locked p s = (ok (has_prefix_concepts s.tables p.id p.identifier_prefix), s)

module _ (actor : Actor) where
  abbrev pub log_project : ℕ → Text → Option State → Option State → Service (Unit {0})
  log_project project_id action before after =
      record_change (event actor project_id (text "project") project_id action before after none)

  abbrev pub new_project : ℕ → ProjectCreate → Project
  new_project new_id p = record {
    id = new_id;
    name = p.name;
    description = p.description;
    namespace = p.namespace;
    created_at = actor.now;
    updated_at = actor.now;
    identifier_prefix = p.identifier_prefix;
    identifier_counter = 0;
    namespace_prefixes = [];
    named_individuals = [];
  }

  abbrev pub touched : Bool → Project → Project
  touched changed p = if changed then record p { updated_at = actor.now } else p

  -- the row that is flushed without the prefix, and the row with another prefix
  abbrev pub edited_row : ProjectUpdate → Project → Project
  edited_row u p = touched (is_changed u p) (edited_project u p)

  abbrev pub with_prefix : Text → Project → Project
  with_prefix prefix p = touched true (record p { identifier_prefix = prefix })

module _ (message : Text → Text → Text) where
  abbrev pub unique_error : Text → Text → (name namespace : Text) → EditError
  unique_error constraint value name namespace =
      if is_part (text "namespace") (message constraint value)
      then project_namespace_exists namespace
      else project_name_exists name

  -- the flush inside `try`, which checks the name first
  unfoldable pub flush_project :
      Project → List Project → (name namespace : Text) → Service (Unit {0})
  flush_project row rows name namespace s =
      if any (same_name row) s.projects
      then (raise (unique_error (text "projects_name_key") row.name name namespace), rollback s)
      else if any (same_namespace row) s.projects
      then (
        raise (unique_error (text "uq_project_namespace") row.namespace name namespace),
        rollback s,
      )
      else (ok tt, with_projects rows s)

  module _ (actor : Actor) where
    abbrev pub insert_project : Project → (name namespace : Text) → Service (Unit {0})
    insert_project row name namespace s =
        flush_project row (s.projects ++ row ∷ []) name namespace s

    -- the row and its `prefix_locked`
    unfoldable pub create_project : ℕ → ProjectCreate → Service (Project × Bool)
    unfolding flush_project
    create_project new_id project_in = do
      insert_project (new_project actor new_id project_in) project_in.name project_in.namespace
      log_project actor new_id (text "create") none
          (some (serialize_project (new_project actor new_id project_in)))
      pure (new_project actor new_id project_in, false)

    abbrev pub written : Project → (name namespace : Text) → Service (Unit {0})
    written row name namespace s =
        flush_project row (replace_project row s.projects) name namespace s

    -- a SELECT writes what is pending first
    abbrev pub prefix_mutable : Project → Project → Service (Unit {0})
    prefix_mutable row p s =
        (do
          flush_early row (replace_project row s.projects)
          λ t. of_project (check_prefix_mutable p.id p.identifier_prefix t))
          s

    abbrev pub write_update : ProjectUpdate → Project → Option Text → Service Project
    write_update u p none = do
      written (edited_row actor u p) (or_empty u.name) (or_empty u.namespace)
      pure (edited_row actor u p)
    write_update u p (some prefix) = do
      prefix_mutable (edited_row actor u p) p
      written (with_prefix actor prefix (edited_row actor u p)) (or_empty u.name)
          (or_empty u.namespace)
      pure (with_prefix actor prefix (edited_row actor u p))

    unfoldable pub update_project : ℕ → ProjectUpdate → Service (Project × Bool)
    unfolding get_project check_prefix_mutable flush_early flush_project has_prefix_concepts
    update_project project_id project_in = do
      project ← λ s. of_project (get_project project_id s)
      row ← write_update project_in project (new_prefix project_in project)
      log_project actor project.id (text "update") (some (serialize_project project))
          (some (serialize_project row))
      locked ← is_locked row
      pure (row, locked)
