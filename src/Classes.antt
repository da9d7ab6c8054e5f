-- ===== src/Classes.antt =====
-- `OntologyClassService` of backend/src/taxonomy_builder/services/ontology_class_service.py.
pub mod References
use taxonomy_builder.Common.{
  ℕ, Bool, true, false, not, ◌&&◌, ◌||◌, Option, none, some, List, [], ◌∷◌, ◌++◌, Text, text,
  text_eq, optional_eq, is_empty, strip, ◌==◌, if◌then◌else◌, find, filter, any, Exec, Result, ok,
  raise, pure, or_raise, raise_if, ◌>>=◌, ◌>>◌,
}
use taxonomy_builder.Models.Vocabulary.{Project, OntologyClass, Property, PropertyDomainClass}
use taxonomy_builder.Models.Activity.{Json, State}
use taxonomy_builder.Models.Session.{Db, Session, rollback}
use taxonomy_builder.Tracker.{Actor, event, record_change, text_or_null}
use taxonomy_builder.Properties.{computed_uri}

pub data ClassError : Type 0 where
  project_not_found : ℕ → ClassError
  class_identifier_exists : Text → ℕ → ClassError
  class_uri_exists : Text → ℕ → ClassError
  class_referenced_by_property : ℕ → Text → ClassError

abbrev pub Service : Type 0 → Type 0
Service = Exec Session ClassError

pub record OntologyClassCreate : Type 0 where
  pub identifier : Text
  pub label : Text
  pub description : Option Text
  pub scope_note : Option Text
  pub uri : Option Text

-- the fields that a request sets; those that may be null have a second option
pub record OntologyClassUpdate : Type 0 where
  pub identifier : Option Text
  pub label : Option Text
  pub description : Option (Option Text)
  pub scope_note : Option (Option Text)

-- `_serialize_ontology_class`
unfoldable pub serialize_ontology_class : OntologyClass → State
serialize_ontology_class c =
    (text "id", Json.uuid c.id)
    ∷ (text "identifier", Json.string c.identifier)
    ∷ (text "label", Json.string c.label)
    ∷ (text "description", text_or_null c.description)
    ∷ (text "scope_note", text_or_null c.scope_note)
    ∷ (text "uri", Json.string c.uri)
    ∷ []

pub get_project : ℕ → Service Project
get_project project_id s =
    or_raise (project_not_found project_id) (find (λ p. p.id == project_id) s.projects) s

abbrev class_uri : Project → Text → Option Text → Text
class_uri project identifier none = computed_uri project identifier
class_uri project identifier (some u) = if is_empty u then computed_uri project identifier else u

-- `uq_ontology_class_identifier_per_project` and `uq_ontology_classes_project_uri`, for another row
abbrev pub same_identifier : OntologyClass → OntologyClass → Bool
same_identifier row x =
    not (x.id == row.id) && x.project_id == row.project_id && text_eq x.identifier row.identifier

abbrev pub same_uri : OntologyClass → OntologyClass → Bool
same_uri row x = not (x.id == row.id) && x.project_id == row.project_id && text_eq x.uri row.uri

-- a flush that writes the classes, unless a constraint refuses the row
unfoldable pub flush_classes : OntologyClass → List OntologyClass → Service (Unit {0})
flush_classes row classes s =
    if any (same_identifier row) s.classes
    then (raise (class_identifier_exists row.identifier row.project_id), rollback s)
    else if any (same_uri row) s.classes
    then (raise (class_uri_exists row.uri row.project_id), rollback s)
    else (ok tt, record s { tables = record s.tables { classes = classes } })

abbrev replace_class : OntologyClass → List OntologyClass → List OntologyClass
replace_class row [] = []
replace_class row (x ∷ rows) =
    if x.id == row.id then row ∷ replace_class row rows else x ∷ replace_class row rows

abbrev pub find_class : Session → ℕ → Option OntologyClass
find_class s class_id = find (λ c. c.id == class_id) s.classes

-- a property that has the class in its domain
abbrev pub in_domain : List PropertyDomainClass → ℕ → Bool
in_domain rows class_id = any (λ r. r.class_id == class_id) rows

abbrev has_range : Text → Option Text → Bool
has_range uri none = false
has_range uri (some u) = text_eq u uri

-- a property of the project that has the class as its range
abbrev pub in_range : List Property → OntologyClass → Bool
in_range properties c =
    any (λ p. p.project_id == c.project_id && has_range c.uri p.range_class) properties

-- `db.delete(ontology_class); db.flush()`, with its cascades
unfoldable pub erase_class : ℕ → Service (Unit {0})
erase_class class_id s = (
  ok tt,
  record s {
    tables = record s.tables {
      classes = filter (λ c. not (c.id == class_id)) s.classes;
      superclasses =
          filter (λ r. not (r.class_id == class_id || r.superclass_id == class_id)) s.superclasses;
      restrictions = filter (λ r. not (r.class_id == class_id)) s.restrictions;
      domain_classes = filter (λ r. not (r.class_id == class_id)) s.domain_classes;
    };
  },
)

module _ (actor : Actor) where
  abbrev log_class : ℕ → ℕ → Text → Option State → Option State → Service (Unit {0})
  log_class project_id class_id action before after =
      record_change
        (event actor project_id (text "ontology_class") class_id action before after none)

  abbrev pub new_class : ℕ → ℕ → Project → OntologyClassCreate → OntologyClass
  new_class new_id project_id project class_in = record {
    id = new_id;
    project_id = project_id;
    identifier = class_in.identifier;
    label = class_in.label;
    description = class_in.description;
    scope_note = class_in.scope_note;
    uri = class_uri project class_in.identifier class_in.uri;
    created_at = actor.now;
    updated_at = actor.now;
  }

  abbrev add_class : OntologyClass → Service (Unit {0})
  add_class row s = flush_classes row (s.classes ++ row ∷ []) s

  unfoldable pub create_ontology_class : ℕ → ℕ → OntologyClassCreate → Service OntologyClass
  unfolding get_project flush_classes
  create_ontology_class new_id project_id class_in = do
    project ← get_project project_id
    add_class (new_class new_id project_id project class_in)
    log_class project_id new_id (text "create") none
        (some (serialize_ontology_class (new_class new_id project_id project class_in)))
    pure (new_class new_id project_id project class_in)

  abbrev or_old : {A : Type 0} → Option A → A → A
  or_old none old = old
  or_old (some new) old = new

  -- the updates applied, `updated_at` aside
  abbrev edited_class : OntologyClassUpdate → OntologyClass → OntologyClass
  edited_class u c = record c {
    identifier = or_old u.identifier c.identifier;
    label = or_old u.label c.label;
    description = or_old u.description c.description;
    scope_note = or_old u.scope_note c.scope_note;
  }

  abbrev pub updated_class : OntologyClassUpdate → OntologyClass → OntologyClass
  updated_class u c =
      let row = edited_class u c in
      if text_eq c.identifier row.identifier
        && text_eq c.label row.label
        && optional_eq c.description row.description
        && optional_eq c.scope_note row.scope_note
      then row
      else record row { updated_at = actor.now }

  abbrev put_class : OntologyClass → Service (Unit {0})
  put_class row s = flush_classes row (replace_class row s.classes) s

  abbrev update_where : OntologyClassUpdate → Option OntologyClass → Service (Option OntologyClass)
  update_where u none = pure none
  update_where u (some c) = do
    put_class (updated_class u c)
    log_class c.project_id c.id (text "update") (some (serialize_ontology_class c))
        (some (serialize_ontology_class (updated_class u c)))
    pure (some (updated_class u c))

  unfoldable pub update_ontology_class : ℕ → OntologyClassUpdate → Service (Option OntologyClass)
  unfolding flush_classes
  update_ontology_class class_id u s = update_where u (find_class s class_id) s

  -- the two tests for references, which read the tables
  abbrev pub check_unreferenced : ℕ → OntologyClass → Service (Unit {0})
  check_unreferenced class_id c s =
      raise_if (in_domain s.domain_classes class_id || in_range s.properties c)
        (class_referenced_by_property class_id c.label) s

  abbrev pub delete_where : ℕ → Option OntologyClass → Service Bool
  delete_where class_id none = pure false
  delete_where class_id (some c) = do
    check_unreferenced class_id c
    erase_class c.id
    log_class c.project_id c.id (text "delete") (some (serialize_ontology_class c)) none
    pure true

  unfoldable pub delete_ontology_class : ℕ → Service Bool
  unfolding erase_class
  delete_ontology_class class_id s = delete_where class_id (find_class s class_id) s
