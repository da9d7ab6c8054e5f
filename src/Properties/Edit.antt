-- ===== src/Properties/Edit.antt =====
-- Changing and deleting properties: `update_property` and `delete_property`.
use taxonomy_builder.Common.{
  first_of_each, ℕ, Bool, true, false, not, ◌&&◌, ◌||◌, Option, none, some, List, [], ◌∷◌, ◌++◌,
  Text, text, text_eq, optional_eq, ◌==◌, if◌then◌else◌, find, filter, any, ok, raise, pure, ◌>>=◌,
  ◌>>◌,
}
use taxonomy_builder.Models.Vocabulary.{Property, PropertyDomainClass}
use taxonomy_builder.Models.Session.{Session, rollback}
use taxonomy_builder.Tracker.{Actor}
use taxonomy_builder.Properties.{
  property_identifier_exists, property_uri_exists, Service, infer_property_type, validate_range,
  resolve_domain_class_uris, same_identifier, same_uri, domain_rows, serialize_property,
  domain_uris, log_property,
}

-- the fields that a request sets; those that may be null have a second option
pub record PropertyUpdate : Type 0 where
  pub identifier : Option Text
  pub label : Option Text
  pub description : Option (Option Text)
  pub domain_class_uris : Option (List Text)
  pub range_scheme_id : Option (Option ℕ)
  pub range_datatype : Option (Option Text)
  pub range_class : Option (Option Text)
  pub cardinality : Option Text
  pub required : Option Bool

abbrev pub or_old : {A : Type 0} → Option A → A → A
or_old none old = old
or_old (some new) old = new

abbrev pub is_set : {A : Type 0} → Option A → Bool
is_set none = false
is_set (some x) = true

-- `range_fields & update_data.keys()`
abbrev pub sets_range : PropertyUpdate → Bool
sets_range u = is_set u.range_scheme_id || is_set u.range_datatype || is_set u.range_class

-- the updates applied, `updated_at` aside
abbrev pub edited_property : PropertyUpdate → Property → Property
edited_property u p = record p {
  identifier = or_old u.identifier p.identifier;
  label = or_old u.label p.label;
  description = or_old u.description p.description;
  range_scheme_id = or_old u.range_scheme_id p.range_scheme_id;
  range_datatype = or_old u.range_datatype p.range_datatype;
  range_class = or_old u.range_class p.range_class;
  property_type =
      if sets_range u
      then infer_property_type (or_old u.range_datatype p.range_datatype)
      else p.property_type;
  cardinality = or_old u.cardinality p.cardinality;
  required = or_old u.required p.required;
}

abbrev same_id : Option ℕ → Option ℕ → Bool
same_id none none = true
same_id (some m) (some n) = m == n
same_id _ _ = false

abbrev same_flag : Bool → Bool → Bool
same_flag true b = b
same_flag false b = not b

abbrev pub unchanged : Property → Property → Bool
unchanged p q =
    text_eq p.identifier q.identifier
    && text_eq p.label q.label
    && optional_eq p.description q.description
    && same_id p.range_scheme_id q.range_scheme_id
    && optional_eq p.range_datatype q.range_datatype
    && optional_eq p.range_class q.range_class
    && text_eq p.property_type q.property_type
    && text_eq p.cardinality q.cardinality
    && same_flag p.required q.required

abbrev pub replace_property : Property → List Property → List Property
replace_property row [] = []
replace_property row (x ∷ rows) =
    if x.id == row.id then row ∷ replace_property row rows else x ∷ replace_property row rows

-- the domain classes where they are set: the old rows go, the new ones come
abbrev set_domain : ℕ → Option (List ℕ) → List PropertyDomainClass → List PropertyDomainClass
set_domain property_id none rows = rows
set_domain property_id (some classes) rows =
    filter (λ r. not (r.property_id == property_id)) rows ++ domain_rows property_id classes

unfoldable pub write_property : Property → Option (List ℕ) → Service (Unit {0})
write_property row classes s =
    if any (same_identifier row) s.properties
    then (raise (property_identifier_exists row.identifier row.project_id), rollback s)
    else if any (same_uri row) s.properties
    then (raise (property_uri_exists row.uri row.project_id), rollback s)
    else (
      ok tt,
      record s {
        tables = record s.tables {
          properties = replace_property row s.properties;
          domain_classes = set_domain row.id classes s.domain_classes;
        };
      },
    )

-- `if range_fields & update_data.keys()`
unfoldable pub check_range : PropertyUpdate → Property → Service (Unit {0})
unfolding validate_range
check_range u p =
    if sets_range u
    then validate_range p.project_id (or_old u.range_scheme_id p.range_scheme_id)
        (or_old u.range_datatype p.range_datatype) (or_old u.range_class p.range_class)
    else pure tt

unfoldable pub find_new_domain : ℕ → Option (List Text) → Service (Option (List ℕ))
unfolding resolve_domain_class_uris
find_new_domain project_id none = pure none
find_new_domain project_id (some uris) = do
  classes ← resolve_domain_class_uris project_id uris
  pure (some classes)

-- the URIs after the update
abbrev pub new_uris : Option (List Text) → List Text → List Text
new_uris none old = old
new_uris (some uris) old = first_of_each [] uris

unfoldable pub erase_property : ℕ → Service (Unit {0})
erase_property property_id s = (
  ok tt,
  record s {
    tables = record s.tables {
      properties = filter (λ p. not (p.id == property_id)) s.properties;
      domain_classes = filter (λ r. not (r.property_id == property_id)) s.domain_classes;
    };
  },
)

abbrev pub find_property : Session → ℕ → Option Property
find_property s property_id = find (λ p. p.id == property_id) s.properties

module _ (actor : Actor) where
  abbrev pub updated_property : PropertyUpdate → Property → Property
  updated_property u p =
      let row = edited_property u p in
      if unchanged p row then row else record row { updated_at = actor.now }

  -- the part of `update_property` after its row is found; `old` holds the URIs before
  unfoldable pub update_found : PropertyUpdate → List Text → Property → Service (Option Property)
  unfolding check_range find_new_domain write_property
  update_found u old p = do
    check_range u p
    classes ← find_new_domain p.project_id u.domain_class_uris
    write_property (updated_property u p) classes
    log_property actor p.project_id p.id (text "update") (some (serialize_property p old))
        (some (serialize_property (updated_property u p) (new_uris u.domain_class_uris old)))
    pure (some (updated_property u p))

  abbrev pub update_where : PropertyUpdate → List Text → Option Property → Service (Option Property)
  update_where u old none = pure none
  update_where u old (some p) = update_found u old p

  unfoldable pub update_property : ℕ → PropertyUpdate → Service (Option Property)
  unfolding update_found
  update_property property_id u s =
      update_where u (domain_uris s.tables property_id) (find_property s property_id) s

  abbrev pub delete_where : List Text → Option Property → Service Bool
  delete_where old none = pure false
  delete_where old (some p) = do
    erase_property p.id
    log_property actor p.project_id p.id (text "delete") (some (serialize_property p old)) none
    pure true

  unfoldable pub delete_property : ℕ → Service Bool
  unfolding erase_property
  delete_property property_id s =
      delete_where (domain_uris s.tables property_id) (find_property s property_id) s
