-- ===== src/Projects/Input.antt =====
-- The input of `create_project` and `update_project`, as backend/src/taxonomy_builder/schemas/project.py
-- lets it through. `url` is Pydantic's HttpUrl, `none` where it is refused.
use taxonomy_builder.Common.{
  Bool, ◌&&◌, Option, none, some, Text, strip, length, leb, if◌then◌else◌, all,
}

pub record ProjectCreate : Type 0 where
  pub name : Text
  pub description : Option Text
  pub namespace : Text
  pub identifier_prefix : Text

-- the fields that are set; a name of None is a name that is not set
pub record ProjectUpdate : Type 0 where
  pub name : Option Text
  pub description : Option (Option Text)
  pub namespace : Option Text
  pub identifier_prefix : Option Text

-- `^[A-Z]{1,4}$`
unfoldable pub is_prefix : Text → Bool
is_prefix t = leb 1 (length t) && leb (length t) 4 && all (λ c. leb 65 c && leb c 90) t

-- `min_length=1, max_length=255`, before the spaces are stripped
abbrev is_name : Text → Bool
is_name t = leb 1 (length t) && leb (length t) 255

-- the fields that are left, with the namespace that is read
abbrev pub created_with : ProjectCreate → Option Text → Option ProjectCreate
created_with p none = none
created_with p (some namespace) =
    if is_name p.name && is_prefix p.identifier_prefix
    then some (record p { name = strip p.name; namespace = namespace })
    else none

-- a field that is not set, or is None: `some none` is refused by a validator
abbrev pub set_with : (Text → Option Text) → Option (Option Text) → Option (Option Text)
set_with check none = some none
set_with check (some none) = none
set_with check (some (some t)) = elim (check t) [ none ↦ none | some u ↦ some (some u) ]

abbrev name_with : Option Text → Option (Option Text)
name_with none = some none
name_with (some t) = if is_name t then some (some (strip t)) else none

abbrev pub check_prefix : Text → Option Text
check_prefix t = if is_prefix t then some t else none

abbrev pub updated_with :
    Option (Option Text) → (name namespace prefix : Option (Option Text)) → Option ProjectUpdate
updated_with description (some name) (some namespace) (some prefix) = some (record {
  name = name;
  description = description;
  namespace = namespace;
  identifier_prefix = prefix;
})
updated_with description _ _ _ = none

module _ (url : Text → Option Text) where
  unfoldable pub validate_create : ProjectCreate → Option ProjectCreate
  unfolding is_prefix strip
  validate_create p = created_with p (url p.namespace)

  -- `some none` is an explicit None
  unfoldable pub validate_update :
      (name : Option Text)
      → (description namespace prefix : Option (Option Text)) → Option ProjectUpdate
  unfolding is_prefix strip
  validate_update name description namespace prefix =
      updated_with description (name_with name) (set_with url namespace)
        (set_with check_prefix prefix)
