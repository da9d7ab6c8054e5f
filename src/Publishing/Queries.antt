-- ===== src/Publishing/Queries.antt =====
-- The column `latest`, `_get_latest_finalized`, `list_versions` and
-- `list_projects_with_latest_version`.
use taxonomy_builder.Common.{
  Exec, ◌>>◌, ℕ, Bool, false, ◌&&◌, Option, none, some, List, [], ◌∷◌, Text, text_eq, ◌==◌,
  if◌then◌else◌, filter, Result, ok, raise,
}
use taxonomy_builder.Models.Activity.{PublishedVersion}
use taxonomy_builder.Models.Session.{Session}
use taxonomy_builder.Projects.{ProjectError, get_project}
use taxonomy_builder.Versions.{version_sort_key, key_ltb}

-- a row is not stored if its key is not computed
abbrev or_empty : Option (List ℕ) → List ℕ
or_empty none = []
or_empty (some k) = k

abbrev pub key_of : PublishedVersion → List ℕ
key_of v = or_empty (version_sort_key v.version)

abbrev pub later_key : List ℕ → Option (List ℕ) → List ℕ
later_key k none = k
later_key k (some m) = if key_ltb k m then m else k

-- `func.max(version_sort_key)`
abbrev pub max_key : List PublishedVersion → Option (List ℕ)
max_key [] = none
max_key (v ∷ rows) = some (later_key (key_of v) (max_key rows))

abbrev pub in_project : ℕ → PublishedVersion → Bool
in_project p v = v.project_id == p

abbrev pub is_finalized_of : ℕ → PublishedVersion → Bool
is_finalized_of p v = v.project_id == p && v.finalized

-- `coalesce(version_sort_key == max_key, false)`
abbrev pub has_key : Option (List ℕ) → PublishedVersion → Bool
has_key none v = false
has_key (some k) v = text_eq (key_of v) k

-- the column `latest`
unfoldable pub latest : List PublishedVersion → PublishedVersion → Bool
latest versions v = has_key (max_key (filter (is_finalized_of v.project_id) versions)) v

pub data QueryError : Type 0 where
  multiple_results_found : QueryError

abbrev pub scalar_one_or_none : {A : Type 0} → List A → Result QueryError (Option A)
scalar_one_or_none [] = ok none
scalar_one_or_none (x ∷ []) = ok (some x)
scalar_one_or_none (x ∷ y ∷ more) = raise multiple_results_found

-- `_get_latest_finalized`
unfoldable pub get_latest_finalized :
    List PublishedVersion → ℕ → Result QueryError (Option PublishedVersion)
unfolding latest
get_latest_finalized versions project_id =
    scalar_one_or_none (filter (λ v. in_project project_id v && latest versions v) versions)

-- `order_by(version_sort_key.desc())`
abbrev pub insert_desc : PublishedVersion → List PublishedVersion → List PublishedVersion
insert_desc v [] = v ∷ []
insert_desc v (w ∷ rows) =
    if key_ltb (key_of v) (key_of w) then w ∷ insert_desc v rows else v ∷ w ∷ rows

abbrev pub order_desc : List PublishedVersion → List PublishedVersion
order_desc [] = []
order_desc (v ∷ rows) = insert_desc v (order_desc rows)

-- `list_versions`
unfoldable pub list_versions : ℕ → Exec Session ProjectError (List PublishedVersion)
unfolding get_project
list_versions project_id = do
  get_project project_id
  λ s. (ok (order_desc (filter (in_project project_id) s.versions)), s)

-- `project_latest`: a project and its version, in the order of insertion
abbrev pub Listing : Type 0
Listing = List (ℕ × Option Text)

abbrev pub finalized_version : PublishedVersion → Option Text
finalized_version v = if v.finalized then some v.version else none

-- `project_latest[version.project_id][1] is None and version.finalized`
abbrev pub fill : PublishedVersion → Option Text → Option Text
fill v (some t) = some t
fill v none = finalized_version v

-- one round of the loop: a new entry, or an entry without a version filled
abbrev pub record_version : PublishedVersion → Listing → Listing
record_version v [] = (v.project_id, finalized_version v) ∷ []
record_version v ((p, t) ∷ entries) =
    if v.project_id == p then (p, fill v t) ∷ entries else (p, t) ∷ record_version v entries

unfoldable pub record_all : List PublishedVersion → Listing → Listing
record_all [] entries = entries
record_all (v ∷ rows) entries = record_all rows (record_version v entries)

unfoldable pub list_projects_with_latest_version : List PublishedVersion → Listing
unfolding record_all
list_projects_with_latest_version versions = record_all (order_desc versions) []
