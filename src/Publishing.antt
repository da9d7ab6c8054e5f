-- ===== src/Publishing.antt =====
-- The queries and suggestions of backend/src/taxonomy_builder/services/publishing_service.py, and
-- the column `latest` of models/published_version.py, on the table of published versions.
pub mod Numbers
pub mod Suggest
pub mod Queries
pub mod Latest
pub mod Listing
pub mod Publish
use taxonomy_builder.Common.{
  ℕ, zero, suc, ◌+◌, Bool, true, false, not, ◌&&◌, ◌||◌, Option, none, some, List, [], ◌∷◌, ◌++◌,
  Text, text, text_eq, ltb, ◌==◌, if◌then◌else◌, filter, Result, ok, raise,
}
use taxonomy_builder.Common.Decimal.{int_of, decimal}
use taxonomy_builder.Models.Activity.{PublishedVersion}
use taxonomy_builder.Models.Snapshot.{DiffResult}
use taxonomy_builder.Versions.{split_pre, split_on, version_sort_key, key_ltb}

abbrev pub pre : Text
pre = text "-pre"

abbrev pub starts_with : Text → Text → Bool
starts_with [] t = true
starts_with (p ∷ ps) [] = false
starts_with (p ∷ ps) (c ∷ t) = p == c && starts_with ps t

-- `version LIKE '{base}-pre%'` within the project; a base has none of LIKE's wildcards
abbrev pub is_pre_release_of : ℕ → Text → PublishedVersion → Bool
is_pre_release_of project_id base v =
    v.project_id == project_id && starts_with (base ++ pre) v.version

-- `pieces[-1]`; the default is not used, since a split has a piece
abbrev pub last_piece : List Text → Text
last_piece [] = []
last_piece (piece ∷ []) = piece
last_piece (piece ∷ next ∷ more) = last_piece (next ∷ more)

abbrev pub max_of : ℕ → ℕ → ℕ
max_of m n = if ltb m n then n else m

-- `try: max_n = max(max_n, int(suffix))`, `except ValueError: continue`
abbrev pub max_with : ℕ → Option ℕ → ℕ
max_with max_n none = max_n
max_with max_n (some n) = max_of max_n n

-- the loop over the existing versions
unfoldable pub highest : ℕ → List PublishedVersion → ℕ
unfolding split_pre int_of
highest max_n [] = max_n
highest max_n (v ∷ existing) =
    highest (max_with max_n (int_of (last_piece (split_pre zero v.version)))) existing

-- 1 where there are none, the highest number and 1 otherwise
abbrev pub number_after : List PublishedVersion → ℕ
number_after [] = 1
number_after (v ∷ existing) = highest 0 (v ∷ existing) + 1

-- `_next_pre_release_number`
unfoldable pub next_pre_release_number : List PublishedVersion → ℕ → Text → ℕ
unfolding highest
next_pre_release_number versions project_id base =
    number_after (filter (is_pre_release_of project_id base) versions)

-- `f"{base}-pre{n}"`
abbrev pub pre_release_name : Text → ℕ → Text
pre_release_name base n = base ++ pre ++ decimal n

-- `bool(diff and (diff.modified or diff.removed))`
abbrev pub is_nil {ℓ} : {A : Type ℓ} → List A → Bool
is_nil [] = true
is_nil (x ∷ xs) = false

abbrev pub has_changes : Option DiffResult → Bool
has_changes none = false
has_changes (some diff) = not (is_nil diff.modified) || not (is_nil diff.removed)

-- the `else` of the `try`: one major up, or one minor up
abbrev pub bump : Bool → ℕ → ℕ → Text
bump major_bump major minor =
    if major_bump
    then decimal (major + 1) ++ text ".0"
    else decimal major ++ (text "." ++ decimal (minor + 1))

-- `int(parts[1]) if len(parts) > 1 else 0`
abbrev pub minor_of : List Text → Option ℕ
minor_of [] = some 0
minor_of (part ∷ parts) = int_of part

-- the base from the parts of the latest version; "1.0" where one of them is no number
abbrev pub bump_or_first : Bool → Option ℕ → Option ℕ → Text
bump_or_first major_bump (some major) (some minor) = bump major_bump major minor
bump_or_first major_bump _ _ = text "1.0"

abbrev pub base_from : Bool → List Text → Text
base_from major_bump [] = text "1.0"
base_from major_bump (part ∷ parts) = bump_or_first major_bump (int_of part) (minor_of parts)

unfoldable pub suggest_base : Option Text → Option DiffResult → Bool → Text
unfolding split_on int_of
suggest_base none diff pre_release = text "1.0"
suggest_base (some latest) diff pre_release =
    base_from (pre_release || has_changes diff) (split_on 46 latest)

-- `_suggest_version`, with its project where a pre-release is asked for
unfoldable pub suggest_version :
    List PublishedVersion → Option Text → Option DiffResult → Bool → Option ℕ → Text
unfolding suggest_base next_pre_release_number
suggest_version versions latest diff true (some project_id) =
    let base = suggest_base latest diff true in
    pre_release_name base (next_pre_release_number versions project_id base)
suggest_version versions latest diff pre_release _ = suggest_base latest diff pre_release
