-- ===== src/Publishing/Publish.antt =====
-- `publish` and `preview` of `PublishingService`. The artifacts that are written to a store of files
-- afterwards are not modelled. `str` is Python's `str` of a field's value.
pub mod Outcome
pub mod Previous
pub mod History
pub mod Maximum
pub mod Newest
pub mod Release
pub mod Foretold
use taxonomy_builder.Common.{
  ℕ, zero, ◌+◌, Bool, true, false, not, ◌&&◌, Option, none, some, List, [], ◌∷◌, ◌++◌, Text, text,
  text_eq, ◌==◌, if◌then◌else◌, any, filter, map, length, Exec, Result, ok, raise, pure, or_raise,
  raise_if, ◌>>=◌, ◌>>◌,
}
use taxonomy_builder.Models.Activity.{PublishedVersion}
use taxonomy_builder.Models.Session.{Db, Session, rollback}
use taxonomy_builder.Models.Snapshot.{SnapshotVocabulary, SnapshotScheme, DiffResult}
use taxonomy_builder.Models.Vocabulary.{Project}
use taxonomy_builder.Projects.{ProjectError, get_project}
use taxonomy_builder.Publishing.{pre_release_name, next_pre_release_number, suggest_version, is_nil}
use taxonomy_builder.Publishing.Queries.{
  QueryError, key_of, in_project, get_latest_finalized, order_desc,
}
use taxonomy_builder.Snapshots.{ValidationResult, model_errors, validate_snapshot}
use taxonomy_builder.Snapshots.Build.{build_snapshot}
use taxonomy_builder.Snapshots.Diff.{compute_diff}
use taxonomy_builder.Snapshots.Diff.Fields.{Value}
use taxonomy_builder.Versions.{PublishRequest, version_sort_key, key_ltb, split_pre}

-- `snapshot_invalid` is the ValidationError of a model that is built or read, `no_sort_key` the
-- database's error where a number of the version does not fit
pub data PublishError : Type 0 where
  project_error : ProjectError → PublishError
  query_error : QueryError → PublishError
  snapshot_invalid : PublishError
  validation_failed : ValidationResult → PublishError
  version_conflict : Text → PublishError
  no_sort_key : PublishError

abbrev pub Service : Type 0 → Type 0
Service = Exec Session PublishError

abbrev pub of_project :
    {A : Type 0} → Result ProjectError A × Session → Result PublishError A × Session
of_project (ok a, s) = (ok a, s)
of_project (raise e, s) = (raise (project_error e), s)

abbrev pub of_query : {A : Type 0} → Result QueryError A → Service A
of_query (ok a) s = (ok a, s)
of_query (raise e) s = (raise (query_error e), s)

unfoldable pub find_project : ℕ → Service Project
unfolding get_project
find_project project_id s = of_project (get_project project_id s)

unfoldable pub build : ℕ → Service SnapshotVocabulary
unfolding find_project build_snapshot
build project_id s =
    (do
      project ← find_project project_id
      or_raise snapshot_invalid (build_snapshot s.tables project))
      s

unfoldable pub find_latest : ℕ → Service (Option PublishedVersion)
unfolding get_latest_finalized
find_latest project_id s = of_query (get_latest_finalized s.versions project_id) s

abbrev pub previous_id : Option PublishedVersion → Option ℕ
previous_id none = none
previous_id (some v) = some v.id

-- `uq_published_version_per_project`
abbrev pub same_version : PublishedVersion → PublishedVersion → Bool
same_version row v = v.project_id == row.project_id && text_eq v.version row.version

abbrev pub has_no_key : Option (List ℕ) → Bool
has_no_key none = true
has_no_key (some k) = false

-- the insertion, which computes the key
unfoldable pub insert_version : PublishedVersion → Service (Unit {0})
unfolding version_sort_key
insert_version row s =
    if has_no_key (version_sort_key row.version)
    then (raise no_sort_key, s)
    else if any (same_version row) s.versions
    then (raise (version_conflict row.version), rollback s)
    else (ok tt, record s { tables = record s.tables { versions = s.versions ++ row ∷ [] } })

abbrev pub new_version :
    (new_id now project_id : ℕ)
    → PublishRequest
    → (publisher : Option Text) → SnapshotVocabulary
    → (previous : Option PublishedVersion) → PublishedVersion
new_version new_id now project_id request publisher snapshot previous = record {
  id = new_id;
  project_id = project_id;
  version = request.version;
  title = request.title;
  notes = request.notes;
  finalized = not request.pre_release;
  published_at = now;
  previous_version_id = previous_id previous;
  publisher = publisher;
  snapshot = snapshot;
}

unfoldable pub publish :
    (new_id now project_id : ℕ)
    → PublishRequest
    → (publisher : Option Text) → Service PublishedVersion
unfolding build validate_snapshot find_latest insert_version
publish new_id now project_id request publisher = do
  snapshot ← build project_id
  raise_if (not (validate_snapshot snapshot).valid) (validation_failed (validate_snapshot snapshot))
  previous ← find_latest project_id
  insert_version (new_version new_id now project_id request publisher snapshot previous)
  pure (new_version new_id now project_id request publisher snapshot previous)

-- ContentSummary
pub record ContentSummary : Type 0 where
  pub schemes : ℕ
  pub concepts : ℕ
  pub properties : ℕ
  pub classes : ℕ

pub record PublishPreview : Type 0 where
  pub validation : ValidationResult
  pub diff : Option DiffResult
  pub content_summary : ContentSummary
  pub suggested_version : Text
  pub suggested_pre_release_version : Text
  pub latest_version : Option Text
  pub latest_pre_release_version : Option Text

abbrev number_of_concepts : List SnapshotScheme → ℕ
number_of_concepts [] = 0
number_of_concepts (s ∷ schemes) = length s.concepts + number_of_concepts schemes

abbrev summary_of : SnapshotVocabulary → ContentSummary
summary_of snapshot = record {
  schemes = length snapshot.concept_schemes;
  concepts = number_of_concepts snapshot.concept_schemes;
  properties = length snapshot.properties;
  classes = length snapshot.classes;
}

abbrev is_pre_release_in : ℕ → PublishedVersion → Bool
is_pre_release_in project_id v = v.project_id == project_id && not v.finalized

abbrev head : List PublishedVersion → Option PublishedVersion
head [] = none
head (v ∷ rows) = some v

-- `_get_latest_pre_release`
unfoldable pub get_latest_pre_release : List PublishedVersion → ℕ → Option PublishedVersion
get_latest_pre_release versions project_id =
    head (order_desc (filter (is_pre_release_in project_id) versions))

abbrev is_newer : PublishedVersion → Option PublishedVersion → Bool
is_newer v none = true
is_newer v (some latest) = key_ltb (key_of latest) (key_of v)

-- a pre-release that is newer than the latest release
abbrev pub fresh : Option PublishedVersion → Option PublishedVersion → Option PublishedVersion
fresh none latest = none
fresh (some v) latest = if is_newer v latest then some v else none

abbrev pub version_of : Option PublishedVersion → Option Text
version_of none = none
version_of (some v) = some v.version

-- `version.split("-pre")[0]`
abbrev first_piece : List Text → Text
first_piece [] = []
first_piece (piece ∷ pieces) = piece

-- the release and the pre-release that are suggested
abbrev pub suggestions :
    List PublishedVersion
    → ℕ
    → Option Text
    → Option DiffResult
    → (fresh : Option PublishedVersion) → Text × Text
suggestions versions project_id latest diff none = (
  suggest_version versions latest diff false none,
  suggest_version versions latest diff true (some project_id),
)
suggestions versions project_id latest diff (some v) =
    let base = first_piece (split_pre zero v.version) in
    (base, pre_release_name base (next_pre_release_number versions project_id base))

-- `latest.snapshot_vocabulary` runs the validators
abbrev pub read_snapshot : PublishedVersion → Service SnapshotVocabulary
read_snapshot v s =
    if is_nil (model_errors v.snapshot) then (ok v.snapshot, s) else (raise snapshot_invalid, s)

module _ (str : Value → Text) where
  abbrev pub diff_with : SnapshotVocabulary → Option PublishedVersion → Service (Option DiffResult)
  diff_with snapshot none = pure none
  diff_with snapshot (some latest) = do
    previous ← read_snapshot latest
    pure (some (compute_diff str (some previous) snapshot))

  abbrev preview_with :
      List PublishedVersion
      → ℕ
      → SnapshotVocabulary
      → Option PublishedVersion
      → Option DiffResult
      → PublishPreview
  preview_with versions project_id snapshot latest diff =
      let newest = fresh (get_latest_pre_release versions project_id) latest in
      let suggested = suggestions versions project_id (version_of latest) diff newest in
      record {
        validation = validate_snapshot snapshot;
        diff = diff;
        content_summary = summary_of snapshot;
        suggested_version = suggested.0;
        suggested_pre_release_version = suggested.1;
        latest_version = version_of latest;
        latest_pre_release_version = version_of newest;
      }

  unfoldable pub preview : ℕ → Service PublishPreview
  unfolding build validate_snapshot find_latest model_errors compute_diff get_latest_pre_release
      suggest_version next_pre_release_number split_pre
  preview project_id s =
      (do
        snapshot ← build project_id
        latest ← find_latest project_id
        diff ← diff_with snapshot latest
        pure (preview_with s.versions project_id snapshot latest diff))
        s
