-- ===== src/Tests/Publishing.antt =====
-- The theorems about publishing at the small project: 1.0 is published, and then 01.0.
use taxonomy_builder.Common.{
  ℕ, ◌≡◌, refl, ap, true, false, ◌&&◌, Option, none, some, Text, text, text_eq, List, [], ◌∷◌, ◌++◌,
  strip, ok, raise, ◌==◌, if◌then◌else◌,
}
use taxonomy_builder.Models.Activity.{PublishedVersion}
use taxonomy_builder.Models.Session.{Db, request}
use taxonomy_builder.Models.Snapshot.{SnapshotVocabulary, SnapshotConcept}
use taxonomy_builder.Publishing.Publish.{publish, PublishPreview, preview, insert_version}
use taxonomy_builder.Publishing.Publish.History.{
  IsHistory, version_at, publish-IsHistory, publish-get,
}
use taxonomy_builder.Publishing.Publish.Foretold.{answer, publish-preview}
use taxonomy_builder.Snapshots.Diff.Fields.{Value}
use taxonomy_builder.Common.Decimal.{decimal}
use taxonomy_builder.Publishing.Publish.Release.{publish-next_latest}
use taxonomy_builder.Publishing.Queries.{get_latest_finalized, multiple_results_found}
use taxonomy_builder.Projects.{get_project}
use taxonomy_builder.Snapshots.{validate_snapshot}
use taxonomy_builder.Snapshots.Build.{build_snapshot}
use taxonomy_builder.Versions.{PublishRequest, validate_request, version_sort_key, key_ltb}
use taxonomy_builder.Tests.{db, project}

abbrev release : Text → PublishRequest
release version = record {
  version = version;
  title = text "Release";
  notes = none;
  pre_release = false;
}

abbrev concept : ℕ → Text → Text → List ℕ → List ℕ → SnapshotConcept
concept id identifier label broader related = record {
  id = id;
  pref_label = label;
  identifier = identifier;
  uri = text "http://example.org/v/settings/" ++ identifier;
  definition = none;
  scope_note = none;
  alt_labels = [];
  broader_ids = broader;
  related_ids = related;
  concept_type_uris = [];
}

-- by label
abbrev snapshot : SnapshotVocabulary
snapshot = record {
  project = record {
    id = 9;
    name = text "Evidence";
    description = none;
    namespace = text "http://example.org/v/";
    namespace_prefixes = [];
  };
  concept_schemes =
      record {
        id = 1;
        title = text "Settings";
        description = none;
        uri = some (text "http://example.org/v/settings");
        concepts =
            concept 12 (text "EV000012") (text "Nursery") (11 ∷ []) (10 ∷ [])
            ∷ concept 10 (text "EV000010") (text "Place") [] (12 ∷ [])
            ∷ concept 11 (text "EV000011") (text "School") (10 ∷ []) []
            ∷ [];
      }
      ∷ [];
  properties = [];
  classes = [];
  named_individuals = [];
}

snapshot_built : build_snapshot db project ≡ some snapshot
unfolding build_snapshot
snapshot_built = refl

abbrev row : ℕ → Text → Option ℕ → PublishedVersion
row id version previous = record {
  id = id;
  project_id = 9;
  version = version;
  title = text "Release";
  notes = none;
  finalized = true;
  published_at = 50;
  previous_version_id = previous;
  publisher = none;
  snapshot = snapshot;
}

abbrev published : Db
published = record db { versions = row 21 (text "1.0") none ∷ [] }

first_published :
    (request (publish 21 50 9 (release (text "1.0")) none) db)
    ≡ (ok (row 21 (text "1.0") none), published)
unfolding request publish get_project build_snapshot validate_snapshot get_latest_finalized
    insert_version strip
first_published = refl

second_published :
    (request (publish 22 50 9 (release (text "01.0")) none) published).0
    ≡ ok (row 22 (text "01.0") (some 21))
unfolding request publish get_project build_snapshot validate_snapshot get_latest_finalized
    insert_version strip
second_published = refl

publish-IsHistory_example :
    IsHistory
      (request
        (publish 22 50 9 (release (text "01.0")) none)
        (request (publish 21 50 9 (release (text "1.0")) none) db).1).1.versions
unfolding validate_request
publish-IsHistory_example =
    publish-IsHistory 22 50 9 (release (text "01.0")) none refl
      (request (publish 21 50 9 (release (text "1.0")) none) db).1
      (publish-IsHistory 21 50 9 (release (text "1.0")) none refl db (tt, tt))

publish-get_example :
    version_at (request (publish 21 50 9 (release (text "1.0")) none) db).1 9 (text "1.0") ≡ (
      if text_eq (text "1.0") (text "1.0") && 9 == 9
      then ok (row 21 (text "1.0") none)
      else version_at db 9 (text "1.0"))
publish-get_example =
    publish-get 21 50 9 (release (text "1.0")) none db (row 21 (text "1.0") none)
      (ap (λ x. x.0) first_published) 9 (text "1.0")

-- the two releases have the same key
publish-next_latest_example :
    get_latest_finalized
      (request (publish 22 50 9 (release (text "01.0")) none) published).1.versions
      9
    ≡ raise multiple_results_found
unfolding version_sort_key get_latest_finalized key_ltb
publish-next_latest_example =
    publish-next_latest 22 50 9 (release (text "01.0")) none published
      (row 22 (text "01.0") (some 21)) (some (row 21 (text "1.0") none)) refl refl refl
      second_published

abbrev shown : Value → Text
shown v = text "value"

-- the preview before anything is published
abbrev view : PublishPreview
view = record {
  validation = record { valid = true; errors = [] };
  diff = none;
  content_summary = record { schemes = 1; concepts = 3; properties = 0; classes = 0 };
  suggested_version = text "1.0";
  suggested_pre_release_version = text "1.0-pre1";
  latest_version = none;
  latest_pre_release_version = none;
}

previewed : (request (preview shown 9) db).0 ≡ ok view
unfolding request preview get_project build_snapshot validate_snapshot get_latest_finalized strip
    decimal
previewed = refl

publish-preview_example :
    (row : PublishedVersion) × (row.project_id ≡ 9)
    × (row.version ≡ text "1.0")
    × ((request (publish 21 50 9 (release (text "1.0")) none) db).0 ≡ answer view [] row)
publish-preview_example =
    publish-preview shown 9 db 21 50 (release (text "1.0")) none view previewed
