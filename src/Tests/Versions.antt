-- ===== src/Tests/Versions.antt =====
-- The theorems about versions at the versions 1.0, 1.0.1, 1.1-pre1 and 2.0.
use taxonomy_builder.Common.{
  ℕ, ◌≡◌, refl, Bool, true, false, Option, none, some, Text, text, List, [], ◌∷◌, ◌++◌, ok, ltb,
  any, if◌then◌else◌, arith,
}
use taxonomy_builder.Common.Decimal.{decimal}
use taxonomy_builder.Models.Activity.{PublishedVersion}
use taxonomy_builder.Models.Snapshot.{SnapshotVocabulary}
use taxonomy_builder.Versions.{PublishRequest, is_before, version_sort_key, key_ltb}
use taxonomy_builder.Versions.Keys.{dotted_from, pre}
use taxonomy_builder.Versions.Order.{release_order}
use taxonomy_builder.Publishing.{pre_release_name, next_pre_release_number}
use taxonomy_builder.Publishing.Numbers.{has_name, next_pre_release_number_free}
use taxonomy_builder.Publishing.Queries.{
  get_latest_finalized, list_projects_with_latest_version, in_project,
}
use taxonomy_builder.Publishing.Latest.{LatestOf, get_latest_finalized-LatestOf}
use taxonomy_builder.Publishing.Listing.{lookup, version_of, list_projects-LatestOf}

abbrev empty_snapshot : SnapshotVocabulary
empty_snapshot = record {
  project = record {
    id = 9;
    name = text "Evidence";
    description = none;
    namespace = text "http://example.org/v/";
    namespace_prefixes = [];
  };
  concept_schemes = [];
  properties = [];
  classes = [];
  named_individuals = [];
}

abbrev version_row : ℕ → Text → Bool → PublishedVersion
version_row id version finalized = record {
  id = id;
  project_id = 9;
  version = version;
  title = text "Release";
  notes = none;
  finalized = finalized;
  published_at = 50;
  previous_version_id = none;
  publisher = none;
  snapshot = empty_snapshot;
}

abbrev versions : List PublishedVersion
versions =
    version_row 1 (text "1.0") true
    ∷ version_row 2 (text "1.1-pre1") false
    ∷ version_row 3 (text "2.0") true
    ∷ []

release_order_example :
    (is_before (dotted_from 1 (0 ∷ []) ++ pre ++ decimal 3) (dotted_from 1 (0 ∷ [])) ≡ true)
    × (is_before
          (dotted_from 1 (0 ∷ []) ++ pre ++ decimal 3)
          (dotted_from 1 (0 ∷ []) ++ pre ++ decimal 12)
        ≡ ltb 3 12)
    × (is_before (dotted_from 1 (0 ∷ 1 ∷ [])) (dotted_from 1 (0 ∷ [])) ≡ true)
release_order_example =
    release_order 1 (0 ∷ []) 3 12 1 [] refl refl (omega arith) (omega arith) (omega arith)

-- 1.0.1 and 1.0 in text
patch_before : is_before (text "1.0.1") (text "1.0") ≡ true
unfolding version_sort_key key_ltb
patch_before = refl

abbrev publish_pre : PublishRequest
publish_pre = record {
  version = text "1.1-pre2";
  title = text "Draft";
  notes = none;
  pre_release = true;
}

next_pre_release_number_free_example :
    any
      (has_name 9 (pre_release_name (text "1.1") (next_pre_release_number versions 9 (text "1.1"))))
      versions
    ≡ false
next_pre_release_number_free_example = next_pre_release_number_free versions 9 (text "1.1") refl

get_latest_finalized-LatestOf_example :
    (o : Option PublishedVersion) × (get_latest_finalized versions 9 ≡ ok o) × LatestOf versions 9 o
unfolding version_sort_key
get_latest_finalized-LatestOf_example =
    get_latest_finalized-LatestOf versions 9 (refl, (refl, (refl, tt)))

list_projects-LatestOf_example :
    (o : Option PublishedVersion) × (lookup 9 (list_projects_with_latest_version versions)
      ≡ (if any (in_project 9) versions then some (version_of o) else none))
    × LatestOf versions 9 o
list_projects-LatestOf_example = list_projects-LatestOf 9 versions
