-- ===== src/Tests/Snapshots.antt =====
-- The theorem about validation at a snapshot with one scheme.
use taxonomy_builder.Common.{true, ◌↔◌, Text, ◌≡◌, refl, false, none, some, text, [], ◌∷◌}
use taxonomy_builder.Models.Snapshot.{SnapshotConcept, SnapshotScheme, SnapshotVocabulary}
use taxonomy_builder.Snapshots.{is_nil, validate_references, validate_snapshot}
use taxonomy_builder.Snapshots.Diff.{compute_diff}
use taxonomy_builder.Snapshots.Diff.Empty.{Unchanged, is_empty_diff, compute_diff-Unchanged}
use taxonomy_builder.Snapshots.Diff.Fields.{Value}
use taxonomy_builder.Snapshots.Validity.{is_publishable, validate_snapshot-valid}

abbrev place : SnapshotConcept
place = record {
  id = 10;
  pref_label = text "Place";
  identifier = text "EV000010";
  uri = text "http://example.org/v/settings/EV000010";
  definition = none;
  scope_note = none;
  alt_labels = [];
  broader_ids = [];
  related_ids = 12 ∷ [];
  concept_type_uris = [];
}

abbrev settings : SnapshotScheme
settings = record {
  id = 1;
  title = text "Settings";
  description = none;
  uri = some (text "http://example.org/v/settings");
  concepts = place ∷ [];
}

-- the related concept is not in the snapshot
abbrev broken : SnapshotVocabulary
broken = record {
  project = record {
    id = 9;
    name = text "Evidence";
    description = none;
    namespace = text "http://example.org/v/";
    namespace_prefixes = [];
  };
  concept_schemes = settings ∷ [];
  properties = [];
  classes = [];
  named_individuals = [];
}

broken_fails : is_nil (validate_references broken) ≡ false
unfolding validate_references
broken_fails = refl

validate_snapshot-valid_example : (validate_snapshot broken).valid ≡ is_publishable broken
validate_snapshot-valid_example = validate_snapshot-valid broken

-- the place is renamed, and related to nothing
abbrev renamed : SnapshotVocabulary
renamed = record broken {
  concept_schemes =
      record settings {
        concepts = record place { pref_label = text "Site"; related_ids = [] } ∷ [];
      }
      ∷ [];
}

abbrev shown : Value → Text
shown v = text "value"

rename_found : is_empty_diff (compute_diff shown (some broken) renamed) ≡ false
unfolding compute_diff
rename_found = refl

compute_diff-Unchanged_example :
    (is_empty_diff (compute_diff shown (some broken) renamed) ≡ true) ↔ Unchanged broken renamed
compute_diff-Unchanged_example = compute_diff-Unchanged shown broken renamed
