-- ===== src/Snapshots/Diff.antt =====
-- `compute_diff` of backend/src/taxonomy_builder/services/snapshot_service.py. A dict by id is the
-- list of its values, and the keys of two dicts are combined in the order of the left one.
pub mod Keyed
pub mod Fields
pub mod Dumps
pub mod Schemes
pub mod Agree
pub mod Items
pub mod Empty
use taxonomy_builder.Common.{
  ℕ, Bool, true, false, not, ◌&&◌, ◌||◌, Option, none, some, List, [], ◌∷◌, ◌++◌, Text, text,
  text_eq, optional_eq, text_before, filter, find, map, ◌==◌, if◌then◌else◌,
}
use taxonomy_builder.Common.Sort.{order_by}
use taxonomy_builder.Models.Snapshot.{
  SnapshotConcept, SnapshotScheme, SnapshotProperty, SnapshotRestriction, SnapshotClass,
  SnapshotVocabulary, DiffItem, FieldChange, ModifiedItem, DiffResult,
}
use taxonomy_builder.Snapshots.{flat}
use taxonomy_builder.Snapshots.Diff.Dumps.{dump_concept, dump_scheme, dump_property, dump_class}
use taxonomy_builder.Snapshots.Diff.Keyed.{by_key, minus, common}
use taxonomy_builder.Snapshots.Diff.Fields.{
  Value, string, strings, uuid, uuids, flag, null, restrictions, optional, optional_id, differing,
}

abbrev pub Labels : Type 0
Labels = List (ℕ × Text)

-- `labels[id] = label` over an earlier entry
abbrev label_of : Labels → ℕ → Option Text
label_of [] id = none
label_of ((k, label) ∷ labels) id = if k == id then some label else label_of labels id

abbrev concept_labels : List SnapshotConcept → Labels → Labels
concept_labels [] labels = labels
concept_labels (c ∷ concepts) labels = concept_labels concepts ((c.id, c.pref_label) ∷ labels)

-- the later entries first, so that they are found
abbrev pub add_labels : List SnapshotScheme → Labels → Labels
add_labels [] labels = labels
add_labels (s ∷ schemes) labels =
    add_labels schemes (concept_labels s.concepts ((s.id, s.title) ∷ labels))

abbrev pub item : Text → ℕ → Text → DiffItem
item entity_type id label = record {
  id = some id;
  uri = none;
  label = label;
  entity_type = entity_type;
}

abbrev join : List Text → Text
join [] = []
join (t ∷ []) = t
join (t ∷ rest) = t ++ text ", " ++ join rest

abbrev pub schemes_in : Option SnapshotVocabulary → List SnapshotScheme
schemes_in none = []
schemes_in (some v) = v.concept_schemes

abbrev pub properties_in : Option SnapshotVocabulary → List SnapshotProperty
properties_in none = []
properties_in (some v) = v.properties

abbrev pub classes_in : Option SnapshotVocabulary → List SnapshotClass
classes_in none = []
classes_in (some v) = v.classes

-- the concepts by id
abbrev pub by_id : List SnapshotConcept → List SnapshotConcept
by_id concepts = by_key (λ c. c.id) concepts

abbrev pub scheme_item : SnapshotScheme → DiffItem
scheme_item s = item (text "scheme") s.id s.title

abbrev pub concept_item : SnapshotConcept → DiffItem
concept_item c = item (text "concept") c.id c.pref_label

-- the items of what the first snapshot has and the second has not
abbrev pub new_concepts : SnapshotScheme × SnapshotScheme → List SnapshotConcept
new_concepts (s, other) = minus (λ c. c.id) (by_id s.concepts) (by_id other.concepts)

abbrev pub swap : {A : Type 0} → A × A → A × A
swap (a, b) = (b, a)

-- an item for a pair, if it has changes
abbrev pub changed : Text → ℕ → Text → List FieldChange → List ModifiedItem
changed entity_type id label [] = []
changed entity_type id label (c ∷ changes) =
    record { id = id; label = label; entity_type = entity_type; changes = c ∷ changes } ∷ []

-- `str` of the field values is Python's, and is taken as given
module _ (str : Value → Text) where
  abbrev label_or_id : Labels → ℕ → Text
  label_or_id labels id = elim (label_of labels id) [ none ↦ str (uuid id) | some label ↦ label ]

  abbrev labels_of_ids : Labels → List ℕ → Text
  labels_of_ids labels ids = join (order_by text_before (map (label_or_id labels) ids))

  abbrev label_of_id : Labels → Value → Option Text
  label_of_id labels (uuid id) = some (label_or_id labels id)
  label_of_id labels _ = none

  abbrev ids_of : Value → List ℕ
  ids_of (uuids ids) = ids
  ids_of _ = []

  -- `_resolve_change`: the fields of ids are `broader_ids`, `related_ids` and `range_scheme_id`
  unfoldable pub resolve_change : Labels → Text × Value × Value → FieldChange
  resolve_change labels (field, old, new) =
      if text_eq field (text "broader_ids")
      then record {
        field_name = text "broader";
        old = some (labels_of_ids labels (ids_of old));
        new = some (labels_of_ids labels (ids_of new));
      }
      else if text_eq field (text "related_ids")
      then record {
        field_name = text "related";
        old = some (labels_of_ids labels (ids_of old));
        new = some (labels_of_ids labels (ids_of new));
      }
      else if text_eq field (text "range_scheme_id")
      then record {
        field_name = text "range_scheme";
        old = label_of_id labels old;
        new = label_of_id labels new;
      }
      else record { field_name = field; old = some (str old); new = some (str new) }

  -- `_field_changes`
  abbrev pub field_changes : Labels → List (Text × Value) → List (Text × Value) → List FieldChange
  field_changes labels prev curr = map (resolve_change labels) (differing prev curr)

  abbrev pub changed_scheme : SnapshotScheme × SnapshotScheme → List ModifiedItem
  changed_scheme (prev, curr) =
      changed (text "scheme") curr.id curr.title
        (field_changes [] (dump_scheme prev) (dump_scheme curr))

  abbrev pub changed_concept : Labels → SnapshotConcept × SnapshotConcept → List ModifiedItem
  changed_concept labels (prev, curr) =
      changed (text "concept") curr.id curr.pref_label
        (field_changes labels (dump_concept prev) (dump_concept curr))

  abbrev pub changed_concepts : Labels → SnapshotScheme × SnapshotScheme → List ModifiedItem
  changed_concepts labels (prev, curr) =
      flat (changed_concept labels) (common (λ c. c.id) (by_id prev.concepts) (by_id curr.concepts))

  abbrev pub changed_property : Labels → SnapshotProperty × SnapshotProperty → List ModifiedItem
  changed_property labels (prev, curr) =
      changed (text "property") curr.id curr.label
        (field_changes labels (dump_property prev) (dump_property curr))

  abbrev pub changed_class : SnapshotClass × SnapshotClass → List ModifiedItem
  changed_class (prev, curr) =
      changed (text "class") curr.id curr.label
        (field_changes [] (dump_class prev) (dump_class curr))

  abbrev pub diff_of :
      Labels
      → (prev_schemes curr_schemes : List SnapshotScheme)
      → (prev_props curr_props : List SnapshotProperty)
      → (prev_classes curr_classes : List SnapshotClass) → DiffResult
  diff_of labels prev_schemes curr_schemes prev_props curr_props prev_classes curr_classes =
      let added_schemes = minus (λ s. s.id) curr_schemes prev_schemes in
      let removed_schemes = minus (λ s. s.id) prev_schemes curr_schemes in
      let both = common (λ s. s.id) prev_schemes curr_schemes in
      record {
        added =
            map scheme_item added_schemes
            ++ (flat (λ s. map concept_item s.concepts) added_schemes
                ++ (flat (λ p. map concept_item (new_concepts (swap p))) both
                    ++ (map (λ p. item (text "property") p.id p.label)
                          (minus (λ p. p.id) curr_props prev_props)
                        ++ map (λ c. item (text "class") c.id c.label)
                            (minus (λ c. c.id) curr_classes prev_classes))));
        modified =
            flat changed_scheme both
            ++ (flat (changed_concepts labels) both
                ++ (flat (changed_property labels) (common (λ p. p.id) prev_props curr_props)
                    ++ flat changed_class (common (λ c. c.id) prev_classes curr_classes)));
        removed =
            map scheme_item removed_schemes
            ++ (flat (λ s. map concept_item s.concepts) removed_schemes
                ++ (flat (λ p. map concept_item (new_concepts p)) both
                    ++ (map (λ p. item (text "property") p.id p.label)
                          (minus (λ p. p.id) prev_props curr_props)
                        ++ map (λ c. item (text "class") c.id c.label)
                            (minus (λ c. c.id) prev_classes curr_classes))));
      }

  unfoldable pub compute_diff : Option SnapshotVocabulary → SnapshotVocabulary → DiffResult
  unfolding resolve_change by_key
  compute_diff previous current =
      diff_of (add_labels current.concept_schemes (add_labels (schemes_in previous) []))
        (by_key (λ s. s.id) (schemes_in previous)) (by_key (λ s. s.id) current.concept_schemes)
        (by_key (λ p. p.id) (properties_in previous)) (by_key (λ p. p.id) current.properties)
        (by_key (λ c. c.id) (classes_in previous)) (by_key (λ c. c.id) current.classes)
