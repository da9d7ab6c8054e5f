-- ===== src/Snapshots/Diff/Schemes.antt =====
-- Two schemes with one id: when nothing is reported of them and their concepts.
use taxonomy_builder.Common.{
  text, ◌≡◌, refl, sym, ◌∙◌, subst, Bool, true, ◌&&◌, [], Text, map, arith,
}
use taxonomy_builder.Models.Snapshot.{SnapshotScheme}
use taxonomy_builder.Snapshots.{is_nil}
use taxonomy_builder.Snapshots.Diff.{
  Labels, by_id, concept_item, new_concepts, swap, changed_scheme, changed_concept,
  changed_concepts,
}
use taxonomy_builder.Snapshots.Diff.Dumps.{dump_scheme}
use taxonomy_builder.Snapshots.Diff.Agree.{
  Agree, finds_none, Agree-of_none, none-of_Agree, by_key-Unique,
}
use taxonomy_builder.Snapshots.Diff.Fields.{Value, differing}
use taxonomy_builder.Snapshots.Diff.Items.{
  is_nil-map, is_nil-flat, differing_self, differing-SameValues, changed_nil, concept_sound,
  concept_complete, scheme_same, same_concept, SameMetadata,
}
use taxonomy_builder.Snapshots.Diff.Keyed.{common}

-- the same title, description and URI, and the same concepts
abbrev pub SameScheme : SnapshotScheme → SnapshotScheme → Type 0
SameScheme a b = SameMetadata a b × Agree (λ c. c.id) ◌≡◌ (by_id a.concepts) (by_id b.concepts)

module _ (str : Value → Text) (labels : Labels) where
  -- nothing is reported of two schemes with the same id
  abbrev pub same_scheme : SnapshotScheme × SnapshotScheme → Bool
  same_scheme p =
      is_nil (changed_scheme str p)
      && (is_nil (map concept_item (new_concepts (swap p)))
          && (is_nil (map concept_item (new_concepts p)) && is_nil (changed_concepts str labels p)))

  concepts_nil :
      (a b : SnapshotScheme)
      → same_scheme (a, b) ≡ (
          is_nil (changed_scheme str (a, b))
          && finds_none
              (λ c. c.id)
              ◌≡◌
              (same_concept str labels)
              (by_id a.concepts)
              (by_id b.concepts))
  concepts_nil a b =
      rw
        (
          is_nil-map concept_item (new_concepts (b, a)),
          is_nil-map concept_item (new_concepts (a, b)),
          is_nil-flat (changed_concept str labels)
              (common (λ c. c.id) (by_id a.concepts) (by_id b.concepts)),
        )
        (ground arith)

  pub scheme_sound :
      (a b : SnapshotScheme) → a.id ≡ b.id → same_scheme (a, b) ≡ true → SameScheme a b
  scheme_sound a b id h =
      let parts = sym (concepts_nil a b) ∙ h in
      (
        scheme_same a b (
            differing-SameValues (dump_scheme a) (dump_scheme b) (
              sym (changed_nil str [] (text "scheme") b.id b.title (dump_scheme a) (dump_scheme b))
              ∙ ground arith)),
        Agree-of_none (λ c. c.id) ◌≡◌ (same_concept str labels) (concept_sound str labels)
            (concept_complete str labels) (by_id a.concepts) (by_id b.concepts) (ground arith),
      )

  dump_same : (a b : SnapshotScheme) → SameMetadata a b → dump_scheme a ≡ dump_scheme b
  dump_same a b m = rw (m.title, m.description, m.uri) refl

  pub scheme_complete :
      (a b : SnapshotScheme) → a.id ≡ b.id → SameScheme a b → same_scheme (a, b) ≡ true
  scheme_complete a b id (meta, concepts) =
      let fields =
        changed_nil str [] (text "scheme") b.id b.title (dump_scheme a) (dump_scheme b)
        ∙ subst (λ d. is_nil (differing (dump_scheme a) d) ≡ true) (dump_same a b meta)
            (differing_self (dump_scheme a)) in
      let rest =
        none-of_Agree (λ c. c.id) ◌≡◌ (same_concept str labels) (concept_sound str labels)
          (concept_complete str labels) (by_id a.concepts) (by_id b.concepts)
          (by_key-Unique (λ c. c.id) a.concepts) (by_key-Unique (λ c. c.id) b.concepts) concepts in
      concepts_nil a b ∙ rw (fields, rest) refl
