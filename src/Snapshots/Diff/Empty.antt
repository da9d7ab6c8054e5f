-- ===== src/Snapshots/Diff/Empty.antt =====
-- A diff is empty exactly if nothing that is compared differs.
use taxonomy_builder.Common.{
  text, ◌≡◌, ◌↔◌, refl, sym, ◌∙◌, ap, Bool, true, ◌&&◌, some, List, [], ◌∷◌, ◌++◌, Text, map, all,
  arith,
}
use taxonomy_builder.Models.Snapshot.{
  SnapshotScheme, SnapshotProperty, SnapshotClass, SnapshotVocabulary, DiffResult,
}
use taxonomy_builder.Snapshots.{flat, is_nil}
use taxonomy_builder.Snapshots.Diff.{
  Labels, item, scheme_item, concept_item, new_concepts, swap, changed_scheme, changed_concepts,
  changed_property, changed_class, add_labels, diff_of, compute_diff,
}
use taxonomy_builder.Snapshots.Diff.Agree.{
  Agree, finds_none, Agree-of_none, none-of_Agree, by_key-Unique,
}
use taxonomy_builder.Snapshots.Diff.Fields.{Value}
use taxonomy_builder.Snapshots.Diff.Items.{
  is_nil-append, is_nil-map, is_nil-flat, property_sound, property_complete, class_sound,
  class_complete, same_property, same_class,
}
use taxonomy_builder.Snapshots.Diff.Keyed.{by_key, minus, common}
use taxonomy_builder.Snapshots.Diff.Schemes.{SameScheme, same_scheme, scheme_sound, scheme_complete}

-- two snapshots whose schemes, properties and classes are the same, id by id
abbrev pub Unchanged : SnapshotVocabulary → SnapshotVocabulary → Type 0
Unchanged p c =
    Agree (λ s. s.id) SameScheme (by_key (λ s. s.id) p.concept_schemes)
      (by_key (λ s. s.id) c.concept_schemes)
    × Agree (λ x. x.id) ◌≡◌ (by_key (λ x. x.id) p.properties) (by_key (λ x. x.id) c.properties)
    × Agree (λ x. x.id) ◌≡◌ (by_key (λ x. x.id) p.classes) (by_key (λ x. x.id) c.classes)

abbrev pub is_empty_diff : DiffResult → Bool
is_empty_diff d = is_nil d.added && is_nil d.modified && is_nil d.removed

-- the emptiness of the parts of a diff
parts :
    {A M : Type 0} (a1 a2 a3 a4 a5 : List A) (m1 m2 m3 m4 : List M) (r1 r2 r3 r4 r5 : List A)
    → (is_nil (a1 ++ (a2 ++ (a3 ++ (a4 ++ a5))))
        && is_nil (m1 ++ (m2 ++ (m3 ++ m4)))
        && is_nil (r1 ++ (r2 ++ (r3 ++ (r4 ++ r5)))))
      ≡ ((is_nil a1 && is_nil a2)
          && (is_nil r1 && is_nil r2)
          && (is_nil m1 && (is_nil a3 && (is_nil r3 && is_nil m2)))
          && (is_nil a4 && is_nil r4 && is_nil m3)
          && (is_nil a5 && is_nil r5 && is_nil m4))
parts a1 a2 a3 a4 a5 m1 m2 m3 m4 r1 r2 r3 r4 r5 =
    rw
      (
        is_nil-append a1 (a2 ++ (a3 ++ (a4 ++ a5))),
        is_nil-append a2 (a3 ++ (a4 ++ a5)),
        is_nil-append a3 (a4 ++ a5),
        is_nil-append a4 a5,
        is_nil-append m1 (m2 ++ (m3 ++ m4)),
        is_nil-append m2 (m3 ++ m4),
        is_nil-append m3 m4,
        is_nil-append r1 (r2 ++ (r3 ++ (r4 ++ r5))),
        is_nil-append r2 (r3 ++ (r4 ++ r5)),
        is_nil-append r3 (r4 ++ r5),
        is_nil-append r4 r5,
      )
      (ground arith)

module _ (str : Value → Text) (labels : Labels) where
  all_and :
      {A : Type 0} (f g : A → Bool) (xs : List A)
      → all (λ x. f x && g x) xs ≡ (all f xs && all g xs)
  all_and f g [] = refl
  all_and f g (x ∷ xs) = ground (arith, all_and f g xs)

  -- the schemes that are reported, with their concepts
  items_nil :
      (schemes : List SnapshotScheme)
      → (is_nil (map scheme_item schemes)
          && is_nil (flat (λ s. map concept_item s.concepts) schemes))
        ≡ is_nil schemes
  items_nil [] = refl
  items_nil (s ∷ schemes) = refl

  all_schemes :
      (both : List (SnapshotScheme × SnapshotScheme))
      → all (same_scheme str labels) both ≡ (
          is_nil (flat (changed_scheme str) both)
          && (is_nil (flat (λ p. map concept_item (new_concepts (swap p))) both)
              && (is_nil (flat (λ p. map concept_item (new_concepts p)) both)
                  && is_nil (flat (changed_concepts str labels) both))))
  all_schemes both =
      all_and (λ p. is_nil (changed_scheme str p)) _ both
      ∙ rw
          (
            is_nil-flat (changed_scheme str) both,
            is_nil-flat (λ p. map concept_item (new_concepts (swap p))) both,
            is_nil-flat (λ p. map concept_item (new_concepts p)) both,
            is_nil-flat (changed_concepts str labels) both,
          )
          (ap (λ b. all (λ p. is_nil (changed_scheme str p)) both && b)
            (all_and (λ p. is_nil (map concept_item (new_concepts (swap p)))) _ both
              ∙ ap (λ b. all (λ p. is_nil (map concept_item (new_concepts (swap p)))) both && b)
                  (all_and (λ p. is_nil (map concept_item (new_concepts p))) _ both)))

  module _ (ps cs : List SnapshotScheme) (pp cp : List SnapshotProperty)
      (pc cc' : List SnapshotClass) where
    diff_of_nil : is_empty_diff (diff_of str labels ps cs pp cp pc cc') ≡ (
        finds_none (λ s. s.id) SameScheme (same_scheme str labels) ps cs
        && finds_none (λ x. x.id) ◌≡◌ (same_property str labels) pp cp
        && finds_none (λ x. x.id) ◌≡◌ (same_class str labels) pc cc')
    diff_of_nil =
        let added = minus (λ s. s.id) cs ps in
        let removed = minus (λ s. s.id) ps cs in
        let both = common (λ s. s.id) ps cs in
        let new_props = minus (λ x. x.id) cp pp in
        let old_props = minus (λ x. x.id) pp cp in
        let new_classes = minus (λ x. x.id) cc' pc in
        let old_classes = minus (λ x. x.id) pc cc' in
        parts (map scheme_item added) (flat (λ s. map concept_item s.concepts) added)
          (flat (λ p. map concept_item (new_concepts (swap p))) both)
          (map (λ x. item (text "property") x.id x.label) new_props)
          (map (λ x. item (text "class") x.id x.label) new_classes) (flat (changed_scheme str) both)
          (flat (changed_concepts str labels) both)
          (flat (changed_property str labels) (common (λ x. x.id) pp cp))
          (flat (changed_class str) (common (λ x. x.id) pc cc')) (map scheme_item removed)
          (flat (λ s. map concept_item s.concepts) removed)
          (flat (λ p. map concept_item (new_concepts p)) both)
          (map (λ x. item (text "property") x.id x.label) old_props)
          (map (λ x. item (text "class") x.id x.label) old_classes)
        ∙ rw
            (
              items_nil added,
              items_nil removed,
              is_nil-map (λ (x : SnapshotProperty). item (text "property") x.id x.label) new_props,
              is_nil-map (λ (x : SnapshotProperty). item (text "property") x.id x.label) old_props,
              is_nil-map (λ (x : SnapshotClass). item (text "class") x.id x.label) new_classes,
              is_nil-map (λ (x : SnapshotClass). item (text "class") x.id x.label) old_classes,
              is_nil-flat (changed_property str labels) (common (λ x. x.id) pp cp),
              is_nil-flat (changed_class str) (common (λ x. x.id) pc cc'),
              all_schemes both,
            )
            (ground arith)

-- The diff of two snapshots has no entry exactly if for every id both have the same scheme, property
-- or class, or neither has one; of rows with one id the last counts, schemes are compared by title,
-- description, URI and, id by id, their concepts, and all else by all fields.
pub compute_diff-Unchanged :
    (str : Value → Text) (previous current : SnapshotVocabulary)
    → (is_empty_diff (compute_diff str (some previous) current) ≡ true) ↔ Unchanged previous current
unfolding compute_diff
compute_diff-Unchanged str p c =
    let labels = add_labels c.concept_schemes (add_labels p.concept_schemes []) in
    let ps = by_key (λ s. s.id) p.concept_schemes in
    let cs = by_key (λ s. s.id) c.concept_schemes in
    let pp = by_key (λ x. x.id) p.properties in
    let cp = by_key (λ x. x.id) c.properties in
    let pc = by_key (λ x. x.id) p.classes in
    let kc = by_key (λ x. x.id) c.classes in
    let e = diff_of_nil str labels ps cs pp cp pc kc in
    (
      λ h.
          let parts = sym e ∙ h in
          (
            Agree-of_none (λ s. s.id) SameScheme (same_scheme str labels) (scheme_sound str labels)
                (scheme_complete str labels) ps cs (ground arith),
            Agree-of_none (λ x. x.id) ◌≡◌ (same_property str labels) (property_sound str labels)
                (property_complete str labels) pp cp (ground arith),
            Agree-of_none (λ x. x.id) ◌≡◌ (same_class str labels) (class_sound str labels)
                (class_complete str labels) pc kc (ground arith),
          ),
      λ (s, x, k).
          e
          ∙ rw
              (
                none-of_Agree (λ s. s.id) SameScheme (same_scheme str labels)
                    (scheme_sound str labels) (scheme_complete str labels) ps cs
                    (by_key-Unique (λ s. s.id) p.concept_schemes)
                    (by_key-Unique (λ s. s.id) c.concept_schemes) s,
                none-of_Agree (λ x. x.id) ◌≡◌ (same_property str labels) (property_sound str labels)
                    (property_complete str labels) pp cp (by_key-Unique (λ x. x.id) p.properties)
                    (by_key-Unique (λ x. x.id) c.properties) x,
                none-of_Agree (λ x. x.id) ◌≡◌ (same_class str labels) (class_sound str labels)
                    (class_complete str labels) pc kc (by_key-Unique (λ x. x.id) p.classes)
                    (by_key-Unique (λ x. x.id) c.classes) k,
              )
              refl,
    )
