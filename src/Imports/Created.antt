-- ===== src/Imports/Created.antt =====
-- The classes that an import creates are those of the preview, by identifier and in the same order,
-- where no two classes of the file share a URI or an identifier.
use taxonomy_builder.Common.{
  ℕ, ◌≡◌, refl, ◌∙◌, ap, inl, inr, true, false, List, [], ◌∷◌, Text, text_eq_iff, text_eq_refl,
  contains_text, map, Bool-cases, arith,
}
use taxonomy_builder.Models.Vocabulary.{OntologyClass}
use taxonomy_builder.Rdf.Classes.{ClassMetadata}
use taxonomy_builder.Imports.{Environment, ClassCreatedResponse, collect, put_all}
use taxonomy_builder.Imports.Classes.{
  classes_to_create, create_class, insert_class, class_row, log_class, wire_classes, import_classes,
}
use taxonomy_builder.Imports.Preview.{ClassPreviewResponse, preview_classes}
use taxonomy_builder.Imports.Counts.{are_distinct}
use taxonomy_builder.Imports.Returns.{
  Runs, insert_in_project-Runs, Returns, Returns-at, Returns-pure, Returns-bind, Returns-then,
  Returns-collect,
}

abbrev pub uris : List ClassMetadata → List Text
uris metadata = map (λ cm. cm.uri) metadata

abbrev pub identifiers : List ClassMetadata → List Text
identifiers metadata = map (λ cm. cm.identifier) metadata

abbrev pub class_identifiers : List ClassCreatedResponse → List Text
class_identifiers created = map (λ c. c.identifier) created

abbrev pub previewed_classes : List ClassPreviewResponse → List Text
previewed_classes previews = map (λ c. c.identifier) previews

-- two lists that agree on the members of a third
abbrev Alike : List Text → List Text → List Text → Type 0
Alike members known existing =
    (t : Text) → contains_text members t ≡ true → contains_text known t ≡ contains_text existing t

Alike-cons :
    (t : Text) (members known existing : List Text)
    → contains_text members t ≡ false
    → Alike (t ∷ members) known existing
    → Alike members (t ∷ known) existing
Alike-cons t members known existing out alike v there = ground (arith, alike v, text_eq_iff t v)

Alike-tail :
    (t : Text) (members known existing : List Text)
    → Alike (t ∷ members) known existing
    → Alike members known existing
Alike-tail t members known existing alike v there = alike v (ground arith)

classes_to_create-preview :
    (known_uris known_ids existing_uris existing_ids : List Text) (metadata : List ClassMetadata)
    → are_distinct (uris metadata) ≡ true
    → are_distinct (identifiers metadata) ≡ true
    → Alike (uris metadata) known_uris existing_uris
    → Alike (identifiers metadata) known_ids existing_ids
    → identifiers (classes_to_create known_uris known_ids metadata)
      ≡ previewed_classes (preview_classes metadata existing_uris existing_ids)
unfolding classes_to_create preview_classes
classes_to_create-preview known_uris known_ids existing_uris existing_ids [] du di au ai = refl
classes_to_create-preview known_uris known_ids existing_uris existing_ids (cm ∷ metadata) du di au
      ai =
    let u = cm.uri in
    let i = cm.identifier in
    let u_new : contains_text (uris metadata) u ≡ false = ground arith in
    let i_new : contains_text (identifiers metadata) i ≡ false = ground arith in
    let rest_u : are_distinct (uris metadata) ≡ true = ground arith in
    let rest_i : are_distinct (identifiers metadata) ≡ true = ground arith in
    let same_u = au u (ground (arith, text_eq_refl u)) in
    let same_i = ai i (ground (arith, text_eq_refl i)) in
    let skipped =
      classes_to_create-preview known_uris known_ids existing_uris existing_ids metadata rest_u
        rest_i (Alike-tail u (uris metadata) known_uris existing_uris au)
        (Alike-tail i (identifiers metadata) known_ids existing_ids ai) in
    let created =
      classes_to_create-preview (u ∷ known_uris) (i ∷ known_ids) existing_uris existing_ids metadata
        rest_u rest_i (Alike-cons u (uris metadata) known_uris existing_uris u_new au)
        (Alike-cons i (identifiers metadata) known_ids existing_ids i_new ai) in
    elim (Bool-cases (contains_text existing_uris u)) [
      | inl e ↦ rw (same_u ∙ e, e) skipped
      | inr e ↦ elim (Bool-cases (contains_text existing_ids i)) [
        | inl f ↦ rw (same_u ∙ e, e, same_i ∙ f, f) skipped
        | inr f ↦ rw (same_u ∙ e, e, same_i ∙ f, f) (ap (λ ids. i ∷ ids) created)
      ]
    ]

module _ (env : Environment) (project_id : ℕ) where
  insert_class-Runs : (row : OntologyClass) → Runs (insert_class env row)
  insert_class-Runs row = insert_in_project-Runs _ _ _

  create_class-Returns :
      (cm : ClassMetadata)
      → Returns (create_class env project_id cm) (λ c. c.identifier ≡ cm.identifier)
  unfolding create_class
  create_class-Returns cm = Returns-at _ _ λ s.
      let row = class_row env project_id cm s in
      Returns-then (insert_class env row) _ _ (insert_class-Runs row) λ u. Returns-pure row _ refl

  log_class-Returns :
      (c : OntologyClass) → Returns (log_class env project_id c) (λ r. r.identifier ≡ c.identifier)
  log_class-Returns c = record { at = λ s h. refl }

  pub import_classes-Returns :
      (metadata : List ClassMetadata) (existing_uris existing_ids : List Text)
      (uri_to_id : List (Text × ℕ))
      → are_distinct (uris metadata) ≡ true
      → are_distinct (identifiers metadata) ≡ true
      → Returns (import_classes env project_id metadata existing_uris existing_ids uri_to_id) (λ r.
        class_identifiers r.0
        ≡ previewed_classes (preview_classes metadata existing_uris existing_ids))
  unfolding import_classes
  import_classes-Returns metadata existing_uris existing_ids uri_to_id du di =
      let new = classes_to_create existing_uris existing_ids metadata in
      Returns-bind (collect (create_class env project_id) new) _ _ _
        (Returns-collect (create_class env project_id) (λ cm. cm.identifier) (λ c. c.identifier)
          create_class-Returns new)
        λ rows r.
          let class_uri_to_id = put_all (λ c. c.uri) (λ c. c.id) uri_to_id rows in
          Returns-then (wire_classes env class_uri_to_id metadata) _ _ (record { at = λ s h. tt })
            λ warnings.
              Returns-bind (collect (log_class env project_id) rows) _ _ _
                (Returns-collect (log_class env project_id) (λ c. c.identifier) (λ c. c.identifier)
                  log_class-Returns rows)
                λ created c.
                  Returns-pure (created, warnings, class_uri_to_id) _
                    (c
                      ∙ r
                      ∙ classes_to_create-preview existing_uris existing_ids existing_uris
                          existing_ids metadata du di (λ t h. refl) (λ t h. refl))
