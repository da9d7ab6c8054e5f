-- ===== src/Concepts/Related.antt =====
-- The related relation: `add_related`, `remove_related`, and `Concept.related` of
-- backend/src/taxonomy_builder/models/concept.py.
pub mod Symmetry
pub mod Normal
pub mod Effects
use taxonomy_builder.Common.{
  ℕ, Bool, true, false, not, ◌&&◌, Text, text, none, some, List, [], ◌∷◌, ◌++◌, filter, any,
  contains, map, ok, raise, raise_if, ◌>>=◌, ◌>>◌, ◌==◌, ltb, if◌then◌else◌,
}
use taxonomy_builder.Models.Vocabulary.{Concept, ConceptScheme, ConceptRelated}
use taxonomy_builder.Models.Session.{Session, rollback}
use taxonomy_builder.Tracker.{Actor, event, record_change, serialize_related}
use taxonomy_builder.Concepts.{
  Service, get_concept, get_scheme, related_relationship_exists, related_relationship_not_found,
  related_self_reference, related_same_scheme,
}

abbrev pub same_related : ℕ → ℕ → ConceptRelated → Bool
same_related id1 id2 rel = rel.concept_id == id1 && rel.related_concept_id == id2

-- `id1, id2 = ...`: smaller first
abbrev pub smaller : ℕ → ℕ → ℕ
smaller a b = if ltb a b then a else b

abbrev pub larger : ℕ → ℕ → ℕ
larger a b = if ltb a b then b else a

-- the label of the smaller, or of the larger identifier
abbrev pub smaller_label : Concept → Concept → ℕ → ℕ → Text
smaller_label c d a b = if ltb a b then c.pref_label else d.pref_label

abbrev pub larger_label : Concept → Concept → ℕ → ℕ → Text
larger_label c d a b = if ltb a b then d.pref_label else c.pref_label

abbrev pub related_row : ℕ → ℕ → ConceptRelated
related_row a b = record { concept_id = smaller a b; related_concept_id = larger a b }

unfoldable pub insert_related : ℕ → ℕ → Service (Unit {0})
insert_related a b s =
    if any (same_related (smaller a b) (larger a b)) s.related
    then (raise (related_relationship_exists a b), rollback s)
    else (
      ok tt,
      record s { tables = record s.tables { related = s.related ++ related_row a b ∷ [] } },
    )

unfoldable pub delete_related : ℕ → ℕ → Service (Unit {0})
delete_related a b s =
    if any (same_related (smaller a b) (larger a b)) s.related
    then (
      ok tt,
      record s {
        tables = record s.tables {
          related = filter (λ x. not (same_related (smaller a b) (larger a b) x)) s.related;
        };
      },
    )
    else (raise (related_relationship_not_found a b), s)

module _ (actor : Actor) where
  unfoldable pub add_related : ℕ → ℕ → Service (Unit {0})
  unfolding get_concept get_scheme insert_related
  add_related concept_id related_id = do
    raise_if (concept_id == related_id) (related_self_reference concept_id)
    concept ← get_concept concept_id
    related ← get_concept related_id
    raise_if (not (concept.scheme_id == related.scheme_id))
        (related_same_scheme concept_id related_id)
    scheme ← get_scheme concept.scheme_id
    insert_related concept_id related_id
    record_change (
        event actor scheme.project_id (text "concept_related") concept_id (text "create") none
          (some (
            serialize_related (smaller concept_id related_id) (larger concept_id related_id)
              (smaller_label concept related concept_id related_id)
              (larger_label concept related concept_id related_id)))
          (some concept.scheme_id))

  unfoldable pub remove_related : ℕ → ℕ → Service (Unit {0})
  unfolding get_concept get_scheme delete_related
  remove_related concept_id related_id = do
    concept ← get_concept concept_id
    related ← get_concept related_id
    scheme ← get_scheme concept.scheme_id
    delete_related concept_id related_id
    record_change (
        event actor scheme.project_id (text "concept_related") concept_id (text "delete")
          (some (
            serialize_related (smaller concept_id related_id) (larger concept_id related_id)
              (smaller_label concept related concept_id related_id)
              (larger_label concept related concept_id related_id)))
          none (some concept.scheme_id))

-- `_related_as_subject` and `_related_as_object`
as_subject : List ConceptRelated → ℕ → List ℕ
as_subject [] c = []
as_subject (rel ∷ rels) c =
    let rest = as_subject rels c in
    if rel.concept_id == c then rel.related_concept_id ∷ rest else rest

as_object : List ConceptRelated → ℕ → List ℕ
as_object [] c = []
as_object (rel ∷ rels) c =
    let rest = as_object rels c in
    if rel.related_concept_id == c then rel.concept_id ∷ rest else rest

-- the loops of `related`: those not seen yet, in order
add_unseen : List ℕ → List ℕ → List ℕ
add_unseen seen [] = seen
add_unseen seen (x ∷ xs) = add_unseen (if contains seen x then seen else seen ++ x ∷ []) xs

-- the identifiers of `Concept.related`
unfoldable pub related_ids : List ConceptRelated → ℕ → List ℕ
unfolding as_subject as_object add_unseen
related_ids rels c = add_unseen (add_unseen [] (as_subject rels c)) (as_object rels c)
