-- ===== src/Concepts/Related/Symmetry.antt =====
-- The related concepts of a concept, by the rows of the table.
use taxonomy_builder.Common.{
  ℕ, ◌≡◌, refl, Bool, ◌||◌, List, [], ◌∷◌, ◌++◌, any, contains, contains-append, if◌then◌else◌,
  arith,
}
use taxonomy_builder.Models.Vocabulary.{ConceptRelated}
use taxonomy_builder.Concepts.Related.{same_related, as_subject, as_object, add_unseen, related_ids}

contains-add_unseen :
    (seen xs : List ℕ) (y : ℕ)
    → contains (add_unseen seen xs) y ≡ (contains seen y || contains xs y)
unfolding add_unseen
contains-add_unseen seen [] y = ground arith
contains-add_unseen seen (x ∷ xs) y = ground (
  arith,
  contains-add_unseen (if contains seen x then seen else seen ++ x ∷ []) xs y,
  contains-append seen (x ∷ []) y,
)

-- a row links the two, in either direction
abbrev pub links : ℕ → ℕ → ConceptRelated → Bool
links c d rel = same_related c d rel || same_related d c rel

contains-sides :
    (rels : List ConceptRelated) (c d : ℕ)
    → (contains (as_subject rels c) d || contains (as_object rels c) d) ≡ any (links c d) rels
unfolding as_subject as_object
contains-sides [] c d = refl
contains-sides (rel ∷ rels) c d = ground (arith, contains-sides rels c d)

pub contains-related_ids :
    (rels : List ConceptRelated) (c d : ℕ) → contains (related_ids rels c) d ≡ any (links c d) rels
unfolding related_ids
contains-related_ids rels c d = ground (
  arith,
  contains-add_unseen (add_unseen [] (as_subject rels c)) (as_object rels c) d,
  contains-add_unseen [] (as_subject rels c) d,
  contains-sides rels c d,
)
