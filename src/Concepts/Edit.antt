-- ===== src/Concepts/Edit.antt =====
-- `list_concepts_for_scheme`, `create_concept` and `update_concept`, with the validators of
-- backend/src/taxonomy_builder/schemas/concept.py. `lower` is Python's `str.lower`, whose
-- tables of Unicode are not modelled: a parameter.
pub mod Distinct
use taxonomy_builder.Common.{
  ℕ, Bool, true, false, not, ◌&&◌, ◌||◌, Text, text, text_eq, optional_eq, contains_text, is_empty,
  strip, Option, none, some, List, [], ◌∷◌, ◌++◌, filter, any, map, ok, raise, pure, ◌>>=◌, ◌>>◌,
  ◌==◌, if◌then◌else◌,
}
use taxonomy_builder.Models.Vocabulary.{Concept, ConceptScheme}
use taxonomy_builder.Models.Session.{Session}
use taxonomy_builder.Tracker.{Actor, event, record_change, serialize_concept}
use taxonomy_builder.Concepts.{Service, get_concept, get_scheme, integrity_error}

pub record ConceptCreate : Type 0 where
  pub pref_label : Text
  pub definition : Option Text
  pub scope_note : Option Text
  pub alt_labels : List Text

pub record ConceptUpdate : Type 0 where
  pub pref_label : Option Text
  pub definition : Option Text
  pub scope_note : Option Text
  pub alt_labels : Option (List Text)

module _ (lower : Text → Text) where
  -- the loop of `clean_alt_labels`, with `seen_lower` and the rest of the labels
  clean_from : List Text → List Text → List Text
  clean_from seen [] = []
  clean_from seen (label ∷ labels) =
      let stripped = strip label in
      let kept = clean_from (lower stripped ∷ seen) labels in
      let skipped = clean_from seen labels in
      if not (is_empty stripped) && not (contains_text seen (lower stripped))
      then stripped ∷ kept
      else skipped

  unfoldable pub clean_alt_labels : List Text → List Text
  unfolding clean_from
  clean_alt_labels = clean_from []

-- the uniqueness of (scheme_id, identifier), and of the primary key
abbrev pub clashes : Concept → Concept → Bool
clashes row x =
    x.id == row.id || x.scheme_id == row.scheme_id && text_eq x.identifier row.identifier

unfoldable pub insert_concept : Concept → Service (Unit {0})
insert_concept row s =
    if any (clashes row) s.concepts
    then (raise integrity_error, s)
    else (ok tt, record s { tables = record s.tables { concepts = s.concepts ++ row ∷ [] } })

-- the row that a flush writes back
abbrev pub replace_concept : Concept → List Concept → List Concept
replace_concept row = map (λ x. if x.id == row.id then row else x)

unfoldable pub write_concept : Concept → Service (Unit {0})
write_concept row s =
    (ok tt, record s { tables = record s.tables { concepts = replace_concept row s.concepts } })

abbrev or_else : {A : Type 0} → Option A → A → A
or_else none old = old
or_else (some new) old = new

abbrev texts_eq : List Text → List Text → Bool
texts_eq [] [] = true
texts_eq [] (y ∷ ys) = false
texts_eq (x ∷ xs) [] = false
texts_eq (x ∷ xs) (y ∷ ys) = text_eq x y && texts_eq xs ys

-- a flush writes a row, and its `updated_at`, only where an attribute has changed
abbrev unchanged : Concept → Concept → Bool
unchanged x y =
    text_eq x.pref_label y.pref_label
    && optional_eq x.definition y.definition
    && optional_eq x.scope_note y.scope_note
    && texts_eq x.alt_labels y.alt_labels

abbrev override : Option Text → Option Text → Option Text
override none old = old
override (some t) old = some t

module _ (actor : Actor) where
  abbrev pub new_concept : ℕ → ℕ → ConceptCreate → Text → Concept
  new_concept new_id scheme_id concept_in identifier = record {
    id = new_id;
    scheme_id = scheme_id;
    identifier = identifier;
    pref_label = concept_in.pref_label;
    definition = concept_in.definition;
    scope_note = concept_in.scope_note;
    alt_labels = concept_in.alt_labels;
    concept_type_uris = [];
    created_at = actor.now;
    updated_at = actor.now;
  }

  -- `new_id` is the `uuid7` of the row
  unfoldable pub create_concept : ℕ → ℕ → ConceptCreate → Text → Service Concept
  unfolding get_concept get_scheme insert_concept
  create_concept new_id scheme_id concept_in identifier = do
    scheme ← get_scheme scheme_id
    insert_concept (new_concept new_id scheme_id concept_in identifier)
    record_change (
        event actor scheme.project_id (text "concept") new_id (text "create") none
          (some (serialize_concept (new_concept new_id scheme_id concept_in identifier)))
          (some scheme_id))
    get_concept new_id

  abbrev edited : ConceptUpdate → Concept → Concept
  edited concept_in concept = record concept {
    pref_label = or_else concept_in.pref_label concept.pref_label;
    definition = override concept_in.definition concept.definition;
    scope_note = override concept_in.scope_note concept.scope_note;
    alt_labels = or_else concept_in.alt_labels concept.alt_labels;
  }

  abbrev pub updated : ConceptUpdate → Concept → Concept
  updated concept_in concept =
      let row = edited concept_in concept in
      if unchanged concept row then row else record row { updated_at = actor.now }

  unfoldable pub update_concept : ℕ → ConceptUpdate → Service Concept
  unfolding get_concept get_scheme write_concept
  update_concept concept_id concept_in = do
    concept ← get_concept concept_id
    scheme ← get_scheme concept.scheme_id
    write_concept (updated concept_in concept)
    record_change (
        event actor scheme.project_id (text "concept") concept_id (text "update")
          (some (serialize_concept concept)) (some (serialize_concept (updated concept_in concept)))
          (some concept.scheme_id))
    get_concept concept_id
