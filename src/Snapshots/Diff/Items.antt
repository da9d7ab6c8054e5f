-- ===== src/Snapshots/Diff/Items.antt =====
-- A pair of items is reported exactly if the fields that are compared differ.
use taxonomy_builder.Common.{
  ℕ, ◌≡◌, refl, sym, ◌∙◌, ap, subst, inl, inr, Bool, true, false, ◌&&◌, Option, none, some, List,
  [], ◌∷◌, ◌++◌, Text, map, all, Bool-cases, arith,
}
use taxonomy_builder.Models.Snapshot.{
  SnapshotConcept, SnapshotScheme, SnapshotProperty, SnapshotClass, FieldChange,
}
use taxonomy_builder.Snapshots.{flat, is_nil}
use taxonomy_builder.Snapshots.Diff.{
  changed, field_changes, resolve_change, changed_concept, changed_property, changed_class,
}
use taxonomy_builder.Snapshots.Diff.Dumps.{dump_concept, dump_scheme, dump_property, dump_class}
use taxonomy_builder.Snapshots.Diff.Fields.{
  Value, optional, optional_id, value_eq, value_eq_sound, value_eq_refl, differing,
}

pub is_nil-append : {A : Type 0} (xs ys : List A) → is_nil (xs ++ ys) ≡ (is_nil xs && is_nil ys)
is_nil-append [] ys = refl
is_nil-append (x ∷ xs) ys = refl

pub is_nil-map : {A B : Type 0} (f : A → B) (xs : List A) → is_nil (map f xs) ≡ is_nil xs
is_nil-map f [] = refl
is_nil-map f (x ∷ xs) = refl

pub is_nil-flat :
    {A B : Type 0} (f : A → List B) (xs : List A) → is_nil (flat f xs) ≡ all (λ x. is_nil (f x)) xs
is_nil-flat f [] = refl
is_nil-flat f (x ∷ xs) =
    is_nil-append (f x) (flat f xs) ∙ ap (λ b. is_nil (f x) && b) (is_nil-flat f xs)

is_nil-changed :
    (entity_type : Text) (id : ℕ) (label : Text) (changes : List FieldChange)
    → is_nil (changed entity_type id label changes) ≡ is_nil changes
is_nil-changed entity_type id label [] = refl
is_nil-changed entity_type id label (c ∷ changes) = refl

-- the values of the fields are the same
abbrev pub SameValues : List (Text × Value) → List (Text × Value) → Type 0
SameValues ((f, v) ∷ prev) ((g, w) ∷ curr) = (v ≡ w) × SameValues prev curr
SameValues _ _ = Unit {0}

pub differing-SameValues :
    (prev curr : List (Text × Value)) → is_nil (differing prev curr) ≡ true → SameValues prev curr
differing-SameValues [] [] h = tt
differing-SameValues [] (w ∷ curr) h = tt
differing-SameValues (v ∷ prev) [] h = tt
differing-SameValues ((f, v) ∷ prev) ((g, w) ∷ curr) h = elim (Bool-cases (value_eq v w)) [
  | inl e ↦ (value_eq_sound v w e, differing-SameValues prev curr (rw e at h))
  | inr e ↦ absurd (wrong (rw e at h))
]
  where
    wrong : false ≡ true → ⊥
    wrong e = cc

pub differing_self : (fields : List (Text × Value)) → is_nil (differing fields fields) ≡ true
differing_self [] = refl
differing_self ((f, v) ∷ fields) = rw (value_eq_refl v) (differing_self fields)

optional_inj : (s t : Option Text) → optional s ≡ optional t → s ≡ t
optional_inj none none e = refl
optional_inj none (some t) e = cc
optional_inj (some s) none e = cc
optional_inj (some s) (some t) e = cc

optional_id_inj : (s t : Option ℕ) → optional_id s ≡ optional_id t → s ≡ t
optional_id_inj none none e = refl
optional_id_inj none (some t) e = cc
optional_id_inj (some s) none e = cc
optional_id_inj (some s) (some t) e = cc

concept_same :
    (a b : SnapshotConcept) → a.id ≡ b.id → SameValues (dump_concept a) (dump_concept b) → a ≡ b
concept_same a b id same =
    ground (arith, optional_inj a.definition b.definition, optional_inj a.scope_note b.scope_note)

property_same :
    (a b : SnapshotProperty) → a.id ≡ b.id → SameValues (dump_property a) (dump_property b) → a ≡ b
property_same a b id same = ground (
  arith,
  optional_inj a.description b.description,
  optional_id_inj a.range_scheme_id b.range_scheme_id,
  optional_inj a.range_scheme_uri b.range_scheme_uri,
  optional_inj a.range_datatype b.range_datatype,
  optional_inj a.range_class b.range_class,
)

class_same : (a b : SnapshotClass) → a.id ≡ b.id → SameValues (dump_class a) (dump_class b) → a ≡ b
class_same a b id same =
    ground (arith, optional_inj a.description b.description, optional_inj a.scope_note b.scope_note)

-- the metadata of two schemes
pub record SameMetadata (a b : SnapshotScheme) : Type 0 where
  pub title : a.title ≡ b.title
  pub description : a.description ≡ b.description
  pub uri : a.uri ≡ b.uri

pub scheme_same :
    (a b : SnapshotScheme) → SameValues (dump_scheme a) (dump_scheme b) → SameMetadata a b
scheme_same a b same =
    ground (arith, optional_inj a.description b.description, optional_inj a.uri b.uri)

module _ (str : Value → Text) where
  field_changes_nil :
      (labels : List (ℕ × Text)) (prev curr : List (Text × Value))
      → is_nil (field_changes str labels prev curr) ≡ is_nil (differing prev curr)
  field_changes_nil labels prev curr = is_nil-map (resolve_change str labels) (differing prev curr)

  -- a pair of items that has changes is one whose fields differ
  pub changed_nil :
      (labels : List (ℕ × Text)) (entity_type : Text) (id : ℕ) (label : Text)
      (prev curr : List (Text × Value))
      → is_nil (changed entity_type id label (field_changes str labels prev curr))
        ≡ is_nil (differing prev curr)
  changed_nil labels entity_type id label prev curr =
      is_nil-changed entity_type id label (field_changes str labels prev curr)
      ∙ field_changes_nil labels prev curr

  module _ (labels : List (ℕ × Text)) where
    abbrev pub same_concept : SnapshotConcept × SnapshotConcept → Bool
    same_concept p = is_nil (changed_concept str labels p)

    pub concept_sound : (a b : SnapshotConcept) → a.id ≡ b.id → same_concept (a, b) ≡ true → a ≡ b
    concept_sound a b id h = concept_same a b id (
        differing-SameValues (dump_concept a) (dump_concept b)
          (sym (changed_nil labels _ b.id b.pref_label (dump_concept a) (dump_concept b)) ∙ h))

    pub concept_complete :
        (a b : SnapshotConcept) → a.id ≡ b.id → a ≡ b → same_concept (a, b) ≡ true
    concept_complete a b id h =
        subst (λ c. same_concept (a, c) ≡ true) h
          (changed_nil labels _ a.id a.pref_label (dump_concept a) (dump_concept a)
            ∙ differing_self (dump_concept a))

    abbrev pub same_property : SnapshotProperty × SnapshotProperty → Bool
    same_property p = is_nil (changed_property str labels p)

    pub property_sound :
        (a b : SnapshotProperty) → a.id ≡ b.id → same_property (a, b) ≡ true → a ≡ b
    property_sound a b id h = property_same a b id (
        differing-SameValues (dump_property a) (dump_property b)
          (sym (changed_nil labels _ b.id b.label (dump_property a) (dump_property b)) ∙ h))

    pub property_complete :
        (a b : SnapshotProperty) → a.id ≡ b.id → a ≡ b → same_property (a, b) ≡ true
    property_complete a b id h =
        subst (λ c. same_property (a, c) ≡ true) h
          (changed_nil labels _ a.id a.label (dump_property a) (dump_property a)
            ∙ differing_self (dump_property a))

    abbrev pub same_class : SnapshotClass × SnapshotClass → Bool
    same_class p = is_nil (changed_class str p)

    pub class_sound : (a b : SnapshotClass) → a.id ≡ b.id → same_class (a, b) ≡ true → a ≡ b
    class_sound a b id h = class_same a b id (
        differing-SameValues (dump_class a) (dump_class b)
          (sym (changed_nil [] _ b.id b.label (dump_class a) (dump_class b)) ∙ h))

    pub class_complete : (a b : SnapshotClass) → a.id ≡ b.id → a ≡ b → same_class (a, b) ≡ true
    class_complete a b id h =
        subst (λ c. same_class (a, c) ≡ true) h
          (changed_nil [] _ a.id a.label (dump_class a) (dump_class a)
            ∙ differing_self (dump_class a))
