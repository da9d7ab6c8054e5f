-- ===== src/Properties/Ranges.antt =====
-- Every property has the range that it is to have.
use taxonomy_builder.Common.{
  first_of_each, ℕ, ◌≡◌, refl, ◌∙◌, ap, inl, inr, Bool, true, false, not, ◌&&◌, ◌||◌, Option, none,
  some, List, [], ◌∷◌, ◌++◌, Text, text, text_eq, ◌==◌, find, any, all, filter, Result, Bool-cases,
  arith, Triple, Triple-bind, Triple-fail, Triple-after, Triple-or_raise, Triple-raise_if, Ensures,
}
use mathlib.Core.Option.{some-injective}
use taxonomy_builder.Models.Vocabulary.{ConceptScheme, Property}
use taxonomy_builder.Models.Session.{Db, Session, Both}
use taxonomy_builder.Properties.{
  PropertyError, project_not_found, domain_class_not_found, invalid_range, scheme_not_in_project,
  provided, get_project, get_scheme, check_scheme, validate_range, find_class, find_classes,
  resolve_domain_class_uris, same_identifier, same_uri, insert_property,
}
use taxonomy_builder.Properties.Edit.{replace_property, write_property, find_new_domain}

-- a scheme of that project
abbrev in_project : List ConceptScheme → ℕ → Option ℕ → Bool
in_project schemes project_id none = true
in_project schemes project_id (some id) =
    any (λ s. s.id == id && s.project_id == project_id) schemes

-- exactly one range, and a scheme as a range is one of the project's
abbrev pub has_range : List ConceptScheme → ℕ → Option ℕ → Option Text → Option Text → Bool
has_range schemes project_id scheme_id datatype range_class =
    provided scheme_id datatype range_class == 1 && in_project schemes project_id scheme_id

-- an imported rdf:Property may have no range
abbrev pub is_ranged : List ConceptScheme → Property → Bool
is_ranged schemes p =
    text_eq p.property_type (text "rdf")
    || has_range schemes p.project_id p.range_scheme_id p.range_datatype p.range_class

abbrev pub AllRanged : Db → Type 0
AllRanged db = all (is_ranged db.schemes) db.properties ≡ true

abbrev pub Good : Session → Type 0
Good = Both AllRanged

abbrev pub Ranged : ℕ → Option ℕ → Option Text → Option Text → Session → Type 0
Ranged project_id scheme_id datatype range_class s =
    Good s × (has_range s.schemes project_id scheme_id datatype range_class ≡ true)

found_in_project :
    (project_id id : ℕ) (schemes : List ConceptScheme) (x : ConceptScheme)
    → find (λ y. y.id == id) schemes ≡ some x
    → (x.project_id == project_id) ≡ true
    → any (λ y. y.id == id && y.project_id == project_id) schemes ≡ true
found_in_project project_id id [] x h e = cc
found_in_project project_id id (y ∷ schemes) x h e = elim (Bool-cases (y.id == id)) [
  | inl f ↦
      let here : (y.project_id == project_id) ≡ true =
        ap (λ (z : ConceptScheme). z.project_id == project_id) (some-injective y x (rw f at h))
        ∙ e in
      ground arith
  | inr f ↦ ground (arith, found_in_project project_id id schemes x (rw f at h))
]

check_scheme_keeps :
    (project_id : ℕ) (scheme_id : Option ℕ)
    → Triple Good
        (check_scheme project_id scheme_id)
        (λ _ s. Good s × (in_project s.schemes project_id scheme_id ≡ true))
        (λ _. Good)
unfolding check_scheme get_scheme
check_scheme_keeps project_id none = record { at = λ s h. (h, refl) }
check_scheme_keeps project_id (some id) =
    Triple-bind _ _
      (Triple-or_raise Good (scheme_not_in_project id project_id)
        (λ s. find (λ x. x.id == id) s.schemes))
      λ x.
        Triple-after _
          (λ _ s ((h, found), same).
            (h, found_in_project project_id id s.schemes x found (ground arith)))
          (Triple-fail _ (λ e s h. h.0)
            (Triple-raise_if (λ s. Good s × (find (λ y. y.id == id) s.schemes ≡ some x))
              (not (x.project_id == project_id)) (scheme_not_in_project id project_id)))

pub validate_range_keeps :
    (project_id : ℕ) (scheme_id : Option ℕ) (datatype range_class : Option Text)
    → Triple Good
        (validate_range project_id scheme_id datatype range_class)
        (λ _. Ranged project_id scheme_id datatype range_class)
        (λ _. Good)
unfolding validate_range
validate_range_keeps project_id scheme_id datatype range_class =
    Triple-bind _ _
      (Triple-raise_if Good (not (provided scheme_id datatype range_class == 1)) invalid_range)
      λ _. record {
        at = λ s (h, one).
            keep (provided scheme_id datatype range_class == 1) one
              (check_scheme project_id scheme_id s).0 (check_scheme project_id scheme_id s).1
              ((check_scheme_keeps project_id scheme_id).at s h);
      }
  where
    keep :
        (b : Bool)
        → not b ≡ false
        → (r : Result PropertyError (Unit {0})) (s : Session)
        → Ensures
            (λ _ t. Good t × (in_project t.schemes project_id scheme_id ≡ true))
            (λ _. Good)
            r
            s
        → Ensures
            (λ _ t. Good t × ((b && in_project t.schemes project_id scheme_id) ≡ true))
            (λ _. Good)
            r
            s
    keep true e r s h = h
    keep false e r s h = ground arith

pub get_project_keeps :
    (project_id : ℕ) → Triple Good (get_project project_id) (λ _. Good) (λ _. Good)
unfolding get_project
get_project_keeps project_id =
    Triple-after _ (λ _ s h. h.0)
      (Triple-or_raise Good (project_not_found project_id)
        (λ s. find (λ p. p.id == project_id) s.projects))

module _ (P : Session → Type 0) where
  find_class_keeps :
      (project_id : ℕ) (uri : Text) → Triple P (find_class project_id uri) (λ _. P) (λ _. P)
  unfolding find_class
  find_class_keeps project_id uri =
      Triple-after _ (λ _ s h. h.0)
        (Triple-or_raise P (domain_class_not_found uri)
          (λ s. find (λ c. c.project_id == project_id && text_eq c.uri uri) s.classes))

  find_classes_keeps :
      (project_id : ℕ) (uris : List Text)
      → Triple P (find_classes project_id uris) (λ _. P) (λ _. P)
  unfolding find_classes
  find_classes_keeps project_id [] = record { at = λ s h. h }
  find_classes_keeps project_id (uri ∷ uris) =
      Triple-bind _ _ (find_class_keeps project_id uri)
        λ c. Triple-bind _ _ (find_classes_keeps project_id uris) λ ids. record { at = λ s h. h }

  pub resolve_keeps :
      (project_id : ℕ) (uris : List Text)
      → Triple P (resolve_domain_class_uris project_id uris) (λ _. P) (λ _. P)
  unfolding resolve_domain_class_uris
  resolve_keeps project_id uris = find_classes_keeps project_id (first_of_each [] uris)

  pub find_new_domain_keeps :
      (project_id : ℕ) (uris : Option (List Text))
      → Triple P (find_new_domain project_id uris) (λ _. P) (λ _. P)
  unfolding find_new_domain
  find_new_domain_keeps project_id none = record { at = λ s h. h }
  find_new_domain_keeps project_id (some uris) =
      Triple-bind _ _ (resolve_keeps project_id uris) λ classes. record { at = λ s h. h }

module _ {A : Type 0} (p : A → Bool) where
  all-append :
      (rows : List A) (row : A) → all p rows ≡ true → p row ≡ true → all p (rows ++ row ∷ []) ≡ true
  all-append [] row a h = ground arith
  all-append (x ∷ rows) row a h = ground (arith, all-append rows row)

  pub all-filter : (q : A → Bool) (rows : List A) → all p rows ≡ true → all p (filter q rows) ≡ true
  all-filter q [] a = refl
  all-filter q (x ∷ rows) a = ground (arith, all-filter q rows)

all-replace_property :
    (q : Property → Bool) (row : Property) (rows : List Property)
    → all q rows ≡ true
    → q row ≡ true
    → all q (replace_property row rows) ≡ true
all-replace_property q row [] a h = refl
all-replace_property q row (x ∷ rows) a h = ground (arith, all-replace_property q row rows)

-- the row is ranged
abbrev pub GoodRow : Property → Session → Type 0
GoodRow row s = Good s × (is_ranged s.schemes row ≡ true)

pub insert_property_keeps :
    (row : Property) (classes : List ℕ)
    → Triple (GoodRow row) (insert_property row classes) (λ _. Good) (λ _. Good)
unfolding insert_property
insert_property_keeps row classes = record {
  at = λ s ((now, back), h). elim (Bool-cases (any (same_identifier row) s.properties)) [
    | inl e ↦ rw e (back, back)
    | inr e ↦ elim (Bool-cases (any (same_uri row) s.properties)) [
      | inl f ↦ rw (e, f) (back, back)
      | inr f ↦ rw (e, f) (all-append (is_ranged s.schemes) s.properties row now h, back)
    ]
  ];
}

pub write_property_keeps :
    (row : Property) (classes : Option (List ℕ))
    → Triple (GoodRow row) (write_property row classes) (λ _. Good) (λ _. Good)
unfolding write_property
write_property_keeps row classes = record {
  at = λ s ((now, back), h). elim (Bool-cases (any (same_identifier row) s.properties)) [
    | inl e ↦ rw e (back, back)
    | inr e ↦ elim (Bool-cases (any (same_uri row) s.properties)) [
      | inl f ↦ rw (e, f) (back, back)
      | inr f ↦ rw (e, f) (all-replace_property (is_ranged s.schemes) row s.properties now h, back)
    ]
  ];
}
