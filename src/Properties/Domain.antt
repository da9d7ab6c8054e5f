-- ===== src/Properties/Domain.antt =====
-- Domain classes are found for every URI, and none twice.
use taxonomy_builder.Common.{
  first_of_each, ℕ, ◌≡◌, refl, sym, ◌∙◌, ap, inl, inr, Bool, true, false, ◌&&◌, Option, none, some,
  List, [], ◌∷◌, Text, text_eq, text_eq_refl, contains_text, ◌==◌, find, any, all, Result, ok,
  raise, or_raise, Bool-cases, arith, Triple, Triple-bind, Triple-fail, Ensures,
}
use mathlib.Core.Option.{some-injective}
use taxonomy_builder.Models.Vocabulary.{OntologyClass}
use taxonomy_builder.Models.Session.{Session}
use taxonomy_builder.Properties.{
  PropertyError, domain_class_not_found, find_class, find_classes, resolve_domain_class_uris,
}
use taxonomy_builder.Properties.ByUri.{
  is_class, UniqueIds, no_repeat, is_resolved, first_of_each-contains, first_of_each-no_repeat,
  resolved-no_repeat, all-contains, resolved-any, resolved-all,
}

-- the URI of a request that no class of the project has
abbrev Missing : List OntologyClass → ℕ → List Text → PropertyError → Type 0
Missing classes project_id uris e =
    (uri : Text) × (e ≡ domain_class_not_found uri)
    × (contains_text uris uri ≡ true)
    × (find (λ c. c.project_id == project_id && text_eq c.uri uri) classes ≡ none)

find-is_class :
    (classes : List OntologyClass) (project_id : ℕ) (uri : Text) (c : OntologyClass)
    → find (λ d. d.project_id == project_id && text_eq d.uri uri) classes ≡ some c
    → is_class classes project_id uri c.id ≡ true
find-is_class [] project_id uri c h = cc
find-is_class (d ∷ classes) project_id uri c h =
    elim (Bool-cases (d.project_id == project_id && text_eq d.uri uri)) [
      | inl e ↦
          let same = ap (λ (k : OntologyClass). k.id) (some-injective d c (rw e at h)) in
          rw e (ground (arith, same))
      | inr e ↦ ground (arith, find-is_class classes project_id uri c (rw e at h))
    ]

module _ (classes : List OntologyClass) (project_id : ℕ) where
  -- the classes are those of the session
  abbrev Reads : Session → Type 0
  Reads s = classes ≡ s.classes

  find_class_lem :
      (uri : Text)
      → Triple Reads
          (find_class project_id uri)
          (λ c s. Reads s × (is_class classes project_id uri c.id ≡ true))
          (λ e _. Missing classes project_id (uri ∷ []) e)
  unfolding find_class
  find_class_lem uri = record {
    at = λ s h. go s h (find (λ c. c.project_id == project_id && text_eq c.uri uri) s.classes) refl;
  }
    where
      go :
          (s : Session)
          → Reads s
          → (found : Option OntologyClass)
          → find (λ c. c.project_id == project_id && text_eq c.uri uri) s.classes ≡ found
          → Ensures
              (λ c s. Reads s × (is_class classes project_id uri c.id ≡ true))
              (λ e _. Missing classes project_id (uri ∷ []) e)
              (or_raise (domain_class_not_found uri) found s).0
              (or_raise (domain_class_not_found uri) found s).1
      go s h none e = (
        uri,
        refl,
        ground (arith, text_eq_refl uri),
        ap (find (λ c. c.project_id == project_id && text_eq c.uri uri)) h ∙ e,
      )
      go s h (some c) e = (
        h,
        find-is_class classes project_id uri c
            (ap (find (λ d. d.project_id == project_id && text_eq d.uri uri)) h ∙ e),
      )

  Missing-among :
      (uri : Text) (uris : List Text) (e : PropertyError)
      → Missing classes project_id (uri ∷ []) e
      → Missing classes project_id (uri ∷ uris) e
  Missing-among uri uris e (u, eq, here, gone) = (u, eq, ground arith, gone)

  Missing-later :
      (uri : Text) (uris : List Text) (e : PropertyError)
      → Missing classes project_id uris e
      → Missing classes project_id (uri ∷ uris) e
  Missing-later uri uris e (u, eq, here, gone) = (u, eq, ground arith, gone)

  -- a fact about the classes that were read stays
  with_head :
      (b : Bool) (uris : List Text)
      → Triple Reads
          (find_classes project_id uris)
          (λ ids s. Reads s × (is_resolved classes project_id uris ids ≡ true))
          (λ e _. Missing classes project_id uris e)
      → Triple
          (λ s. Reads s × (b ≡ true))
          (find_classes project_id uris)
          (λ ids s. Reads s × ((b && is_resolved classes project_id uris ids) ≡ true))
          (λ e _. Missing classes project_id uris e)
  with_head true uris t = record { at = λ s h. t.at s h.0 }
  with_head false uris t = record { at = λ s (h, e). absurd_of e }
    where
      absurd_of : {A : Type 0} → false ≡ true → A
      absurd_of e = cc

  find_classes_lem :
      (uris : List Text)
      → Triple Reads
          (find_classes project_id uris)
          (λ ids s. Reads s × (is_resolved classes project_id uris ids ≡ true))
          (λ e _. Missing classes project_id uris e)
  unfolding find_classes
  find_classes_lem [] = record { at = λ s h. (h, refl) }
  find_classes_lem (uri ∷ uris) =
      Triple-bind _ _ (Triple-fail _ (λ e s. Missing-among uri uris e) (find_class_lem uri)) λ c.
        Triple-bind _ _
          (Triple-fail _ (λ e s. Missing-later uri uris e)
            (with_head (is_class classes project_id uri c.id) uris (find_classes_lem uris)))
          λ ids. record { at = λ s (h, k). (h, ground arith) }

-- what resolving is to give: a class for each URI, each class for a URI, none twice, or an error
-- that names a URI without a class
abbrev pub Outcome : List OntologyClass → ℕ → List Text → Result PropertyError (List ℕ) → Type 0
Outcome classes project_id uris (ok ids) =
    (all (λ uri. any (is_class classes project_id uri) ids) uris ≡ true)
    × (all (λ id. any (λ uri. is_class classes project_id uri id) uris) ids ≡ true)
    × (no_repeat ids ≡ true)
Outcome classes project_id uris (raise e) = Missing classes project_id uris e

first_of_each-sub :
    (uris : List Text) (u : Text) → contains_text (first_of_each [] uris) u ≡ contains_text uris u
first_of_each-sub uris u = ground (arith, first_of_each-contains [] uris u)

outcome :
    (classes : List OntologyClass) (project_id : ℕ) (uris : List Text)
    (r : Result PropertyError (List ℕ)) (s : Session)
    → UniqueIds classes
    → Ensures
        (λ ids t.
          Reads classes project_id t
          × (is_resolved classes project_id (first_of_each [] uris) ids ≡ true))
        (λ e _. Missing classes project_id (first_of_each [] uris) e)
        r
        s
    → Outcome classes project_id uris r
outcome classes project_id uris (ok ids) s u (_, r) = (
  all-contains _ uris (λ v h.
      resolved-any classes project_id (first_of_each [] uris) ids v r
        (first_of_each-sub uris v ∙ h)),
  resolved-all classes project_id uris (first_of_each [] uris) ids
      (λ v h. sym (first_of_each-sub uris v) ∙ h) r,
  resolved-no_repeat classes project_id (first_of_each [] uris) ids u r
      (first_of_each-no_repeat [] uris),
)
outcome classes project_id uris (raise e) s u (v, eq, here, gone) =
    (v, eq, sym (first_of_each-sub uris v) ∙ here, gone)

-- Where no two classes share an id, resolving the URIs of a request, repeated or not, gives the ids
-- of their classes in the project, none of them twice, or else an error that names a URI of the
-- request that no class of the project has.
pub resolve-Outcome :
    (s : Session) (project_id : ℕ) (uris : List Text)
    → UniqueIds s.classes
    → Outcome s.classes project_id uris (resolve_domain_class_uris project_id uris s).0
unfolding resolve_domain_class_uris
resolve-Outcome s project_id uris u =
    outcome s.classes project_id uris _ (find_classes project_id (first_of_each [] uris) s).1 u
      ((find_classes_lem s.classes project_id (first_of_each [] uris)).at s refl)
