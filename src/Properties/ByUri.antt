-- ===== src/Properties/ByUri.antt =====
-- The classes that the URIs of a request stand for, with the first of equal URIs.
use taxonomy_builder.Common.{
  first_of_each, ℕ, ◌≡◌, refl, sym, ◌∙◌, ap, subst, inl, inr, Bool, true, false, not, ◌&&◌, ◌||◌,
  List, [], ◌∷◌, Text, text_eq, text_eq_iff, text_eq_refl, ==_iff, contains_text, contains, ◌==◌,
  any, all, Bool-cases, arith,
}
use taxonomy_builder.Models.Vocabulary.{OntologyClass}

-- the class with that id is the project's and has that URI
abbrev pub is_class : List OntologyClass → ℕ → Text → ℕ → Bool
is_class [] project_id uri id = false
is_class (c ∷ classes) project_id uri id =
    (c.id == id && (c.project_id == project_id && text_eq c.uri uri))
    || is_class classes project_id uri id

-- no two classes share an id
abbrev pub UniqueIds : List OntologyClass → Type 0
UniqueIds [] = Unit {0}
UniqueIds (c ∷ classes) = (any (λ d. d.id == c.id) classes ≡ false) × UniqueIds classes

abbrev pub no_repeat : List ℕ → Bool
no_repeat [] = true
no_repeat (x ∷ ids) = not (contains ids x) && no_repeat ids

abbrev no_text_repeat : List Text → Bool
no_text_repeat [] = true
no_text_repeat (x ∷ uris) = not (contains_text uris x) && no_text_repeat uris

-- the ids of the classes, one for each URI
abbrev pub is_resolved : List OntologyClass → ℕ → List Text → List ℕ → Bool
is_resolved classes project_id [] [] = true
is_resolved classes project_id (uri ∷ uris) (id ∷ ids) =
    is_class classes project_id uri id && is_resolved classes project_id uris ids
is_resolved classes project_id _ _ = false

contains_text_same :
    (seen : List Text) (a b : Text)
    → text_eq a b ≡ true
    → contains_text seen a ≡ contains_text seen b
contains_text_same seen a b h = ap (contains_text seen) ((text_eq_iff a b).0 h)

pub first_of_each-contains :
    (seen uris : List Text) (u : Text)
    → contains_text (first_of_each seen uris) u
      ≡ (contains_text uris u && not (contains_text seen u))
first_of_each-contains seen [] u = refl
first_of_each-contains seen (uri ∷ uris) u = elim (Bool-cases (contains_text seen uri)) [
  | inl e ↦ rw e ground (arith, first_of_each-contains seen uris u, contains_text_same seen uri u)
  | inr e ↦
      rw e ground (arith, first_of_each-contains (uri ∷ seen) uris u, contains_text_same seen uri u)
]

pub first_of_each-no_repeat :
    (seen uris : List Text) → no_text_repeat (first_of_each seen uris) ≡ true
first_of_each-no_repeat seen [] = refl
first_of_each-no_repeat seen (uri ∷ uris) = elim (Bool-cases (contains_text seen uri)) [
  | inl e ↦ rw e (first_of_each-no_repeat seen uris)
  | inr e ↦ rw e ground (
    arith,
    first_of_each-no_repeat (uri ∷ seen) uris,
    first_of_each-contains (uri ∷ seen) uris uri,
    text_eq_refl uri,
  )
]

is_class-any :
    (classes : List OntologyClass) (project_id id : ℕ) (uri : Text)
    → is_class classes project_id uri id ≡ true
    → any (λ d. d.id == id) classes ≡ true
is_class-any [] project_id id uri h = cc
is_class-any (c ∷ classes) project_id id uri h =
    ground (arith, is_class-any classes project_id id uri)

alone_same :
    (classes : List OntologyClass) (a b : ℕ)
    → (a == b) ≡ true
    → any (λ d. d.id == a) classes ≡ false
    → any (λ d. d.id == b) classes ≡ false
alone_same classes a b e h = subst (λ k. any (λ d. d.id == k) classes ≡ false) ((==_iff a b).0 e) h

-- a class has one URI
is_class-one :
    (classes : List OntologyClass) (project_id id : ℕ) (a b : Text)
    → UniqueIds classes
    → is_class classes project_id a id ≡ true
    → is_class classes project_id b id ≡ true
    → text_eq a b ≡ true
is_class-one [] project_id id a b u h k = cc
is_class-one (c ∷ classes) project_id id a b (alone, u) h k = elim (Bool-cases (c.id == id)) [
  | inl e ↦
      let none_left = alone_same classes c.id id e alone in
      ground (
        arith,
        is_class-any classes project_id id a,
        is_class-any classes project_id id b,
        none_left,
        text_eq_iff c.uri a,
        text_eq_iff c.uri b,
        text_eq_iff a b,
      )
  | inr e ↦ ground (arith, is_class-one classes project_id id a b u)
]

-- an id that is among the classes of some URIs is the class of one of them
resolved-apart :
    (classes : List OntologyClass) (project_id : ℕ) (uri : Text) (id : ℕ) (uris : List Text)
    (ids : List ℕ)
    → UniqueIds classes
    → is_class classes project_id uri id ≡ true
    → is_resolved classes project_id uris ids ≡ true
    → contains_text uris uri ≡ false
    → contains ids id ≡ false
resolved-apart classes project_id uri id [] [] u h r f = refl
resolved-apart classes project_id uri id [] (x ∷ ids) u h r f = cc
resolved-apart classes project_id uri id (a ∷ uris) [] u h r f = cc
resolved-apart classes project_id uri id (a ∷ uris) (x ∷ ids) u h r f =
    elim (Bool-cases (x == id)) [
      | inl e ↦
          let here =
            is_class-one classes project_id id a uri u
              (ap (is_class classes project_id a) (sym ((==_iff x id).0 e)) ∙ ground arith) h in
          ground arith
      | inr e ↦ ground (arith, resolved-apart classes project_id uri id uris ids u h)
    ]

pub resolved-no_repeat :
    (classes : List OntologyClass) (project_id : ℕ) (uris : List Text) (ids : List ℕ)
    → UniqueIds classes
    → is_resolved classes project_id uris ids ≡ true
    → no_text_repeat uris ≡ true
    → no_repeat ids ≡ true
resolved-no_repeat classes project_id [] [] u r h = refl
resolved-no_repeat classes project_id [] (x ∷ ids) u r h = cc
resolved-no_repeat classes project_id (a ∷ uris) [] u r h = cc
resolved-no_repeat classes project_id (a ∷ uris) (x ∷ ids) u r h = ground (
  arith,
  resolved-apart classes project_id a x uris ids u,
  resolved-no_repeat classes project_id uris ids u,
)

pub all-contains :
    (p : Text → Bool) (uris : List Text)
    → ((u : Text) → contains_text uris u ≡ true → p u ≡ true)
    → all p uris ≡ true
all-contains p [] h = refl
all-contains p (uri ∷ uris) h =
    let head = h uri (ground (arith, text_eq_refl uri)) in
    let rest = all-contains p uris (λ u k. h u (ground arith)) in ground arith

is_class_same :
    (classes : List OntologyClass) (project_id id : ℕ) (a b : Text)
    → text_eq a b ≡ true
    → is_class classes project_id a id ≡ is_class classes project_id b id
is_class_same classes project_id id a b h =
    ap (λ t. is_class classes project_id t id) ((text_eq_iff a b).0 h)

pub resolved-any :
    (classes : List OntologyClass) (project_id : ℕ) (uris : List Text) (ids : List ℕ) (u : Text)
    → is_resolved classes project_id uris ids ≡ true
    → contains_text uris u ≡ true
    → any (is_class classes project_id u) ids ≡ true
resolved-any classes project_id [] ids u r h = cc
resolved-any classes project_id (a ∷ uris) [] u r h = cc
resolved-any classes project_id (a ∷ uris) (x ∷ ids) u r h =
    ground
      (arith, resolved-any classes project_id uris ids u, is_class_same classes project_id x a u)

any-contains :
    (p : Text → Bool) (uris : List Text) (u : Text)
    → contains_text uris u ≡ true
    → p u ≡ true
    → any p uris ≡ true
any-contains p [] u h k = cc
any-contains p (a ∷ uris) u h k = elim (Bool-cases (text_eq a u)) [
  | inl e ↦ let here = ap p ((text_eq_iff a u).0 e) ∙ k in ground arith
  | inr e ↦ ground (arith, any-contains p uris u)
]

-- every id is the class of one of the URIs
pub resolved-all :
    (classes : List OntologyClass) (project_id : ℕ) (all_uris uris : List Text) (ids : List ℕ)
    → ((u : Text) → contains_text uris u ≡ true → contains_text all_uris u ≡ true)
    → is_resolved classes project_id uris ids ≡ true
    → all (λ id. any (λ uri. is_class classes project_id uri id) all_uris) ids ≡ true
resolved-all classes project_id all_uris [] [] among r = refl
resolved-all classes project_id all_uris [] (x ∷ ids) among r = cc
resolved-all classes project_id all_uris (a ∷ uris) [] among r = cc
resolved-all classes project_id all_uris (a ∷ uris) (x ∷ ids) among r =
    let head =
      any-contains (λ uri. is_class classes project_id uri x) all_uris a
        (among a (ground (arith, text_eq_refl a))) (ground arith) in
    let rest =
      resolved-all classes project_id all_uris uris ids (λ u k. among u (ground arith))
        (ground arith) in
    ground arith
