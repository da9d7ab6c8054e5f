-- ===== src/Concepts/Edit/Distinct.antt =====
-- No two concepts share an id, or an identifier within a scheme.
use mathlib.Core.Option.{some-injective}
use taxonomy_builder.Common.{
  ap, ==_iff, ℕ, ◌≡◌, refl, sym, ◌∙◌, inl, inr, true, false, ◌||◌, Text, text_eq_iff, some, List,
  [], ◌∷◌, ◌++◌, find, any, ◌==◌, Bool-cases, arith, Triple, Triple-bind, Triple-fail,
  Triple-or_raise, none, subst, text,
}
use taxonomy_builder.Models.Vocabulary.{Concept}
use taxonomy_builder.Models.Session.{Db, Session, Both, request, request_keeps}
use taxonomy_builder.Models.Activity.{ChangeEvent}
use taxonomy_builder.Tracker.{Actor, event, record_change, serialize_concept}
use taxonomy_builder.Concepts.{Error, get_concept, concept_not_found}
use taxonomy_builder.Concepts.Rules.{get_concept_keeps, get_scheme_keeps}
use taxonomy_builder.Concepts.Edit.{
  ConceptCreate, ConceptUpdate, clashes, insert_concept, write_concept, new_concept, create_concept,
  updated, update_concept, replace_concept,
}

abbrev pub Distinct : List Concept → Type 0
Distinct [] = Unit {0}
Distinct (x ∷ xs) = (any (clashes x) xs ≡ false) × Distinct xs

clashes_comm : (x y : Concept) → clashes x y ≡ clashes y x
clashes_comm x y =
    ground (arith, text_eq_iff x.identifier y.identifier, text_eq_iff y.identifier x.identifier)

any-append_one :
    (x row : Concept) (xs : List Concept)
    → any (clashes x) (xs ++ row ∷ []) ≡ (any (clashes x) xs || clashes x row)
any-append_one x row [] = ground arith
any-append_one x row (y ∷ ys) = ground (arith, any-append_one x row ys)

Distinct-append :
    (row : Concept) (xs : List Concept)
    → any (clashes row) xs ≡ false
    → Distinct xs
    → Distinct (xs ++ row ∷ [])
Distinct-append row [] fresh h = (refl, tt)
Distinct-append row (x ∷ xs) fresh (alone, rest) = (
  any-append_one x row xs ∙ ground (arith, clashes_comm x row),
  Distinct-append row xs (ground arith) rest,
)

-- a table without the id is not changed by writing the row back
replace_absent :
    (row : Concept) (xs : List Concept) → any (clashes row) xs ≡ false → replace_concept row xs ≡ xs
replace_absent row [] h = refl
replace_absent row (x ∷ xs) h = ground (arith, replace_absent row xs)

-- two rows with the same keys
record SameKeys (y row : Concept) : Type 0 where
  id : y.id ≡ row.id
  scheme : y.scheme_id ≡ row.scheme_id
  identifier : y.identifier ≡ row.identifier

any-clashes_same :
    (y row : Concept) (xs : List Concept)
    → SameKeys y row
    → any (clashes row) xs ≡ any (clashes y) xs
any-clashes_same y row xs k = rw (k.id, k.scheme, k.identifier)

clashes_same : (x y row : Concept) → SameKeys y row → clashes x row ≡ clashes x y
clashes_same x y row k = rw (k.id, k.scheme, k.identifier)

found_keys :
    (y row old : Concept)
    → (y.id == row.id) ≡ true
    → some y ≡ some old
    → old.scheme_id ≡ row.scheme_id
    → old.identifier ≡ row.identifier
    → SameKeys y row
found_keys y row old e h p q = record {
  id = (==_iff y.id row.id).0 e;
  scheme = ap (λ (o : Concept). o.scheme_id) (some-injective y old h) ∙ p;
  identifier = ap (λ (o : Concept). o.identifier) (some-injective y old h) ∙ q;
}

-- Writing a row back with the keys that it had changes no key.
clashes-replace :
    (x row : Concept) (xs : List Concept) (old : Concept)
    → find (λ y. y.id == row.id) xs ≡ some old
    → old.scheme_id ≡ row.scheme_id
    → old.identifier ≡ row.identifier
    → Distinct xs
    → any (clashes x) (replace_concept row xs) ≡ any (clashes x) xs
clashes-replace x row [] old h p q d = refl
clashes-replace x row (y ∷ ys) old h p q (alone, d) = elim (Bool-cases (y.id == row.id)) [
  | inl e ↦
      let keys = found_keys y row old e (rw e at h) p q in
      rw (e, replace_absent row ys (any-clashes_same y row ys keys ∙ alone))
        (ap (λ b. b || any (clashes x) ys) (clashes_same x y row keys))
  | inr e ↦ ground (arith, clashes-replace x row ys old)
]

Distinct-replace :
    (row : Concept) (xs : List Concept) (old : Concept)
    → find (λ y. y.id == row.id) xs ≡ some old
    → old.scheme_id ≡ row.scheme_id
    → old.identifier ≡ row.identifier
    → Distinct xs
    → Distinct (replace_concept row xs)
Distinct-replace row [] old h p q d = tt
Distinct-replace row (x ∷ xs) old h p q (alone, d) = elim (Bool-cases (x.id == row.id)) [
  | inl e ↦
      let keys = found_keys x row old e (rw e at h) p q in
      let fresh = any-clashes_same x row xs keys ∙ alone in
      rw (e, replace_absent row xs fresh) (fresh, d)
  | inr e ↦ rw e (
    clashes-replace x row xs old (rw e at h) p q d ∙ alone,
    Distinct-replace row xs old (rw e at h) p q d,
  )
]

abbrev HasDistinct : Session → Type 0
HasDistinct = Both (λ db. Distinct db.concepts)

insert_concept_Distinct :
    (row : Concept) → Triple HasDistinct (insert_concept row) (λ _. HasDistinct) (λ _. HasDistinct)
unfolding insert_concept
insert_concept_Distinct row = record {
  at = λ s (now, back). elim (Bool-cases (any (clashes row) s.concepts)) [
    | inl e ↦ rw e (now, back)
    | inr e ↦ rw e (Distinct-append row s.concepts e now, back)
  ];
}

-- what `get_concept` returned is the row of that id
abbrev Found : ℕ → Concept → Session → Type 0
Found c x s = HasDistinct s × (find (λ y. y.id == c) s.concepts ≡ some x)

get_concept-Found : (c : ℕ) → Triple HasDistinct (get_concept c) (λ x. Found c x) (λ _. HasDistinct)
unfolding get_concept
get_concept-Found c =
    Triple-or_raise HasDistinct (concept_not_found c) (λ s. find (λ y. y.id == c) s.concepts)

find_id : (c : ℕ) (xs : List Concept) (x : Concept) → find (λ y. y.id == c) xs ≡ some x → x.id ≡ c
find_id c [] x h = cc
find_id c (y ∷ ys) x h = elim (Bool-cases (y.id == c)) [
  | inl e ↦ sym (ap (λ (o : Concept). o.id) (some-injective y x (rw e at h))) ∙ (==_iff y.id c).0 e
  | inr e ↦ find_id c ys x (rw e at h)
]

log_keeps :
    (e : ChangeEvent)
    → Triple {E = Error} HasDistinct (record_change e) (λ _. HasDistinct) (λ _. HasDistinct)
log_keeps e = record { at = λ s h. h }

module _ (actor : Actor) where
  updated_keys :
      (concept_in : ConceptUpdate) (x : Concept) → SameKeys x (updated actor concept_in x)
  updated_keys concept_in x = ground arith

  write_concept_Distinct :
      (c : ℕ) (x : Concept) (concept_in : ConceptUpdate)
      → Triple
          (Found c x)
          (write_concept (updated actor concept_in x))
          (λ _. HasDistinct)
          (λ _. HasDistinct)
  unfolding write_concept
  write_concept_Distinct c x concept_in = record {
    at = λ s ((now, back), found).
        let keys = updated_keys concept_in x in
        let id = find_id c s.concepts x found in
        (
          Distinct-replace (updated actor concept_in x) s.concepts x
              (subst (λ k. find (λ y. y.id == k) s.concepts ≡ some x) (sym id ∙ keys.id) found)
              keys.scheme keys.identifier now,
          back,
        );
  }

  create_keeps :
      (new_id scheme_id : ℕ) (concept_in : ConceptCreate) (identifier : Text)
      → Triple HasDistinct
          (create_concept actor new_id scheme_id concept_in identifier)
          (λ _. HasDistinct)
          (λ _. HasDistinct)
  unfolding create_concept
  create_keeps new_id scheme_id concept_in identifier =
      Triple-bind _ _ (get_scheme_keeps HasDistinct scheme_id) λ scheme.
        Triple-bind _ _
          (insert_concept_Distinct (new_concept actor new_id scheme_id concept_in identifier))
          λ _.
            Triple-bind _ _
              (log_keeps (
                event actor scheme.project_id (text "concept") new_id (text "create") none
                  (some
                    (serialize_concept (new_concept actor new_id scheme_id concept_in identifier)))
                  (some scheme_id)))
              λ _. get_concept_keeps HasDistinct new_id

  update_keeps :
      (concept_id : ℕ) (concept_in : ConceptUpdate)
      → Triple HasDistinct
          (update_concept actor concept_id concept_in)
          (λ _. HasDistinct)
          (λ _. HasDistinct)
  unfolding update_concept
  update_keeps concept_id concept_in = Triple-bind _ _ (get_concept-Found concept_id) λ concept.
      Triple-bind _ _
        (Triple-fail _ (λ e s h. h.0)
          (get_scheme_keeps (Found concept_id concept) concept.scheme_id))
        λ scheme. Triple-bind _ _ (write_concept_Distinct concept_id concept concept_in) λ _.
          Triple-bind _ _
            (log_keeps (
              event actor scheme.project_id (text "concept") concept_id (text "update")
                (some (serialize_concept concept))
                (some (serialize_concept (updated actor concept_in concept)))
                (some concept.scheme_id)))
            λ _. get_concept_keeps HasDistinct concept_id

  -- Creating and updating, whatever their outcome, keep ids unique, and identifiers unique within a
  -- scheme.
  pub edit-Distinct :
      (db : Db) (new_id scheme_id concept_id : ℕ) (identifier : Text) (concept_in : ConceptCreate)
      (update_in : ConceptUpdate)
      → Distinct db.concepts
      → Distinct
          (request (create_concept actor new_id scheme_id concept_in identifier) db).1.concepts
        × Distinct (request (update_concept actor concept_id update_in) db).1.concepts
  edit-Distinct db new_id scheme_id concept_id identifier concept_in update_in h = (
    request_keeps (λ d. Distinct d.concepts) _ (create_keeps new_id scheme_id concept_in identifier)
        db h,
    request_keeps (λ d. Distinct d.concepts) _ (update_keeps concept_id update_in) db h,
  )
