-- ===== src/Classes/References.antt =====
-- What a deletion of a class does, and that no property loses a class by it.
use taxonomy_builder.Common.{
  ℕ, ◌≡◌, refl, sym, ◌∙◌, ap, subst, inl, inr, Bool, true, false, not, ◌&&◌, ◌||◌, Option, none,
  some, List, [], ◌∷◌, ◌==◌, ==_iff, find, filter, any, all, all-kept, Result, ok, raise,
  Bool-cases, arith,
}
use mathlib.Core.Option.{some-injective}
use taxonomy_builder.Models.Vocabulary.{OntologyClass, Property}
use taxonomy_builder.Models.Session.{Db, request}
use taxonomy_builder.Tracker.{Actor}
use taxonomy_builder.Properties.ByUri.{UniqueIds}
use taxonomy_builder.Classes.{
  ClassError, erase_class, in_domain, has_range, in_range, delete_where, delete_ontology_class,
}

-- the range of the property is a class of its project
abbrev pub has_class : List OntologyClass → Property → Bool
has_class classes p =
    any (λ c. p.project_id == c.project_id && has_range c.uri p.range_class) classes

abbrev pub id_known : List OntologyClass → ℕ → Bool
id_known classes k = any (λ c. c.id == k) classes

-- the foreign key from domains to classes
abbrev pub domains_known : Db → Bool
domains_known db = all (λ r. id_known db.classes r.class_id) db.domain_classes

known-removed :
    (xs : List OntologyClass) (c k : ℕ)
    → id_known (filter (λ x. not (x.id == c)) xs) k ≡ (id_known xs k && not (k == c))
known-removed [] c k = refl
known-removed (x ∷ xs) c k = ground (arith, known-removed xs c k)

not_found :
    (id : ℕ) (classes : List OntologyClass)
    → find (λ c. c.id == id) classes ≡ none
    → id_known classes id ≡ false
not_found id [] h = refl
not_found id (x ∷ classes) h = ground (arith, not_found id classes)

-- a class with another id stays, and that with this id is the one found
has_class-removed :
    (classes : List OntologyClass) (c : OntologyClass) (p : Property)
    → UniqueIds classes
    → find (λ x. x.id == c.id) classes ≡ some c
    → (p.project_id == c.project_id && has_range c.uri p.range_class) ≡ false
    → has_class classes p ≡ true
    → has_class (filter (λ x. not (x.id == c.id)) classes) p ≡ true
has_class-removed [] c p u found other h = h
has_class-removed (x ∷ classes) c p (alone, u) found other h = elim (Bool-cases (x.id == c.id)) [
  | inl e ↦
      let same = some-injective x c (rw e at found) in
      let here =
        ap (λ (k : OntologyClass). p.project_id == k.project_id && has_range k.uri p.range_class)
          same
        ∙ other in
      rw e (
        kept_all classes
          (subst (λ k. any (λ d. d.id == k) classes ≡ false) ((==_iff x.id c.id).0 e) alone)
          (ground arith))
  | inr e ↦ rw e (ground (arith, has_class-removed classes c p u (rw e at found) other))
]
  where
    kept_all :
        (rows : List OntologyClass)
        → any (λ d. d.id == c.id) rows ≡ false
        → has_class rows p ≡ true
        → has_class (filter (λ x. not (x.id == c.id)) rows) p ≡ true
    kept_all [] a k = k
    kept_all (y ∷ rows) a k = ground (arith, kept_all rows)

kept_by_all :
    (classes : List OntologyClass) (c : OntologyClass) (properties : List Property)
    → UniqueIds classes
    → find (λ x. x.id == c.id) classes ≡ some c
    → in_range properties c ≡ false
    → all
        (λ p. not (has_class classes p) || has_class (filter (λ x. not (x.id == c.id)) classes) p)
        properties
      ≡ true
kept_by_all classes c [] u found free = refl
kept_by_all classes c (p ∷ properties) u found free =
    ground (arith, has_class-removed classes c p u found, kept_by_all classes c properties u found)

kept_as_is :
    (classes : List OntologyClass) (properties : List Property)
    → all (λ p. not (has_class classes p) || has_class classes p) properties ≡ true
kept_as_is classes [] = refl
kept_as_is classes (p ∷ properties) = ground (arith, kept_as_is classes properties)

-- What is to hold of a deletion: refused, it changes nothing, and a property has the class in its
-- domain or as its range; where it was not found, nothing changes; otherwise it is gone and was not
-- referred to.
abbrev pub Outcome : Db → ℕ → Result ClassError Bool × Db → Type 0
Outcome db class_id (raise e, after) =
    (after ≡ db)
    × ((c : OntologyClass) × (find (λ x. x.id == class_id) db.classes ≡ some c)
        × ((in_domain db.domain_classes class_id || in_range db.properties c) ≡ true))
Outcome db class_id (ok false, after) = (after ≡ db) × (id_known db.classes class_id ≡ false)
Outcome db class_id (ok true, after) =
    (id_known after.classes class_id ≡ false)
    × (in_domain db.domain_classes class_id ≡ false)
    × (domains_known after ≡ true)
    × (all (λ p. not (has_class db.classes p) || has_class after.classes p) after.properties ≡ true)

found_id :
    (class_id : ℕ) (classes : List OntologyClass) (c : OntologyClass)
    → find (λ x. x.id == class_id) classes ≡ some c
    → c.id ≡ class_id
found_id class_id [] c h = cc
found_id class_id (x ∷ classes) c h = elim (Bool-cases (x.id == class_id)) [
  | inl e ↦
      sym (ap (λ (k : OntologyClass). k.id) (some-injective x c (rw e at h)))
      ∙ (==_iff x.id class_id).0 e
  | inr e ↦ found_id class_id classes c (rw e at h)
]

module _ (actor : Actor) (db : Db) (class_id : ℕ) (unique : UniqueIds db.classes)
    (known : domains_known db ≡ true) where
  erased :
      (c : OntologyClass)
      → find (λ x. x.id == c.id) db.classes ≡ some c
      → in_domain db.domain_classes c.id ≡ false
      → in_range db.properties c ≡ false
      → Outcome db c.id (request (λ s. delete_where actor c.id (some c) s) db)
  unfolding request erase_class
  erased c found no_domain no_range =
      rw (no_domain, no_range)
        (
          known-removed db.classes c.id c.id ∙ ground arith,
          no_domain,
          all-kept _ _ _ db.domain_classes
              (λ r k kept. known-removed db.classes c.id r.class_id ∙ ground arith) known,
          kept_by_all db.classes c db.properties unique found no_range,
        )

  go :
      (o : Option OntologyClass)
      → find (λ x. x.id == class_id) db.classes ≡ o
      → Outcome db class_id (request (λ s. delete_where actor class_id o s) db)
  unfolding request erase_class
  go none e = (refl, not_found class_id db.classes e)
  go (some c) e =
      elim (Bool-cases (in_domain db.domain_classes class_id || in_range db.properties c)) [
        | inl used ↦ rw used (refl, (c, e, used))
        | inr free ↦
            let at_id = found_id class_id db.classes c e in
            subst (λ k. Outcome db k (request (λ s. delete_where actor k (some c) s) db)) at_id
              (erased c (subst (λ k. find (λ x. x.id == k) db.classes ≡ some c) (sym at_id) e)
                (subst (λ k. in_domain db.domain_classes k ≡ false) (sym at_id) (ground arith))
                (ground arith))
      ]

  -- Where no two classes share an id, and every domain names a class, a request to delete a class
  -- that is not found changes nothing. One that is refused changes nothing, and a property has the
  -- class in its domain or as its range. One that succeeds leaves tables without the class, which was
  -- in no domain; every domain still names a class, and every property whose range was a class of its
  -- project still has such a range.
  pub delete_ontology_class-Outcome :
      Outcome db class_id (request (delete_ontology_class actor class_id) db)
  unfolding delete_ontology_class request
  delete_ontology_class-Outcome = go (find (λ x. x.id == class_id) db.classes) refl
