-- ===== src/Concepts/Related/Effects.antt =====
-- What the two methods do when they go through, in either order of the arguments.
use mathlib.Core.Path.{ap₂}
use taxonomy_builder.Common.{
  text, none, inl, inr, Bool-cases, ap, ℕ, ◌≡◌, refl, sym, ◌∙◌, Bool, true, false, not, ◌&&◌, ◌||◌,
  some, List, [], ◌∷◌, ◌++◌, filter, find, any, any-append, contains, Result, ok, ◌==◌, arith,
}
use taxonomy_builder.Models.Vocabulary.{Concept, ConceptScheme, ConceptRelated}
use taxonomy_builder.Models.Session.{Db, request}
use taxonomy_builder.Tracker.{Actor, event, serialize_related}
use taxonomy_builder.Concepts.{Error}
use taxonomy_builder.Concepts.Related.{
  smaller_label, larger_label, same_related, smaller, larger, related_row, add_related,
  remove_related, related_ids,
}
use taxonomy_builder.Concepts.Related.Normal.{Normal}
use taxonomy_builder.Concepts.Related.Symmetry.{links, contains-related_ids}

abbrev pub is_pair : ℕ → ℕ → ℕ → ℕ → Bool
is_pair a b c d = c == a && d == b || c == b && d == a

links-added :
    (a b c d : ℕ) (rels : List ConceptRelated)
    → any (links c d) (rels ++ related_row a b ∷ []) ≡ (any (links c d) rels || is_pair a b c d)
links-added a b c d rels = rw any-append (ground arith)

is_pair-sorted : (a b c d : ℕ) → is_pair (smaller a b) (larger a b) c d ≡ is_pair a b c d
is_pair-sorted a b c d = ground arith

-- a row other than the pair links two concepts that are not the pair
links-other_row :
    (p q c d : ℕ) (rel : ConceptRelated)
    → same_related p q rel ≡ false
    → same_related q p rel ≡ false
    → is_pair p q c d ≡ true
    → links c d rel ≡ false
links-other_row p q c d rel h k e = ground arith

-- the pair's row links the pair only
links-pair_row :
    (p q c d : ℕ) (rel : ConceptRelated)
    → same_related p q rel ≡ true
    → is_pair p q c d ≡ false
    → links c d rel ≡ false
links-pair_row p q c d rel h e = ground arith

skip_row :
    (pair link found kept : Bool)
    → kept ≡ (found && not pair)
    → (pair ≡ false → link ≡ false)
    → kept ≡ ((link || found) && not pair)
skip_row pair link found kept h k = ground arith

keep_row :
    (pair link found kept : Bool)
    → kept ≡ (found && not pair)
    → (pair ≡ true → link ≡ false)
    → (link || kept) ≡ ((link || found) && not pair)
keep_row pair link found kept h k = ground arith

or_false : {a b : Bool} → (a || b) ≡ false → (a ≡ false) × (b ≡ false)
or_false h = ground arith

links-removed :
    (p q c d : ℕ) (rels : List ConceptRelated)
    → any (same_related q p) rels ≡ false
    → any (links c d) (filter (λ x. not (same_related p q x)) rels)
      ≡ (any (links c d) rels && not (is_pair p q c d))
links-removed p q c d [] h = refl
links-removed p q c d (rel ∷ rels) h = elim (Bool-cases (same_related p q rel)) [
  | inl e ↦ rw e (
      skip_row (is_pair p q c d) (links c d rel) _ _ (links-removed p q c d rels (or_false h).1)
        (links-pair_row p q c d rel e))
  | inr e ↦ rw e (
      keep_row (is_pair p q c d) (links c d rel) _ _ (links-removed p q c d rels (or_false h).1)
        (links-other_row p q c d rel e (or_false h).0))
]

-- Stored in order, no pair is stored in reverse.
no_reverse :
    (a b : ℕ) (rels : List ConceptRelated)
    → (a == b) ≡ false
    → Normal rels
    → any (same_related (larger a b) (smaller a b)) rels ≡ false
no_reverse a b [] ne h = refl
no_reverse a b (rel ∷ rels) ne (lt, alone, rest) = ground (arith, no_reverse a b rels)

-- what the two methods find: both concepts, in one scheme that is there
pub record Pair (db : Db) (a b : ℕ) (concept related : Concept) (scheme : ConceptScheme)
    : Type 0 where
  pub concept_row : find (λ x. x.id == a) db.concepts ≡ some concept
  pub other_row : find (λ x. x.id == b) db.concepts ≡ some related
  pub apart : (a == b) ≡ false
  pub one_scheme : (concept.scheme_id == related.scheme_id) ≡ true
  pub scheme_row : find (λ x. x.id == concept.scheme_id) db.schemes ≡ some scheme

module _ (actor : Actor) (db : Db) (a b : ℕ) (concept related : Concept) (scheme : ConceptScheme)
    (pair : Pair db a b concept related scheme) where
  open pair use {concept_row, other_row, apart, one_scheme, scheme_row}

  abbrev added : Result Error (Unit {0}) × Db
  added = request (add_related actor a b) db

  abbrev removed : Result Error (Unit {0}) × Db
  removed = request (remove_related actor a b) db

  added_rows :
      any (same_related (smaller a b) (larger a b)) db.related ≡ false
      → (added.0 ≡ ok tt) × (added.1.related ≡ db.related ++ related_row a b ∷ [])
  unfolding request add_related
  added_rows fresh = (
    rw (apart, concept_row, other_row, one_scheme, scheme_row, fresh) refl,
    rw (apart, concept_row, other_row, one_scheme, scheme_row, fresh) refl,
  )

  removed_state :
      any (same_related (smaller a b) (larger a b)) db.related ≡ true
      → removed ≡ (
        ok tt,
        record db {
          related = filter (λ x. not (same_related (smaller a b) (larger a b) x)) db.related;
          events =
              db.events
              ++ event actor scheme.project_id
                  (text "concept_related")
                  a
                  (text "delete")
                  (some (
                    serialize_related
                      (smaller a b)
                      (larger a b)
                      (smaller_label concept related a b)
                      (larger_label concept related a b)))
                  none
                  (some concept.scheme_id)
                ∷ [];
        },
      )
  unfolding request remove_related
  removed_state had = rw (concept_row, other_row, scheme_row, had) refl

  -- Adding a pair that is not stored goes through, and afterwards exactly this pair, in both
  -- directions, has come to the related concepts of every concept.
  pub related_ids-add_related :
      any (same_related (smaller a b) (larger a b)) db.related ≡ false
      → (added.0 ≡ ok tt)
        × ((c d : ℕ)
            → contains (related_ids added.1.related c) d
              ≡ (contains (related_ids db.related c) d || is_pair a b c d))
  related_ids-add_related fresh =
      let (done, rows) = added_rows fresh in
      (
        done,
        λ c d.
            rw
              (
                contains-related_ids added.1.related c d,
                rows,
                links-added a b c d db.related,
                contains-related_ids db.related c d,
              )
              refl,
      )

  -- Removing a stored pair goes through, and takes exactly this pair, in both directions, from the
  -- related concepts.
  pub related_ids-remove_related :
      any (same_related (smaller a b) (larger a b)) db.related ≡ true
      → Normal db.related
      → (removed.0 ≡ ok tt)
        × ((c d : ℕ)
            → contains (related_ids removed.1.related c) d
              ≡ (contains (related_ids db.related c) d && not (is_pair a b c d)))
  related_ids-remove_related had normal =
      let state = removed_state had in
      (
        ap (λ r. r.0) state,
        λ c d.
            contains-related_ids removed.1.related c d
            ∙ ap (λ (r : Result Error (Unit {0}) × Db). any (links c d) r.1.related) state
            ∙ links-removed (smaller a b) (larger a b) c d db.related
                (no_reverse a b db.related apart normal)
            ∙ ap₂ (λ x y. x && not y) (sym (contains-related_ids db.related c d))
                (is_pair-sorted a b c d),
      )
