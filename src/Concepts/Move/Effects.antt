-- ===== src/Concepts/Move/Effects.antt =====
-- What a move does to the rows when it goes through, and what a rollback inside it undoes.
use taxonomy_builder.Common.{
  ℕ, ◌≡◌, ◌≢◌, refl, true, false, not, some, List, [], ◌∷◌, find, filter, any, ok, ◌==◌, arith, ◌∙◌,
}
use taxonomy_builder.Models.Vocabulary.{Concept, ConceptScheme, ConceptBroader}
use taxonomy_builder.Models.Session.{Db, Session, request}
use taxonomy_builder.Tracker.{Actor}
use taxonomy_builder.Hierarchy.{is_descendant}
use taxonomy_builder.Concepts.Broader.{same_pair, remove_broader}
use taxonomy_builder.Concepts.Broader.Branches.{
  Reads, after_add, after_remove, add_broader_new, add_broader_again, remove_broader_row,
}
use taxonomy_builder.Concepts.Move.{move_concept}

-- Removing one parent leaves the other in place.
any_other_parent :
    (c p q : ℕ) (rels : List ConceptBroader)
    → p ≢ q
    → any (same_pair c q) (filter (λ x. not (same_pair c p x)) rels) ≡ any (same_pair c q) rels
any_other_parent c p q [] ne = refl
any_other_parent c p q (rel ∷ rels) ne = ground (arith, any_other_parent c p q rels ne)

-- the rows that a move from `old` to `new` reads, and the guards that it passes
pub record Moves (db : Db) (concept old new : Concept) (scheme : ConceptScheme) : Type 0 where
  pub concept_row : find (λ x. x.id == concept.id) db.concepts ≡ some concept
  pub old_row : find (λ x. x.id == old.id) db.concepts ≡ some old
  pub new_row : find (λ x. x.id == new.id) db.concepts ≡ some new
  pub scheme_row : find (λ x. x.id == concept.scheme_id) db.schemes ≡ some scheme
  pub apart : (new.id == concept.id) ≡ false
  pub differ : old.id ≢ new.id
  pub clear : is_descendant db.broader concept.id new.id ≡ some false
  pub had_old : any (same_pair concept.id old.id) db.broader ≡ true

module _ (actor : Actor) (db : Db) (concept old new : Concept) (scheme : ConceptScheme) where
  abbrev start : Session
  start = record { tables = db; committed = db }

  abbrev dropped : Session
  dropped = after_remove actor start concept.id old.id concept old scheme

  module _ (h : Moves db concept old new scheme) where
    open h use {concept_row, old_row, new_row, scheme_row, apart, differ, clear, had_old}

    Reads-old : Reads start concept.id old.id concept old scheme
    Reads-old = record { concept_row = concept_row; broader_row = old_row; scheme_row = scheme_row }

    Reads-new : Reads dropped concept.id new.id concept new scheme
    Reads-new = record { concept_row = concept_row; broader_row = new_row; scheme_row = scheme_row }

    removed : remove_broader actor concept.id old.id start ≡ (ok tt, dropped)
    removed = remove_broader_row actor start concept.id old.id concept old scheme Reads-old had_old

    -- A move from one parent to another removes the one row, adds the other, and logs both changes.
    pub move_replaces :
        any (same_pair concept.id new.id) db.broader ≡ false
        → request (move_concept actor concept.id (some new.id) (some old.id)) db
          ≡ (ok concept, (after_add actor dropped concept.id new.id concept new scheme).tables)
    unfolding request move_concept
    move_replaces fresh =
        rw
          (
            concept_row,
            apart,
            new_row,
            clear,
            removed,
            add_broader_new actor dropped concept.id new.id concept new scheme Reads-new
                (any_other_parent concept.id old.id new.id db.broader differ ∙ fresh),
          )
          (rw concept_row refl)

    -- Where the concept already stands under the new parent, the rollback in `add_broader` undoes
    -- the removal: the move reports success and changes nothing.
    pub move_undone :
        any (same_pair concept.id new.id) db.broader ≡ true
        → request (move_concept actor concept.id (some new.id) (some old.id)) db ≡ (ok concept, db)
    unfolding request move_concept
    move_undone has_new =
        rw
          (
            concept_row,
            apart,
            new_row,
            clear,
            removed,
            add_broader_again actor dropped concept.id new.id concept new scheme Reads-new
                (any_other_parent concept.id old.id new.id db.broader differ ∙ has_new),
          )
          (rw concept_row refl)
