-- ===== src/Concepts/Broader/Cycles.antt =====
-- `add_broader` has no cycle check: what it does on a pair that closes a cycle.
use taxonomy_builder.Common.{ℕ, ◌≡◌, refl, ap, subst, sym, false, any, ok, Result}
use taxonomy_builder.Models.Vocabulary.{Concept, ConceptScheme}
use taxonomy_builder.Models.Session.{Db, Session, request}
use taxonomy_builder.Tracker.{Actor}
use taxonomy_builder.Hierarchy.Acyclic.{Acyclic, AtOrBelow, not-Acyclic-added}
use taxonomy_builder.Concepts.{Error}
use taxonomy_builder.Concepts.Broader.{same_pair, add_broader}
use taxonomy_builder.Concepts.Broader.Branches.{Reads, after_add, add_broader_new}

module _ (actor : Actor) (db : Db) (c b : ℕ) (concept broader : Concept)
    (scheme : ConceptScheme) where
  abbrev start : Session
  start = record { tables = db; committed = db }

  after :
      Reads start c b concept broader scheme
      → any (same_pair c b) db.broader ≡ false
      → request (add_broader actor c b) db
        ≡ (ok tt, (after_add actor start c b concept broader scheme).tables)
  unfolding request
  after reads fresh = rw (add_broader_new actor start c b concept broader scheme reads fresh) refl

  -- Where both concepts exist and the pair is new, the request to put a concept under itself, or
  -- under a concept below it, succeeds and leaves a cycle.
  pub add_broader_closes_cycle :
      Reads start c b concept broader scheme
      → any (same_pair c b) db.broader ≡ false
      → AtOrBelow db.broader c b
      → ((request (add_broader actor c b) db).0 ≡ ok tt)
        × (¬ Acyclic (request (add_broader actor c b) db).1.broader)
  add_broader_closes_cycle reads fresh below = (
    ap (λ r. r.0) (after reads fresh),
    subst (λ (r : Result Error (Unit {0}) × Db). ¬ Acyclic r.1.broader) (sym (after reads fresh))
        (not-Acyclic-added db.broader c b below),
  )
