-- ===== src/Models/Session.antt =====
-- The database and its session (backend/src/taxonomy_builder/database.py). A table is the list of
-- its rows; a flush writes to `tables`, and a rollback goes back to what was last committed.
use taxonomy_builder.Common.{Triple, Ensures, Result, ok, raise, Exec, List}
use taxonomy_builder.Models.Vocabulary.{
  Project, ConceptScheme, Concept, ConceptBroader, ConceptRelated, OntologyClass, ClassSuperclass,
  ClassRestriction, Property, PropertyDomainClass,
}
use taxonomy_builder.Models.Activity.{ChangeEvent, PublishedVersion, Feedback, Comment, User}

pub record Db : Type 0 where
  pub projects : List Project
  pub schemes : List ConceptScheme
  pub concepts : List Concept
  pub broader : List ConceptBroader
  pub related : List ConceptRelated
  pub classes : List OntologyClass
  pub superclasses : List ClassSuperclass
  pub restrictions : List ClassRestriction
  pub properties : List Property
  pub domain_classes : List PropertyDomainClass
  pub events : List ChangeEvent
  pub versions : List PublishedVersion
  pub feedback : List Feedback
  pub comments : List Comment
  pub users : List User

pub record Session : Type 0 where
  pub tables : Db
  pub open tables use *
  pub committed : Db

-- `session.commit()` and `session.rollback()`
abbrev pub commit : Session → Session
commit s = record s { committed = s.tables }

abbrev pub rollback : Session → Session
rollback s = record s { tables = s.committed }

abbrev pub close : {E A : Type 0} → Result E A → Session → Result E A × Session
close (ok a) s = (ok a, commit s)
close (raise e) s = (raise e, rollback s)

-- One request: the handler's session commits if nothing is raised, and rolls back otherwise.
unfoldable pub request : {E A : Type 0} → Exec Session E A → Db → Result E A × Db
request m db =
    let (r, s) = m (record { tables = db; committed = db }) in
    let (r', s') = close r s in (r', s'.tables)

-- the same of what is in the tables and of what was last committed
abbrev pub Both : (Db → Type 0) → Session → Type 0
Both P s = P s.tables × P s.committed

close_keeps :
    {E A : Type 0} (P : Db → Type 0) (r : Result E A) (s : Session)
    → Ensures (λ _. Both P) (λ _. Both P) r s
    → P (close r s).1.tables
close_keeps P (ok a) s h = h.0
close_keeps P (raise e) s h = h.1

-- What holds of both however an action ends, its request ends with.
pub request_from :
    {E A : Type 0} (P : Db → Type 0) (before : Session → Type 0) (m : Exec Session E A)
    → Triple before m (λ _. Both P) (λ _. Both P)
    → (db : Db) → before (record { tables = db; committed = db })
    → P (request m db).1
unfolding request
request_from P before m t db h =
    let start : Session = record { tables = db; committed = db } in
    close_keeps P (m start).0 (m start).1 (t.at start h)

-- What an action keeps, whether it returns or raises, its request keeps.
pub request_keeps :
    {E A : Type 0} (P : Db → Type 0) (m : Exec Session E A)
    → Triple (Both P) m (λ _. Both P) (λ _. Both P)
    → (db : Db) → P db
    → P (request m db).1
request_keeps P m t db h = request_from P (Both P) m t db (h, h)
