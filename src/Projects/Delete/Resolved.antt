-- ===== src/Projects/Delete/Resolved.antt =====
-- The deletion of a project leaves no reference to what has gone.
use taxonomy_builder.Projects.Delete.References.{
  optional, project_known, scheme_known, HasReferences, known-removed,
  without_project-HasReferences,
}
use taxonomy_builder.Common.{
  ℕ, ◌≡◌, refl, ◌∙◌, inl, inr, Bool, true, false, ◌&&◌, none, some, List, [], ◌∷◌, ◌++◌, text, find,
  any, all, ◌==◌, Result, ok, raise, Bool-cases, Option-cases, arith, if◌then◌else◌,
}
use taxonomy_builder.Models.Vocabulary.{Project}
use taxonomy_builder.Models.Activity.{ChangeEvent}
use taxonomy_builder.Models.Session.{Db, request}
use taxonomy_builder.Tracker.{Actor, event}
use taxonomy_builder.Projects.{project_not_found, get_project}
use taxonomy_builder.Projects.Edit.{EditError, project_error, integrity_error, serialize_project}
use taxonomy_builder.Projects.Delete.{restricts, without_project, erase_project, delete_project}

found_known :
    (k : ℕ) (rows : List Project) (p : Project)
    → find (λ p. p.id == k) rows ≡ some p
    → any (λ (p : Project). p.id == k) rows ≡ true
found_known k [] p h = absurd cc
found_known k (q ∷ rows) p h = elim (Bool-cases (q.id == k)) [
  | inl e ↦ rw e refl
  | inr e ↦ rw e (found_known k rows p (rw e at h))
]

not_found :
    (k : ℕ) (rows : List Project)
    → find (λ p. p.id == k) rows ≡ none
    → any (λ (p : Project). p.id == k) rows ≡ false
not_found k [] h = refl
not_found k (q ∷ rows) h = elim (Bool-cases (q.id == k)) [
  | inl e ↦ absurd (some_is_not_none (rw e at h))
  | inr e ↦ rw e (not_found k rows (rw e at h))
]
  where
    some_is_not_none : {A : Type 0} {a : A} → some a ≡ none → ⊥
    some_is_not_none e = cc

abbrev pub with_event : ChangeEvent → Db → Db
with_event e db = record db { events = db.events ++ e ∷ [] }

with_event-HasReferences :
    (db : Db) (e : ChangeEvent)
    → optional (project_known db) e.project_id ≡ true
    → optional (scheme_known db) e.scheme_id ≡ true
    → HasReferences db
    → HasReferences (with_event e db)
with_event-HasReferences db e known in_scheme h = record {
  schemes = h.schemes;
  concepts = h.concepts;
  broader = h.broader;
  related = h.related;
  classes = h.classes;
  superclasses = h.superclasses;
  restrictions = h.restrictions;
  properties = h.properties;
  ranges = h.ranges;
  domain_classes = h.domain_classes;
  events = all-append_one _ db.events e h.events known;
  event_schemes = all-append_one _ db.events e h.event_schemes in_scheme;
  versions = h.versions;
  previous = h.previous;
  feedback = h.feedback;
  comments = h.comments;
  parents = h.parents;
}
  where
    all-append_one :
        {A : Type 0} (p : A → Bool) (xs : List A) (x : A)
        → all p xs ≡ true
        → p x ≡ true
        → all p (xs ++ x ∷ []) ≡ true
    all-append_one p [] x h e = ground arith
    all-append_one p (y ∷ xs) x h e = ground (arith, all-append_one p xs x)

-- how a request to delete the project ends
abbrev pub answer : Db → ℕ → Result EditError (Unit {0})
answer db project_id =
    if project_known db project_id
    then if any (restricts db project_id) db.properties then raise integrity_error else ok tt
    else raise (project_error (project_not_found project_id))

module _ (actor : Actor) (db : Db) (project_id : ℕ) where
  abbrev deletion : Project → ChangeEvent
  deletion project =
      event actor project_id (text "project") project_id (text "delete")
        (some (serialize_project project)) none none

  delete_missing :
      find (λ p. p.id == project_id) db.projects ≡ none
      → request (delete_project actor project_id) db
        ≡ (raise (project_error (project_not_found project_id)), db)
  unfolding request delete_project get_project
  delete_missing e = rw e refl

  delete_restricted :
      (p : Project)
      → find (λ p. p.id == project_id) db.projects ≡ some p
      → any (restricts db project_id) db.properties ≡ true
      → request (delete_project actor project_id) db ≡ (raise integrity_error, db)
  unfolding request delete_project get_project erase_project
  delete_restricted p e r = rw (e, r) refl

  delete_done :
      (p : Project)
      → find (λ p. p.id == project_id) db.projects ≡ some p
      → any (restricts db project_id) db.properties ≡ false
      → request (delete_project actor project_id) db
        ≡ (ok tt, without_project (with_event (deletion p) db) project_id)
  unfolding request delete_project get_project erase_project
  delete_done p e r = rw (e, r) refl

  -- A request to delete a project returns if the project is there and no property of another project
  -- ranges over one of its schemes, and raises otherwise. Where before the foreign keys resolved, all
  -- but those to users, and every reply answered a comment that is no reply, both hold afterwards;
  -- the project is gone if the request returned, and where it raised, the project is there if it was.
  pub delete_project-HasReferences :
      HasReferences db
      → ((request (delete_project actor project_id) db).0 ≡ answer db project_id)
        × HasReferences (request (delete_project actor project_id) db).1
        × (project_known (request (delete_project actor project_id) db).1 project_id
            ≡ (project_known db project_id && any (restricts db project_id) db.properties))
  delete_project-HasReferences h =
      elim (Option-cases (find (λ p. p.id == project_id) db.projects)) [
        | inl e ↦
            let unknown = not_found project_id db.projects e in
            rw (delete_missing e, unknown) (refl, h, refl)
        | inr (p, e) ↦
            let known = found_known project_id db.projects p e in
            elim (Bool-cases (any (restricts db project_id) db.properties)) [
              | inl r ↦ rw (delete_restricted p e r, known, r) (refl, h, refl)
              | inr r ↦
                  rw (delete_done p e r, known, r)
                    (
                      refl,
                      without_project-HasReferences (with_event (deletion p) db) project_id r
                          (with_event-HasReferences db (deletion p) known refl h),
                      known-removed db.projects project_id project_id ∙ ground arith,
                    )
            ]
      ]
