-- ===== src/Projects/Kept.antt =====
-- Creating, updating and deleting projects keeps the table of projects well-formed.
use taxonomy_builder.Projects.Accepted.{created_prefix, set_prefix-allowed, updated_prefix}
use taxonomy_builder.Projects.Rules.{
  Good, allowed, touched_prefix, new_prefix-allowed, found-Good, flush_project-Good,
  flush_early-Good, log_keeps, is_locked-Good, given, check-Good,
}
use taxonomy_builder.Common.{
  ℕ, ◌≡◌, refl, ◌∙◌, inl, inr, true, false, not, Option, none, some, List, [], ◌∷◌, ◌++◌, Text, any,
  all-kept, filter, ◌==◌, Bool-cases, arith, Triple, Triple-bind, Triple-after, Triple-pure,
}
use taxonomy_builder.Models.Vocabulary.{Project}
use taxonomy_builder.Models.Session.{Db, Session, request, request_from, request_keeps}
use taxonomy_builder.Tracker.{Actor}
use taxonomy_builder.Projects.Delete.{restricts, erase_project, delete_project}
use taxonomy_builder.Projects.Distinct.{
  meets, Distinct, has_id, has_prefix_form, AreWellFormed, AreWellFormed-append,
  AreWellFormed-replace,
}
use taxonomy_builder.Projects.Edit.{
  replace_project, new_project, insert_project, create_project, edited_project, edited_row,
  with_prefix, new_prefix, written, prefix_mutable, write_update, update_project,
}
use taxonomy_builder.Projects.Input.{
  ProjectCreate, ProjectUpdate, is_prefix, validate_create, validate_update,
}

module _ (message : Text → Text → Text) (actor : Actor) where
  -- a table in which no project has the id
  abbrev Fresh : ℕ → Session → Type 0
  Fresh id s = Good s × (any (has_id id) s.projects ≡ false)

  insert_project-Good :
      (row : Project) (name namespace : Text)
      → has_prefix_form row ≡ true
      → Triple
          (Fresh row.id)
          (insert_project message actor row name namespace)
          (λ _. Good)
          (λ _. Good)
  insert_project-Good row name namespace form =
      flush_project-Good row (λ rows. rows ++ row ∷ []) (Fresh row.id) (λ s h. h.0)
        (λ s h e f. AreWellFormed-append row s.projects form h.1 e f h.0.0) message name namespace

  written-Good :
      (row : Project) (name namespace : Text)
      → has_prefix_form row ≡ true
      → Triple Good (written message actor row name namespace) (λ _. Good) (λ _. Good)
  written-Good row name namespace form =
      flush_project-Good row (replace_project row) Good (λ s h. h)
        (λ s h e f. AreWellFormed-replace row s.projects form e f h.0) message name namespace

  prefix_mutable-Good :
      (row p : Project)
      → has_prefix_form row ≡ true
      → Triple Good (prefix_mutable message actor row p) (λ _. Good) (λ _. Good)
  prefix_mutable-Good row p form =
      Triple-bind _ _
        (flush_early-Good row (replace_project row) Good (λ s h. h)
          (λ s h e f. AreWellFormed-replace row s.projects form e f h.0))
        (λ _. check-Good p.id p.identifier_prefix)

  write_update-Good :
      (u : ProjectUpdate) (p : Project) (prefix : Option Text)
      → has_prefix_form p ≡ true
      → allowed prefix ≡ true
      → Triple Good (write_update message actor u p prefix) (λ _. Good) (λ _. Good)
  write_update-Good u p none form h =
      Triple-bind _ _
        (written-Good (edited_row actor u p) _ _
          (touched_prefix actor _ (edited_project u p) ∙ form))
        (λ _. Triple-pure (edited_row actor u p))
  write_update-Good u p (some prefix) form h =
      Triple-bind _ _
        (prefix_mutable-Good (edited_row actor u p) p
          (touched_prefix actor _ (edited_project u p) ∙ form))
        (λ _.
          Triple-bind _ _ (written-Good (with_prefix actor prefix (edited_row actor u p)) _ _ h)
            (λ _. Triple-pure (with_prefix actor prefix (edited_row actor u p))))

  create-Good :
      (new_id : ℕ) (p : ProjectCreate)
      → is_prefix p.identifier_prefix ≡ true
      → Triple (Fresh new_id) (create_project message actor new_id p) (λ _. Good) (λ _. Good)
  unfolding create_project
  create-Good new_id p form =
      Triple-bind _ _ (insert_project-Good (new_project actor new_id p) p.name p.namespace form)
        λ _. Triple-bind _ _ (log_keeps _) λ _. Triple-pure (new_project actor new_id p, false)

  update-Good :
      (project_id : ℕ) (u : ProjectUpdate)
      → allowed u.identifier_prefix ≡ true
      → Triple Good (update_project message actor project_id u) (λ _. Good) (λ _. Good)
  unfolding update_project
  update-Good project_id u h = Triple-bind _ _ (found-Good project_id) λ p. given _ λ form.
      Triple-bind _ _
        (write_update-Good u p (new_prefix u p) form
          (new_prefix-allowed u.identifier_prefix p.identifier_prefix h))
        λ row.
          Triple-bind _ _ (log_keeps _)
            λ _. Triple-bind _ _ (is_locked-Good row) λ locked. Triple-pure (row, locked)

-- a deletion
filter-AreWellFormed :
    (id : ℕ) (rows : List Project)
    → AreWellFormed rows
    → AreWellFormed (filter (λ p. not (p.id == id)) rows)
filter-AreWellFormed id rows (d, f) = (kept_Distinct rows d, all-kept _ _ _ rows (λ p h e. h) f)
  where
    any-filtered :
        (p : Project) (rows : List Project)
        → any (meets p) rows ≡ false
        → any (meets p) (filter (λ p. not (p.id == id)) rows) ≡ false
    any-filtered p [] h = refl
    any-filtered p (q ∷ rows) h = ground (arith, any-filtered p rows)

    kept_Distinct :
        (rows : List Project) → Distinct rows → Distinct (filter (λ p. not (p.id == id)) rows)
    kept_Distinct [] d = tt
    kept_Distinct (p ∷ rows) (alone, d) = elim (Bool-cases (p.id == id)) [
      | inl e ↦ rw e (kept_Distinct rows d)
      | inr e ↦ rw e (any-filtered p rows alone, kept_Distinct rows d)
    ]

erase-Good : (project_id : ℕ) → Triple Good (erase_project project_id) (λ _. Good) (λ _. Good)
unfolding erase_project
erase-Good project_id = record {
  at = λ s (now, back). elim (Bool-cases (any (restricts s.tables project_id) s.properties)) [
    | inl e ↦ rw e (now, back)
    | inr e ↦ rw e (filter-AreWellFormed project_id s.projects now, back)
  ];
}

delete-Good :
    (actor : Actor) (project_id : ℕ)
    → Triple Good (delete_project actor project_id) (λ _. Good) (λ _. Good)
unfolding delete_project
delete-Good actor project_id =
    Triple-bind _ _ (Triple-after _ (λ _ s h. h.0) (found-Good project_id))
      λ p. Triple-bind _ _ (log_keeps _) λ _. erase-Good project_id

module _ (url : Text → Option Text) (message : Text → Text → Text) (actor : Actor) (db : Db) where
  -- Where no two projects share an id, a name or a namespace, and each prefix is of one to four
  -- letters from A to Z, this is so after a request to create a project under a new id, to update
  -- one or to delete one, whatever its outcome, if the input is what the validators let through.
  pub write-AreWellFormed :
      (new_id project_id : ℕ) (input create_in : ProjectCreate) (name : Option Text)
      (description namespace prefix : Option (Option Text)) (update_in : ProjectUpdate)
      → validate_create url input ≡ some create_in
      → validate_update url name description namespace prefix ≡ some update_in
      → any (has_id new_id) db.projects ≡ false
      → AreWellFormed db.projects
      → AreWellFormed (request (create_project message actor new_id create_in) db).1.projects
        × AreWellFormed (request (update_project message actor project_id update_in) db).1.projects
        × AreWellFormed (request (delete_project actor project_id) db).1.projects
  unfolding validate_create validate_update
  write-AreWellFormed new_id project_id input create_in name description namespace prefix update_in
        created updated fresh h =
      (
        request_from (λ d. AreWellFormed d.projects) (Fresh message actor new_id) _
            (create-Good message actor new_id create_in (created_prefix input create_in _ created))
            db ((h, h), fresh),
        request_keeps (λ d. AreWellFormed d.projects) _
            (update-Good message actor project_id update_in (
              set_prefix-allowed prefix update_in.identifier_prefix
                (updated_prefix description _ _ _ update_in updated)))
            db h,
        request_keeps (λ d. AreWellFormed d.projects) _ (delete-Good actor project_id) db h,
      )
