-- ===== src/Tests/Projects.antt =====
-- The theorems about identifiers at the small project, whose counter stands at 12.
use taxonomy_builder.Common.{
  length, ◌<◌, ◌++◌, ℕ, ◌≤◌, ◌≡◌, refl, true, false, Option, none, some, raise, Text, text, List,
  [], ◌∷◌, ok, find, contains_text, ◌==◌, arith,
}
use taxonomy_builder.Common.Decimal.{int_of, decimal}
use taxonomy_builder.Models.Session.{request, Db}
use taxonomy_builder.Projects.{
  identifier_text, allocate_identifier, reconcile_identifier_counter, match_number, max_counter,
  prefix_locked,
}
use taxonomy_builder.Projects.Identifiers.{is_ahead}
use taxonomy_builder.Models.Vocabulary.{Project}
use taxonomy_builder.Projects.Bounds.{are_bounded, allocate_identifier-bounded}
use taxonomy_builder.Projects.Allocation.{
  allocate_identifier-fresh, reconcile_identifier_counter-ahead,
}
use taxonomy_builder.Projects.Edit.{
  project_error, integrity_error, new_project, create_project, update_project,
}
use taxonomy_builder.Projects.Input.{
  ProjectCreate, ProjectUpdate, validate_create, validate_update, is_prefix,
}
use taxonomy_builder.Projects.Delete.{delete_project}
use taxonomy_builder.Projects.Delete.References.{HasReferences, project_known}
use taxonomy_builder.Projects.Delete.Resolved.{answer, delete_project-HasReferences}
use taxonomy_builder.Projects.Distinct.{AreWellFormed}
use taxonomy_builder.Projects.Kept.{write-AreWellFormed}
use taxonomy_builder.Tests.{db, project, actor}

abbrev in_use : List Text
in_use = text "EV000010" ∷ text "EV000011" ∷ text "EV12" ∷ text "other" ∷ []

thirteenth : identifier_text (text "EV") 13 ≡ text "EV000013"
unfolding decimal
thirteenth = refl

allocate_identifier-fresh_example :
    ((request (allocate_identifier 9) db).0 ≡ ok (identifier_text (text "EV") 13))
    × (contains_text in_use (identifier_text (text "EV") 13) ≡ false)
    × (find (λ p. p.id == 9) (request (allocate_identifier 9) db).1.projects
        ≡ some (record project { identifier_counter = 13 }))
    × (is_ahead (text "EV") 13 (identifier_text (text "EV") 13 ∷ in_use) ≡ true)
unfolding match_number int_of
allocate_identifier-fresh_example =
    allocate_identifier-fresh db project in_use refl (omega arith) refl

reconcile_identifier_counter-ahead_example :
    (counter : ℕ) × ((request (reconcile_identifier_counter 9 in_use) db).0 ≡ ok tt)
    × (find (λ p. p.id == 9) (request (reconcile_identifier_counter 9 in_use) db).1.projects
        ≡ some (record project { identifier_counter = counter }))
    × (12 ≤ counter)
    × (is_ahead (text "EV") counter in_use ≡ true)
reconcile_identifier_counter-ahead_example =
    reconcile_identifier_counter-ahead db project in_use refl

allocate_identifier-bounded_example :
    (are_bounded (request (allocate_identifier 9) db).1.projects ≡ true)
    × (are_bounded (request (reconcile_identifier_counter 9 in_use) db).1.projects ≡ true)
    × ((project : Project)
        → find (λ p. p.id == project.id) db.projects ≡ some project
        → project.identifier_counter < max_counter
        → (digits : Text) × ((request (allocate_identifier project.id) db).0
            ≡ ok (project.identifier_prefix ++ digits))
          × (length digits ≡ 6))
allocate_identifier-bounded_example = allocate_identifier-bounded db 9 in_use refl

-- HttpUrl, where it accepts all, and a driver's text
abbrev url : Text → Option Text
url t = some t

abbrev message : Text → Text → Text
message constraint value = constraint ++ value

abbrev input : ProjectCreate
input = record {
  name = text " Health ";
  description = none;
  namespace = text "http://example.org/h/";
  identifier_prefix = text "HE";
}

abbrev health : ProjectCreate
health = record input { name = text "Health" }

abbrev update_in : ProjectUpdate
update_in = record {
  name = some (text "Health");
  description = none;
  namespace = none;
  identifier_prefix = some (text "HX");
}

-- the project has concepts with its prefix
prefix_is_locked :
    (request (update_project message actor 9 update_in) db).0 ≡ raise (project_error prefix_locked)
unfolding request update_project
prefix_is_locked = refl

abbrev two_projects : Db
two_projects = record db { projects = project ∷ new_project actor 10 health ∷ []; concepts = [] }

-- a name that is taken, with another prefix: the error is the database's own
name_is_taken :
    (request (update_project message actor 9 update_in) two_projects).0 ≡ raise integrity_error
unfolding request update_project
name_is_taken = refl

write-AreWellFormed_example :
    AreWellFormed (request (create_project message actor 10 health) db).1.projects
    × AreWellFormed (request (update_project message actor 9 update_in) db).1.projects
    × AreWellFormed (request (delete_project actor 9) db).1.projects
unfolding validate_create validate_update is_prefix
write-AreWellFormed_example =
    write-AreWellFormed url message actor db 10 9 input health (some (text "Health ")) none none
      (some (some (text "HX"))) update_in refl refl refl ((refl, tt), refl)

db-HasReferences : HasReferences db
db-HasReferences = record {
  schemes = refl;
  concepts = refl;
  broader = refl;
  related = refl;
  classes = refl;
  superclasses = refl;
  restrictions = refl;
  properties = refl;
  ranges = refl;
  domain_classes = refl;
  events = refl;
  event_schemes = refl;
  versions = refl;
  previous = refl;
  feedback = refl;
  comments = refl;
  parents = refl;
}

delete_project-HasReferences_example :
    ((request (delete_project actor 9) db).0 ≡ answer db 9)
    × HasReferences (request (delete_project actor 9) db).1
    × (project_known (request (delete_project actor 9) db).1 9 ≡ false)
delete_project-HasReferences_example = delete_project-HasReferences actor db 9 db-HasReferences
