-- ===== src/Imports/Merges.antt =====
-- The parts of an import that return nothing raise only what the writing of rows may raise.
use taxonomy_builder.Common.{
  ℕ, ◌≡◌, refl, inl, inr, true, not, List, [], ◌∷◌, Text, filter, is_empty, map, Result, ok, raise,
  Bool-cases, Ensures,
}
use taxonomy_builder.Common.Dict.{lookup}
use taxonomy_builder.Models.Vocabulary.{Project}
use taxonomy_builder.Models.Session.{Session}
use taxonomy_builder.Projects.{ProjectError, reconcile_identifier_counter}
use taxonomy_builder.Rdf.Classes.{RestrictionMetadata}
use taxonomy_builder.Rdf.Graph.{Graph}
use taxonomy_builder.Rdf.Validation.{find_named_individuals}
use taxonomy_builder.Imports.{Parsed, Environment, put_all}
use taxonomy_builder.Imports.Classes.{
  add_restriction, restriction_row, delete_restrictions, import_restriction, import_restrictions,
}
use taxonomy_builder.Imports.Execute.{
  same_pairs, merge_prefixes, merge_namespace_prefixes, new_individuals, add_individuals,
  merge_individuals, merge_all, merge_named_individuals, from_project, reconcile,
}
use taxonomy_builder.Imports.Returns.{
  is_write_error, Runs, Returns-then, write-Runs, on_found-Runs, insert-Runs, for_each-Runs,
  with_project-Runs, Returns-at,
}

import_restriction-Runs :
    (env : Environment) (class_uri_to_id : List (Text × ℕ)) (r : RestrictionMetadata)
    → Runs (import_restriction env class_uri_to_id r)
import_restriction-Runs env class_uri_to_id r = Returns-at _ _ λ s.
    on_found-Runs (λ class_id. add_restriction (restriction_row env r class_id s))
      (lookup r.class_uri class_uri_to_id) λ class_id. insert-Runs _ _

pub import_restrictions-Runs :
    (env : Environment) (restrictions : List RestrictionMetadata)
    (class_uri_to_id : List (Text × ℕ)) (class_ids : List ℕ)
    → Runs (import_restrictions env restrictions class_uri_to_id class_ids)
unfolding import_restrictions
import_restrictions-Runs env restrictions class_uri_to_id [] = write-Runs (λ s. s)
import_restrictions-Runs env restrictions class_uri_to_id (id ∷ class_ids) =
    Returns-then (delete_restrictions (id ∷ class_ids)) _ _ (write-Runs _) λ _.
      for_each-Runs (import_restriction env class_uri_to_id) restrictions
        (import_restriction-Runs env class_uri_to_id)

from_project-Ensures :
    (r : Result ProjectError (Unit {0}) × Session)
    → Ensures
        (λ _ _. Unit {0})
        (λ e _. is_write_error e ≡ true)
        (from_project r).0
        (from_project r).1
from_project-Ensures (ok u, s) = tt
from_project-Ensures (raise e, s) = refl

pub reconcile-Runs :
    (project_id : ℕ) (identifiers : List Text) → Runs (reconcile project_id identifiers)
reconcile-Runs project_id identifiers = record {
  at = λ s u. from_project-Ensures (reconcile_identifier_counter project_id identifiers s);
}

merge_prefixes-Runs :
    (now : ℕ) (imported : List (Text × Text)) (project : Project)
    → Runs (merge_prefixes now imported project)
merge_prefixes-Runs now [] project = write-Runs (λ s. s)
merge_prefixes-Runs now (i ∷ imported) project =
    let merged = put_all (λ x. x.0) (λ x. x.1) project.namespace_prefixes (i ∷ imported) in
    elim (Bool-cases (same_pairs merged project.namespace_prefixes)) [
      | inl e ↦ rw e (write-Runs (λ s. s))
      | inr e ↦ rw e (write-Runs _)
    ]

pub merge_namespace_prefixes-Runs :
    (now project_id : ℕ) (file : Parsed) → Runs (merge_namespace_prefixes now project_id file)
unfolding merge_namespace_prefixes
merge_namespace_prefixes-Runs now project_id file =
    with_project-Runs project_id
      (merge_prefixes now (filter (λ x. not (is_empty x.0)) file.namespaces))
      (merge_prefixes-Runs now (filter (λ x. not (is_empty x.0)) file.namespaces))

add_individuals-Runs :
    (now : ℕ) (individuals : List (Text × Text)) (project : Project)
    → Runs (add_individuals now individuals project)
add_individuals-Runs now [] project = write-Runs (λ s. s)
add_individuals-Runs now (i ∷ individuals) project = write-Runs _

merge_all-Runs :
    (now project_id : ℕ) (individuals : List (Text × Text))
    → Runs (merge_all now project_id individuals)
merge_all-Runs now project_id [] = write-Runs (λ s. s)
merge_all-Runs now project_id (i ∷ individuals) =
    with_project-Runs project_id (merge_individuals now (i ∷ individuals)) λ project.
      add_individuals-Runs now
        (new_individuals (map (λ x. x.0) project.named_individuals) (i ∷ individuals)) project

pub merge_named_individuals-Runs :
    (now project_id : ℕ) (g : Graph) → Runs (merge_named_individuals now project_id g)
unfolding merge_named_individuals
merge_named_individuals-Runs now project_id g =
    merge_all-Runs now project_id (find_named_individuals g)
