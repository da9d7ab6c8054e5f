-- ===== src/Imports/Growth/Quiet.antt =====
-- The steps of the import that add no row to the counted tables.
use taxonomy_builder.Common.{
  ◌+◌, ltb, arith, ℕ, ◌≡◌, refl, inl, inr, not, List, [], ◌∷◌, Text, is_empty, find, filter, map,
  ◌==◌, Ensures, Bool-cases, Option-cases,
}
use taxonomy_builder.Common.Dict.{lookup}
use taxonomy_builder.Models.Vocabulary.{Project}
use taxonomy_builder.Models.Session.{Session}
use taxonomy_builder.Projects.{
  get_project, raise_counter, highest_number, reconcile_identifier_counter,
}
use taxonomy_builder.Rdf.Graph.{Graph}
use taxonomy_builder.Rdf.Classes.{RestrictionMetadata}
use taxonomy_builder.Rdf.Validation.{find_named_individuals}
use taxonomy_builder.Imports.{Environment, Parsed, put_all}
use taxonomy_builder.Imports.Classes.{
  add_restriction, restriction_row, delete_restrictions, import_restriction, import_restrictions,
}
use taxonomy_builder.Imports.Execute.{
  same_pairs, merge_prefixes, merge_namespace_prefixes, new_individuals, add_individuals,
  merge_individuals, merge_all, merge_named_individuals, reconcile,
}
use taxonomy_builder.Imports.Growth.{
  Choice, size, Quiet, Quiet-then, Grows-at, write-Quiet, insert-Grows,
}
use taxonomy_builder.Imports.Growth.Loops.{for_each-Quiet, on_found-Quiet, with_project-Quiet}

module _ (w : Choice) where
  import_restriction-Quiet :
      (env : Environment) (class_uri_to_id : List (Text × ℕ)) (r : RestrictionMetadata)
      → Quiet w (import_restriction env class_uri_to_id r)
  import_restriction-Quiet env class_uri_to_id r = Grows-at w _ _ λ s.
      on_found-Quiet w (λ class_id. add_restriction (restriction_row env r class_id s))
        (lookup r.class_uri class_uri_to_id) λ class_id. insert-Grows w _ _ 0 λ s. omega arith

  pub import_restrictions-Quiet :
      (env : Environment) (restrictions : List RestrictionMetadata)
      (class_uri_to_id : List (Text × ℕ)) (class_ids : List ℕ)
      → Quiet w (import_restrictions env restrictions class_uri_to_id class_ids)
  unfolding import_restrictions
  import_restrictions-Quiet env restrictions class_uri_to_id [] = write-Quiet w (λ s. s) λ s. refl
  import_restrictions-Quiet env restrictions class_uri_to_id (id ∷ class_ids) =
      Quiet-then w (delete_restrictions (id ∷ class_ids)) _ _ (write-Quiet w _ λ s. refl) λ _.
        for_each-Quiet w (import_restriction env class_uri_to_id) restrictions
          (import_restriction-Quiet env class_uri_to_id)

  reconcile_lem :
      (s : Session) (project_id : ℕ) (identifiers : List Text)
      → Ensures
          (λ _ s'. (n : ℕ) × (size w s'.tables ≡ size w s.tables + n) × (n ≡ 0))
          (λ _ _. Unit {0})
          (reconcile project_id identifiers s).0
          (reconcile project_id identifiers s).1
  unfolding reconcile_identifier_counter get_project raise_counter
  reconcile_lem s project_id identifiers =
      elim (Option-cases (find (λ p. p.id == project_id) s.projects)) [
        | inl e ↦ rw e tt
        | inr (p, e) ↦
            elim (Bool-cases (ltb 0 (highest_number p.identifier_prefix 0 identifiers))) [
              | inl h ↦ rw (e, h) (0, omega arith, refl)
              | inr h ↦ rw (e, h) (0, omega arith, refl)
            ]
      ]

  pub reconcile-Quiet :
      (project_id : ℕ) (identifiers : List Text) → Quiet w (reconcile project_id identifiers)
  reconcile-Quiet project_id identifiers = record {
    at = λ s. reconcile_lem s project_id identifiers;
  }

  merge_prefixes-Quiet :
      (now : ℕ) (imported : List (Text × Text)) (project : Project)
      → Quiet w (merge_prefixes now imported project)
  merge_prefixes-Quiet now [] project = write-Quiet w (λ s. s) λ s. refl
  merge_prefixes-Quiet now (i ∷ imported) project =
      let merged = put_all (λ x. x.0) (λ x. x.1) project.namespace_prefixes (i ∷ imported) in
      elim (Bool-cases (same_pairs merged project.namespace_prefixes)) [
        | inl e ↦ rw e (write-Quiet w (λ s. s) λ s. refl)
        | inr e ↦ rw e (write-Quiet w _ λ s. refl)
      ]

  pub merge_namespace_prefixes-Quiet :
      (now project_id : ℕ) (file : Parsed) → Quiet w (merge_namespace_prefixes now project_id file)
  unfolding merge_namespace_prefixes
  merge_namespace_prefixes-Quiet now project_id file =
      with_project-Quiet w project_id
        (merge_prefixes now (filter (λ x. not (is_empty x.0)) file.namespaces))
        (merge_prefixes-Quiet now (filter (λ x. not (is_empty x.0)) file.namespaces))

  add_individuals-Quiet :
      (now : ℕ) (individuals : List (Text × Text)) (project : Project)
      → Quiet w (add_individuals now individuals project)
  add_individuals-Quiet now [] project = write-Quiet w (λ s. s) λ s. refl
  add_individuals-Quiet now (i ∷ individuals) project = write-Quiet w _ λ s. refl

  merge_all-Quiet :
      (now project_id : ℕ) (individuals : List (Text × Text))
      → Quiet w (merge_all now project_id individuals)
  merge_all-Quiet now project_id [] = write-Quiet w (λ s. s) λ s. refl
  merge_all-Quiet now project_id (i ∷ individuals) =
      with_project-Quiet w project_id (merge_individuals now (i ∷ individuals)) λ project.
        add_individuals-Quiet now
          (new_individuals (map (λ x. x.0) project.named_individuals) (i ∷ individuals)) project

  pub merge_named_individuals-Quiet :
      (now project_id : ℕ) (g : Graph) → Quiet w (merge_named_individuals now project_id g)
  unfolding merge_named_individuals
  merge_named_individuals-Quiet now project_id g =
      merge_all-Quiet now project_id (find_named_individuals g)
