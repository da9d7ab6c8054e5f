-- ===== src/Projects/Allocation.antt =====
-- `allocate_identifier` and `reconcile_identifier_counter` keep the counter past the numbers in use.
use taxonomy_builder.Common.{
  ℕ, ◌+◌, ◌≤◌, ◌<◌, ◌≡◌, refl, ◌∙◌, ap, inl, inr, true, false, some, List, ◌∷◌, Text, contains_text,
  ◌==◌, ltb, if◌then◌else◌, find, Result, ok, Bool-cases, arith,
}
use taxonomy_builder.Models.Vocabulary.{Project}
use taxonomy_builder.Models.Session.{Db, request}
use taxonomy_builder.Projects.{
  ProjectError, max_counter, identifier_text, get_project, set_counter, increment_counter,
  allocate_identifier, highest_number, raise_counter, reconcile_identifier_counter,
}
use taxonomy_builder.Projects.Identifiers.{
  is_ahead, is_passed, not_contained, find_both, find-set_counter, highest_number-ahead,
  is_ahead_mono, match_number-identifier_text,
}

module _ (db : Db) (project : Project) (identifiers : List Text) where
  abbrev allocation : Result ProjectError Text × Db
  allocation = request (allocate_identifier project.id) db

  abbrev next : ℕ
  next = project.identifier_counter + 1

  pub allocation_state :
      find (λ p. p.id == project.id) db.projects ≡ some project
      → project.identifier_counter < max_counter
      → allocation ≡ (
        ok (identifier_text project.identifier_prefix next),
        record db { projects = set_counter project.id max_counter (λ n. n + 1) db.projects },
      )
  unfolding request allocate_identifier get_project increment_counter
  allocation_state found below =
      let low : ltb project.identifier_counter max_counter ≡ true = ground arith in
      rw
        (
          found,
          find_both (λ p. p.id == project.id) (λ p. ltb p.identifier_counter max_counter)
              db.projects project found low,
        )
        refl

  -- Where the counter is below its maximum, and at or past every number in use, an allocation
  -- succeeds with an identifier that is not in use; the counter has moved on by one, and is then at
  -- or past every number in use with the new one.
  pub allocate_identifier-fresh :
      find (λ p. p.id == project.id) db.projects ≡ some project
      → project.identifier_counter < max_counter
      → is_ahead project.identifier_prefix project.identifier_counter identifiers ≡ true
      → (allocation.0 ≡ ok (identifier_text project.identifier_prefix next))
        × (contains_text identifiers (identifier_text project.identifier_prefix next) ≡ false)
        × (find (λ p. p.id == project.id) allocation.1.projects
            ≡ some (record project { identifier_counter = next }))
        × (is_ahead project.identifier_prefix next
              (identifier_text project.identifier_prefix next ∷ identifiers)
            ≡ true)
  allocate_identifier-fresh found below ahead =
      let prefix = project.identifier_prefix in
      let low : ltb project.identifier_counter max_counter ≡ true = ground arith in
      let state = allocation_state found below in
      (
        ap (λ r. r.0) state,
        not_contained prefix project.identifier_counter next identifiers (omega arith) (omega arith)
            ahead,
        ap (λ (r : Result ProjectError Text × Db). find (λ p. p.id == project.id) r.1.projects)
              state
            ∙ find-set_counter project.id max_counter (λ n. n + 1) db.projects project found
            ∙ rw low refl,
        ground (
          arith,
          ap (is_passed next) (match_number-identifier_text prefix next),
          is_ahead_mono prefix project.identifier_counter next identifiers (omega arith) ahead,
        ),
      )

  abbrev reconciled : Result ProjectError (Unit {0}) × Db
  reconciled = request (reconcile_identifier_counter project.id identifiers) db

  abbrev top : ℕ
  top = highest_number project.identifier_prefix 0 identifiers

  reconciled_state :
      find (λ p. p.id == project.id) db.projects ≡ some project
      → reconciled ≡ (
        ok tt,
        record db {
          projects =
              if ltb 0 top then set_counter project.id top (λ n. top) db.projects else db.projects;
        },
      )
  unfolding request reconcile_identifier_counter get_project raise_counter
  reconciled_state found = elim (Bool-cases (ltb 0 top)) [
    | inl e ↦ rw (found, e) refl
    | inr e ↦ rw (found, e) refl
  ]

  -- After a reconciliation with the identifiers in use, the counter has not gone back, and is at or
  -- past every number in use that an allocation could reach.
  pub reconcile_identifier_counter-ahead :
      find (λ p. p.id == project.id) db.projects ≡ some project
      → (counter : ℕ) × (reconciled.0 ≡ ok tt)
        × (find (λ p. p.id == project.id) reconciled.1.projects
            ≡ some (record project { identifier_counter = counter }))
        × (project.identifier_counter ≤ counter)
        × (is_ahead project.identifier_prefix counter identifiers ≡ true)
  reconcile_identifier_counter-ahead found =
      let prefix = project.identifier_prefix in
      let ahead = highest_number-ahead prefix 0 identifiers in
      let state = reconciled_state found in
      let row =
        ap
          (λ (r : Result ProjectError (Unit {0}) × Db). find (λ p. p.id == project.id) r.1.projects)
          state in
      let moved = find-set_counter project.id top (λ n. top) db.projects project found in
      elim (Bool-cases (ltb 0 top)) [
        | inl e ↦ elim (Bool-cases (ltb project.identifier_counter top)) [
          | inl low ↦
              (top, ap (λ r. r.0) state, row ∙ rw e (moved ∙ rw low refl), ground arith, ahead)
          | inr high ↦ (
            project.identifier_counter,
            ap (λ r. r.0) state,
            row ∙ rw e (moved ∙ rw high refl),
            omega arith,
            is_ahead_mono prefix top project.identifier_counter identifiers (ground arith) ahead,
          )
        ]
        | inr e ↦ (
          project.identifier_counter,
          ap (λ r. r.0) state,
          row ∙ rw e found,
          omega arith,
          is_ahead_mono prefix top project.identifier_counter identifiers (ground arith) ahead,
        )
      ]
