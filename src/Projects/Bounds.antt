-- ===== src/Projects/Bounds.antt =====
-- The counter stays within MAX_COUNTER, and an identifier has six digits behind its prefix.
use taxonomy_builder.Common.{
  ℕ, ◌+◌, ◌-◌, ◌≤◌, ◌<◌, ◌≡◌, refl, ap, inl, inr, Bool, true, ◌&&◌, Option, none, some, List, [],
  ◌∷◌, ◌++◌, Text, length, length-append, ◌==◌, ltb, leb, Ensures, Triple, Triple-after,
  Triple-bind, Triple-or_raise, find, all, Result, ok, raise, Bool-cases, arith,
}
use taxonomy_builder.Common.Decimal.{decimal, zeros, length-decimal, length-zeros}
use taxonomy_builder.Models.Vocabulary.{Project}
use taxonomy_builder.Models.Session.{Db, Session, Both, request, request_keeps}
use taxonomy_builder.Projects.Allocation.{allocation_state}
use taxonomy_builder.Projects.{
  ProjectError, project_not_found, max_counter, max_found_with, match_number, padded, get_project,
  set_counter, increment_counter, allocate_identifier, highest_number, raise_counter,
  reconcile_identifier_counter,
}

length-padded : (n : ℕ) → n ≤ max_counter → length (padded n) ≡ 6
length-padded n small = omega (
  arith,
  length-append (zeros (6 - length (decimal n))) (decimal n),
  length-zeros (6 - length (decimal n)),
  length-decimal 5 n (omega arith),
)

abbrev pub are_bounded : List Project → Bool
are_bounded projects = all (λ p. leb p.identifier_counter max_counter) projects

set_counter-bounded :
    (project_id bound : ℕ) (f : ℕ → ℕ) (projects : List Project)
    → ((n : ℕ) → n < bound → f n ≤ max_counter)
    → are_bounded projects ≡ true
    → are_bounded (set_counter project_id bound f projects) ≡ true
set_counter-bounded project_id bound f [] step h = refl
set_counter-bounded project_id bound f (p ∷ projects) step h =
    let rest = set_counter-bounded project_id bound f projects step (ground arith) in
    elim (Bool-cases (p.id == project_id && ltb p.identifier_counter bound)) [
      | inl e ↦ rw e (ground (arith, rest, step p.identifier_counter))
      | inr e ↦ rw e (ground (arith, rest))
    ]

max_found_with-bounded : (m : ℕ) (o : Option ℕ) → m ≤ max_counter → max_found_with m o ≤ max_counter
max_found_with-bounded m none h = h
max_found_with-bounded m (some value) h = ground arith

highest_number-bounded :
    (prefix : Text) (m : ℕ) (identifiers : List Text)
    → m ≤ max_counter
    → highest_number prefix m identifiers ≤ max_counter
unfolding highest_number
highest_number-bounded prefix m [] h = h
highest_number-bounded prefix m (t ∷ identifiers) h =
    highest_number-bounded prefix (max_found_with m (match_number prefix t)) identifiers
      (max_found_with-bounded m (match_number prefix t) h)

abbrev Bounded : Db → Type 0
Bounded db = are_bounded db.projects ≡ true

Ensures-same :
    {A : Type 0} (P : Session → Type 0) (r : Result ProjectError A) (s : Session)
    → P s
    → Ensures (λ _. P) (λ _. P) r s
Ensures-same P (ok a) s h = h
Ensures-same P (raise e) s h = h

get_project-keeps :
    (project_id : ℕ)
    → Triple (Both Bounded) (get_project project_id) (λ _. Both Bounded) (λ _. Both Bounded)
unfolding get_project
get_project-keeps project_id =
    Triple-after _ (λ p s h. h.0)
      (Triple-or_raise (Both Bounded) (project_not_found project_id)
        (λ s. find (λ p. p.id == project_id) s.projects))

allocate-keeps :
    (project_id : ℕ)
    → Triple (Both Bounded) (allocate_identifier project_id) (λ _. Both Bounded) (λ _. Both Bounded)
unfolding allocate_identifier increment_counter
allocate-keeps project_id = Triple-bind _ _ (get_project-keeps project_id) λ project. record {
  at = λ s h.
      Ensures-same (Both Bounded) (increment_counter project project_id s).0
        (increment_counter project project_id s).1
        (
          set_counter-bounded project_id max_counter (λ n. n + 1) s.projects (λ n less. omega arith)
              h.0,
          h.1,
        );
}

reconcile-keeps :
    (project_id : ℕ) (identifiers : List Text)
    → Triple
        (Both Bounded)
        (reconcile_identifier_counter project_id identifiers)
        (λ _. Both Bounded)
        (λ _. Both Bounded)
unfolding reconcile_identifier_counter raise_counter
reconcile-keeps project_id identifiers = Triple-bind _ _ (get_project-keeps project_id) λ project.
    let top = highest_number project.identifier_prefix 0 identifiers in
    let low = highest_number-bounded project.identifier_prefix 0 identifiers (omega arith) in
    record {
      at = λ s h. elim (Bool-cases (ltb 0 top)) [
        | inl e ↦
            rw e (set_counter-bounded project_id top (λ n. top) s.projects (λ n less. low) h.0, h.1)
        | inr e ↦ rw e h
      ];
    }

-- Where no counter is above 999999, none is after an allocation or a reconciliation of any project,
-- whatever the outcome; and an allocation for a project whose counter is below that returns an
-- identifier of six characters behind the prefix.
pub allocate_identifier-bounded :
    (db : Db) (project_id : ℕ) (identifiers : List Text)
    → are_bounded db.projects ≡ true
    → (are_bounded (request (allocate_identifier project_id) db).1.projects ≡ true)
      × (are_bounded (request (reconcile_identifier_counter project_id identifiers) db).1.projects
          ≡ true)
      × ((project : Project)
          → find (λ p. p.id == project.id) db.projects ≡ some project
          → project.identifier_counter < max_counter
          → (digits : Text) × ((request (allocate_identifier project.id) db).0
              ≡ ok (project.identifier_prefix ++ digits))
            × (length digits ≡ 6))
allocate_identifier-bounded db project_id identifiers bounded = (
  request_keeps Bounded _ (allocate-keeps project_id) db bounded,
  request_keeps Bounded _ (reconcile-keeps project_id identifiers) db bounded,
  λ project found below. (
    padded (project.identifier_counter + 1),
    ap (λ r. r.0) (allocation_state db project identifiers found below),
    length-padded (project.identifier_counter + 1) (omega arith),
  ),
)
