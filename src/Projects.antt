-- ===== src/Projects.antt =====
-- `ProjectService` of backend/src/taxonomy_builder/services/project_service.py: the identifiers that a
-- project hands out, the lock on their prefix, and the lookups.
pub mod Identifiers
pub mod Allocation
pub mod Bounds
pub mod Input
pub mod Edit
pub mod Distinct
pub mod Delete
pub mod Rules
pub mod Accepted
pub mod Kept
use taxonomy_builder.Common.{
  ℕ, zero, suc, ◌+◌, ◌-◌, Bool, true, false, not, ◌&&◌, ◌||◌, Option, none, some, List, [], ◌∷◌,
  ◌++◌, Text, text, text_eq, length, ◌==◌, ltb, leb, if◌then◌else◌, find, filter, any, Exec, Result,
  ok, raise, pure, or_raise, raise_if, ◌>>=◌, ◌>>◌,
}
use taxonomy_builder.Common.Decimal.{int_of, decimal, zeros}
use taxonomy_builder.Models.Vocabulary.{Project, ConceptScheme, Concept}
use taxonomy_builder.Models.Activity.{PublishedVersion}
use taxonomy_builder.Models.Session.{Db, Session}

pub data ProjectError : Type 0 where
  project_not_found : ℕ → ProjectError
  version_not_found : Text → ProjectError
  prefix_locked : ProjectError
  identifier_allocation : Text → ProjectError

abbrev pub Service : Type 0 → Type 0
Service = Exec Session ProjectError

-- IDENTIFIER_WIDTH and MAX_COUNTER
abbrev pub identifier_width : ℕ
identifier_width = 6

abbrev pub max_counter : ℕ
max_counter = 999999

-- `f"{n:06d}"`
abbrev pub padded : ℕ → Text
padded n = zeros (identifier_width - length (decimal n)) ++ decimal n

-- `f"{prefix}{counter:06d}"`
abbrev pub identifier_text : Text → ℕ → Text
identifier_text prefix counter = prefix ++ padded counter

-- what stands behind a prefix
abbrev pub after_prefix : Text → Text → Option Text
after_prefix [] t = some t
after_prefix (p ∷ prefix) [] = none
after_prefix (p ∷ prefix) (c ∷ t) = if p == c then after_prefix prefix t else none

-- `$` of Python's `re` also matches before a line feed at the end
abbrev pub drop_newline : Text → Text
drop_newline [] = []
drop_newline (c ∷ []) = if c == 10 then [] else c ∷ []
drop_newline (c ∷ d ∷ t) = c ∷ drop_newline (d ∷ t)

abbrev pub number_behind : Option Text → Option ℕ
number_behind none = none
number_behind (some t) = int_of (drop_newline t)

-- the number that `^prefix(\d+)$` finds
unfoldable pub match_number : Text → Text → Option ℕ
unfolding int_of
match_number prefix identifier = number_behind (after_prefix prefix identifier)

abbrev is_number : Option Text → Bool
is_number none = false
is_number (some t) = elim (int_of t) [ none ↦ false | some n ↦ true ]

-- PostgreSQL's `~ '^prefix\d+$'`
unfoldable pub has_prefix : Text → Text → Bool
unfolding int_of
has_prefix prefix identifier = is_number (after_prefix prefix identifier)

abbrev pub in_project : List ConceptScheme → ℕ → Concept → Bool
in_project schemes project_id c =
    any (λ s. s.id == c.scheme_id && s.project_id == project_id) schemes

-- `_has_prefix_concepts`
unfoldable pub has_prefix_concepts : Db → ℕ → Text → Bool
unfolding has_prefix
has_prefix_concepts db project_id prefix =
    any (λ c. in_project db.schemes project_id c && has_prefix prefix c.identifier) db.concepts

unfoldable pub get_project : ℕ → Service Project
get_project project_id s =
    or_raise (project_not_found project_id) (find (λ p. p.id == project_id) s.projects) s

-- `_check_prefix_mutable`
unfoldable pub check_prefix_mutable : ℕ → Text → Service (Unit {0})
check_prefix_mutable project_id prefix s =
    raise_if (has_prefix_concepts s.tables project_id prefix) prefix_locked s

-- an UPDATE of the projects of that id whose counter is below the bound
abbrev pub set_counter : ℕ → ℕ → (ℕ → ℕ) → List Project → List Project
set_counter project_id bound f [] = []
set_counter project_id bound f (p ∷ projects) =
    if p.id == project_id && ltb p.identifier_counter bound
    then record p { identifier_counter = f p.identifier_counter }
      ∷ set_counter project_id bound f projects
    else p ∷ set_counter project_id bound f projects

abbrev pub with_projects : List Project → Session → Session
with_projects rows s = record s { tables = record s.tables { projects = rows } }

abbrev allocated : Project → Option Project → Result ProjectError Text
allocated project none = raise (identifier_allocation project.name)
allocated project (some row) =
    ok (identifier_text row.identifier_prefix (row.identifier_counter + 1))

-- `UPDATE ... WHERE id = ... AND counter < MAX RETURNING prefix, counter`
unfoldable pub increment_counter : Project → ℕ → Service Text
increment_counter project project_id s = (
  allocated project
      (find (λ p. p.id == project_id && ltb p.identifier_counter max_counter) s.projects),
  with_projects (set_counter project_id max_counter (λ n. n + 1) s.projects) s,
)

unfoldable pub allocate_identifier : ℕ → Service Text
unfolding get_project increment_counter
allocate_identifier project_id = do
  project ← get_project project_id
  increment_counter project project_id

abbrev max_of : ℕ → ℕ → ℕ
max_of m n = if ltb m n then n else m

-- one identifier: numbers above the maximum are passed over
abbrev pub max_found_with : ℕ → Option ℕ → ℕ
max_found_with max_found none = max_found
max_found_with max_found (some value) =
    if leb value max_counter then max_of max_found value else max_found

unfoldable pub highest_number : Text → ℕ → List Text → ℕ
unfolding match_number
highest_number prefix max_found [] = max_found
highest_number prefix max_found (t ∷ identifiers) =
    highest_number prefix (max_found_with max_found (match_number prefix t)) identifiers

-- `if max_found > 0: UPDATE ... WHERE counter < max_found`
unfoldable pub raise_counter : ℕ → ℕ → Service (Unit {0})
raise_counter project_id max_found s =
    if ltb 0 max_found
    then (ok tt, with_projects (set_counter project_id max_found (λ n. max_found) s.projects) s)
    else (ok tt, s)

unfoldable pub reconcile_identifier_counter : ℕ → List Text → Service (Unit {0})
unfolding get_project highest_number raise_counter
reconcile_identifier_counter project_id identifiers = do
  project ← get_project project_id
  raise_counter project_id (highest_number project.identifier_prefix 0 identifiers)

-- `get_project_version`
unfoldable pub get_project_version : ℕ → Text → Service PublishedVersion
get_project_version project_id version s =
    or_raise (version_not_found version)
      (find (λ v. text_eq v.version version && v.project_id == project_id) s.versions) s
