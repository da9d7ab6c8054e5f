-- ===== src/Projects/Distinct.antt =====
-- No two projects share an id, a name or a namespace, and each prefix is one that is allowed.
use mathlib.Core.Option.{some-injective}
use taxonomy_builder.Common.{
  ℕ, ◌≡◌, refl, ◌∙◌, subst, inl, inr, Bool, true, false, ◌||◌, some, List, [], ◌∷◌, ◌++◌, Text,
  text_eq, text_eq_iff, ==_iff, find, any, all, any-append, ◌==◌, Bool-cases, arith,
}
use taxonomy_builder.Models.Vocabulary.{Project}
use taxonomy_builder.Projects.Edit.{same_name, same_namespace, replace_project}
use taxonomy_builder.Projects.Input.{is_prefix}

abbrev pub meets : Project → Project → Bool
meets p q = q.id == p.id || text_eq q.name p.name || text_eq q.namespace p.namespace

abbrev pub Distinct : List Project → Type 0
Distinct [] = Unit {0}
Distinct (p ∷ rows) = (any (meets p) rows ≡ false) × Distinct rows

abbrev pub has_id : ℕ → Project → Bool
has_id id p = p.id == id

text_eq_comm : (a b : Text) → text_eq a b ≡ text_eq b a
text_eq_comm a b = ground (arith, text_eq_iff a b, text_eq_iff b a)

meets_comm : (p q : Project) → meets p q ≡ meets q p
meets_comm p q = ground (arith, text_eq_comm p.name q.name, text_eq_comm p.namespace q.namespace)

-- a row whose insertion is not refused
any-meets :
    (row : Project) (rows : List Project)
    → any (has_id row.id) rows ≡ false
    → any (same_name row) rows ≡ false
    → any (same_namespace row) rows ≡ false
    → any (meets row) rows ≡ false
any-meets row [] h k l = refl
any-meets row (p ∷ rows) h k l = ground (arith, any-meets row rows)

Distinct-append :
    (row : Project) (rows : List Project)
    → any (meets row) rows ≡ false
    → Distinct rows
    → Distinct (rows ++ row ∷ [])
Distinct-append row [] fresh h = (refl, tt)
Distinct-append row (p ∷ rows) fresh (alone, h) = (
  any-append (meets p) rows (row ∷ []) ∙ ground (arith, meets_comm p row),
  Distinct-append row rows (ground arith) h,
)

replace_absent :
    (row : Project) (rows : List Project)
    → any (has_id row.id) rows ≡ false
    → replace_project row rows ≡ rows
replace_absent row [] h = refl
replace_absent row (p ∷ rows) h = ground (arith, replace_absent row rows)

other_id :
    (p : Project) (id : ℕ) (rows : List Project)
    → p.id ≡ id
    → any (meets p) rows ≡ false
    → any (has_id id) rows ≡ false
other_id p id [] e h = refl
other_id p id (q ∷ rows) e h = ground (arith, other_id p id rows)

meets-replace :
    (p row : Project) (rows : List Project)
    → meets p row ≡ false
    → any (meets p) rows ≡ false
    → any (meets p) (replace_project row rows) ≡ false
meets-replace p row [] e h = refl
meets-replace p row (q ∷ rows) e h = ground (arith, meets-replace p row rows e)

not_meets :
    (p row : Project)
    → (p.id == row.id) ≡ false
    → same_name row p ≡ false
    → same_namespace row p ≡ false
    → meets p row ≡ false
not_meets p row e h k =
    ground (arith, text_eq_comm p.name row.name, text_eq_comm p.namespace row.namespace)

Distinct-replace :
    (row : Project) (rows : List Project)
    → any (same_name row) rows ≡ false
    → any (same_namespace row) rows ≡ false
    → Distinct rows
    → Distinct (replace_project row rows)
Distinct-replace row [] h k d = tt
Distinct-replace row (p ∷ rows) h k (alone, d) = elim (Bool-cases (p.id == row.id)) [
  | inl e ↦
      let absent = other_id p row.id rows ((==_iff p.id row.id).0 e) alone in
      rw (e, replace_absent row rows absent)
        (any-meets row rows absent (ground arith) (ground arith), d)
  | inr e ↦ rw e (
    meets-replace p row rows (not_meets p row e (ground arith) (ground arith)) alone,
    Distinct-replace row rows (ground arith) (ground arith) d,
  )
]

-- the prefix is one that is allowed
abbrev pub has_prefix_form : Project → Bool
has_prefix_form p = is_prefix p.identifier_prefix

all-replace :
    (row : Project) (rows : List Project)
    → has_prefix_form row ≡ true
    → all has_prefix_form rows ≡ true
    → all has_prefix_form (replace_project row rows) ≡ true
all-replace row [] e h = refl
all-replace row (p ∷ rows) e h = ground (arith, all-replace row rows e)

all-append :
    (row : Project) (rows : List Project)
    → has_prefix_form row ≡ true
    → all has_prefix_form rows ≡ true
    → all has_prefix_form (rows ++ row ∷ []) ≡ true
all-append row [] e h = ground arith
all-append row (p ∷ rows) e h = ground (arith, all-append row rows e)

abbrev pub AreWellFormed : List Project → Type 0
AreWellFormed rows = Distinct rows × (all has_prefix_form rows ≡ true)

pub AreWellFormed-append :
    (row : Project) (rows : List Project)
    → has_prefix_form row ≡ true
    → any (has_id row.id) rows ≡ false
    → any (same_name row) rows ≡ false
    → any (same_namespace row) rows ≡ false
    → AreWellFormed rows
    → AreWellFormed (rows ++ row ∷ [])
AreWellFormed-append row rows e fresh h k (d, f) =
    (Distinct-append row rows (any-meets row rows fresh h k) d, all-append row rows e f)

pub AreWellFormed-replace :
    (row : Project) (rows : List Project)
    → has_prefix_form row ≡ true
    → any (same_name row) rows ≡ false
    → any (same_namespace row) rows ≡ false
    → AreWellFormed rows
    → AreWellFormed (replace_project row rows)
AreWellFormed-replace row rows e h k (d, f) =
    (Distinct-replace row rows h k d, all-replace row rows e f)

pub found_prefix_form :
    (id : ℕ) (rows : List Project) (p : Project)
    → find (has_id id) rows ≡ some p
    → all has_prefix_form rows ≡ true
    → has_prefix_form p ≡ true
found_prefix_form id [] p e h = absurd cc
found_prefix_form id (q ∷ rows) p e h = elim (Bool-cases (q.id == id)) [
  | inl k ↦ subst (λ x. has_prefix_form x ≡ true) (some-injective q p (rw k at e)) (ground arith)
  | inr k ↦ found_prefix_form id rows p (rw k at e) (ground arith)
]
