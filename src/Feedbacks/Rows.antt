-- ===== src/Feedbacks/Rows.antt =====
-- Finding a row after another was written.
use taxonomy_builder.Common.{
  ℕ, ◌≡◌, ◌≢◌, refl, sym, ◌∙◌, ap, inl, inr, Bool, true, false, none, some, List, [], ◌∷◌, ◌==◌,
  ==_refl, if◌then◌else◌, find, all, Bool-cases, arith,
}
use mathlib.Core.Option.{some-injective}
use taxonomy_builder.Models.Activity.{Feedback}
use taxonomy_builder.Feedbacks.{is_none, is_live, replace_feedback}

pub find_passes {ℓ} :
    {A : Type ℓ} (f : A → Bool) (xs : List A) (x : A) → find f xs ≡ some x → f x ≡ true
find_passes f [] x h = cc
find_passes f (y ∷ xs) x h = elim (Bool-cases (f y)) [
  | inl e ↦ ap f (sym (some-injective y x (rw e at h))) ∙ e
  | inr e ↦ find_passes f xs x (rw e at h)
]

pub all-find {ℓ} :
    {A : Type ℓ} (p f : A → Bool) (xs : List A) (x : A)
    → all p xs ≡ true
    → find f xs ≡ some x
    → p x ≡ true
all-find p f [] x a h = cc
all-find p f (y ∷ xs) x a h = elim (Bool-cases (f y)) [
  | inl e ↦ ap p (sym (some-injective y x (rw e at h))) ∙ ground arith
  | inr e ↦ all-find p f xs x (ground arith) (rw e at h)
]

-- the row that was written is the one found
pub find-replace :
    (row fb : Feedback) (rows : List Feedback)
    → find (is_live row.id) rows ≡ some fb
    → is_none row.deleted_at ≡ true
    → find (is_live row.id) (replace_feedback row rows) ≡ some row
find-replace row fb [] h live = cc
find-replace row fb (x ∷ rows) h live = elim (Bool-cases (x.id == row.id)) [
  | inl e ↦ rw e (rw (==_refl row.id, live) refl)
  | inr e ↦ rw e (rw e (find-replace row fb rows (rw e at h) live))
]

-- a deleted row is not found
pub find-replace_deleted :
    (row : Feedback) (rows : List Feedback)
    → is_none row.deleted_at ≡ false
    → find (is_live row.id) (replace_feedback row rows) ≡ none
find-replace_deleted row [] gone = refl
find-replace_deleted row (x ∷ rows) gone = elim (Bool-cases (x.id == row.id)) [
  | inl e ↦ rw e (rw (==_refl row.id, gone) (find-replace_deleted row rows gone))
  | inr e ↦ rw e (rw e (find-replace_deleted row rows gone))
]

-- the other rows are found as before
pub find-replace_other :
    (j : ℕ) (row : Feedback) (rows : List Feedback)
    → row.id ≢ j
    → find (is_live j) (replace_feedback row rows) ≡ find (is_live j) rows
find-replace_other j row [] ne = refl
find-replace_other j row (x ∷ rows) ne = elim (Bool-cases (x.id == row.id)) [
  | inl e ↦
      let new_row : (row.id == j) ≡ false = ground arith in
      let old_row : (x.id == j) ≡ false = ground arith in
      rw e (rw (new_row, old_row) (find-replace_other j row rows ne))
  | inr e ↦ rw e (ap (λ l. if is_live j x then some x else l) (find-replace_other j row rows ne))
]

pub all-replace :
    (p : Feedback → Bool) (row : Feedback) (rows : List Feedback)
    → p row ≡ true
    → all p rows ≡ true
    → all p (replace_feedback row rows) ≡ true
all-replace p row [] h a = refl
all-replace p row (x ∷ rows) h a = ground (arith, all-replace p row rows h)
