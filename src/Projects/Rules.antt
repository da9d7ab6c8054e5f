-- ===== src/Projects/Rules.antt =====
-- What the steps of the operations on projects keep.
use taxonomy_builder.Common.{
  ℕ, ◌≡◌, refl, inl, inr, Bool, true, false, Option, none, some, List, Text, text_eq, find, any,
  if◌then◌else◌, Bool-cases, Option-cases, Triple,
}
use taxonomy_builder.Models.Vocabulary.{Project}
use taxonomy_builder.Models.Activity.{ChangeEvent}
use taxonomy_builder.Models.Session.{Session, Both}
use taxonomy_builder.Tracker.{Actor, record_change}
use taxonomy_builder.Projects.{get_project, check_prefix_mutable, has_prefix_concepts}
use taxonomy_builder.Projects.Distinct.{has_id, has_prefix_form, AreWellFormed, found_prefix_form}
use taxonomy_builder.Projects.Edit.{
  EditError, Service, same_name, same_namespace, flush_early, flush_project, of_project, touched,
  is_locked,
}
use taxonomy_builder.Projects.Input.{is_prefix}

abbrev pub Good : Session → Type 0
Good = Both (λ db. AreWellFormed db.projects)

-- a prefix, if one is set, is allowed
abbrev pub allowed : Option Text → Bool
allowed none = true
allowed (some t) = is_prefix t

pub touched_prefix :
    (actor : Actor) (b : Bool) (p : Project)
    → has_prefix_form (touched actor b p) ≡ has_prefix_form p
touched_prefix actor true p = refl
touched_prefix actor false p = refl

pub new_prefix-allowed :
    (t : Option Text) (own : Text)
    → allowed t ≡ true
    → allowed (elim t [ none ↦ none | some t ↦ if text_eq t own then none else some t ]) ≡ true
new_prefix-allowed none own h = refl
new_prefix-allowed (some t) own h = elim (Bool-cases (text_eq t own)) [
  | inl e ↦ rw e refl
  | inr e ↦ rw e h
]

pub found-Good :
    (project_id : ℕ)
    → Triple Good
        (λ s. of_project (get_project project_id s))
        (λ p s. Good s × (has_prefix_form p ≡ true))
        (λ _. Good)
unfolding get_project
found-Good project_id = record {
  at = λ s (now, back). elim (Option-cases (find (has_id project_id) s.projects)) [
    | inl e ↦ rw e (now, back)
    | inr (p, e) ↦ rw e ((now, back), found_prefix_form project_id s.projects p e now.1)
  ];
}

-- the two flushes, of rows that are well-formed where the unique columns are
module _ (row : Project) (rows : List Project → List Project) (before : Session → Type 0)
    (weak : (s : Session) → before s → Good s)
    (gives : (s : Session)
      → before s
      → any (same_name row) s.projects ≡ false
      → any (same_namespace row) s.projects ≡ false
      → AreWellFormed (rows s.projects)) where
  pub flush_project-Good :
      (message : Text → Text → Text) (name namespace : Text)
      → Triple before
          (λ s. flush_project message row (rows s.projects) name namespace s)
          (λ _. Good)
          (λ _. Good)
  unfolding flush_project
  flush_project-Good message name namespace = record {
    at = λ s h.
        let (now, back) = weak s h in
        elim (Bool-cases (any (same_name row) s.projects)) [
          | inl e ↦ rw e (back, back)
          | inr e ↦ elim (Bool-cases (any (same_namespace row) s.projects)) [
            | inl f ↦ rw (e, f) (back, back)
            | inr f ↦ rw (e, f) (gives s h e f, back)
          ]
        ];
  }

  pub flush_early-Good :
      Triple before (λ s. flush_early row (rows s.projects) s) (λ _. Good) (λ _. Good)
  unfolding flush_early
  flush_early-Good = record {
    at = λ s h.
        let (now, back) = weak s h in
        elim (Bool-cases (any (same_name row) s.projects)) [
          | inl e ↦ rw e (back, back)
          | inr e ↦ elim (Bool-cases (any (same_namespace row) s.projects)) [
            | inl f ↦ rw (e, f) (back, back)
            | inr f ↦ rw (e, f) (gives s h e f, back)
          ]
        ];
  }

pub log_keeps :
    (e : ChangeEvent) → Triple {E = EditError} Good (record_change e) (λ _. Good) (λ _. Good)
log_keeps e = record { at = λ s h. h }

pub is_locked-Good : (p : Project) → Triple Good (is_locked p) (λ _. Good) (λ _. Good)
is_locked-Good p = record { at = λ s h. h }

-- a condition that is no matter of the session
pub given :
    {A C : Type 0} (m : Service A)
    → (C → Triple Good m (λ _. Good) (λ _. Good))
    → Triple (λ s. Good s × C) m (λ _. Good) (λ _. Good)
given m t = record { at = λ s (h, c). (t c).at s h }

pub check-Good :
    (project_id : ℕ) (prefix : Text)
    → Triple Good
        (λ s. of_project (check_prefix_mutable project_id prefix s))
        (λ _. Good)
        (λ _. Good)
unfolding check_prefix_mutable
check-Good project_id prefix = record {
  at = λ s h. elim (Bool-cases (has_prefix_concepts s.tables project_id prefix)) [
    | inl e ↦ rw e h
    | inr e ↦ rw e h
  ];
}
