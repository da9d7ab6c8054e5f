-- ===== src/Projects/Accepted.antt =====
-- What the validators of the schemas let through.
use taxonomy_builder.Projects.Rules.{allowed}
use mathlib.Core.Option.{some-injective}
use taxonomy_builder.Common.{
  ◌≡◌, refl, ap, subst, inl, inr, Bool, true, false, Option, none, some, Text, if◌then◌else◌,
  Bool-cases, arith,
}
use taxonomy_builder.Projects.Input.{
  ProjectCreate, ProjectUpdate, is_prefix, created_with, set_with, check_prefix, updated_with,
}

-- what the validators let through
if_some :
    {A : Type 0} (b : Bool) (x y : A) → (if b then some x else none) ≡ some y → (b ≡ true) × (x ≡ y)
if_some true x y h = (refl, some-injective x y h)
if_some false x y h = absurd cc

pub created_prefix :
    (input p : ProjectCreate) (namespace : Option Text)
    → created_with input namespace ≡ some p
    → is_prefix p.identifier_prefix ≡ true
created_prefix input p none h = absurd cc
created_prefix input p (some namespace) h =
    let (accepted, same) = if_some _ _ p h in
    subst (λ q. is_prefix q.identifier_prefix ≡ true) same (ground arith)

pub set_prefix-allowed :
    (prefix : Option (Option Text)) (t : Option Text)
    → set_with check_prefix prefix ≡ some t
    → allowed t ≡ true
set_prefix-allowed none t h = subst (λ x. allowed x ≡ true) (some-injective none t h) refl
set_prefix-allowed (some none) t h = absurd cc
set_prefix-allowed (some (some x)) t h = elim (Bool-cases (is_prefix x)) [
  | inl e ↦ subst (λ y. allowed y ≡ true) (some-injective (some x) t (rw (set_with, e) at h)) e
  | inr e ↦ absurd (none_is_not_some (rw (set_with, e) at h))
]
  where
    none_is_not_some : {A : Type 0} {a : A} → none ≡ some a → ⊥
    none_is_not_some e = cc

pub updated_prefix :
    (description name namespace prefix : Option (Option Text)) (u : ProjectUpdate)
    → updated_with description name namespace prefix ≡ some u
    → prefix ≡ some u.identifier_prefix
updated_prefix d none ns prefix u h = absurd cc
updated_prefix d (some n) none prefix u h = absurd cc
updated_prefix d (some n) (some ns) none u h = absurd cc
updated_prefix d (some n) (some ns) (some t) u h =
    ap some (ap (λ x. x.identifier_prefix) (some-injective _ u h))
