-- ===== src/Imports/Returns.antt =====
-- What holds of the result of an action whenever it returns one, where it raises nothing but what the
-- writing of rows may raise.
use taxonomy_builder.Common.{
  ℕ, ◌≡◌, refl, Bool, true, false, Option, none, some, List, [], ◌∷◌, find, map, Triple,
  Triple-bind, raise_if, pure, ◌>>=◌, ◌>>◌, ◌==◌,
}
use taxonomy_builder.Models.Vocabulary.{Project}
use taxonomy_builder.Models.Session.{Session}
use taxonomy_builder.Imports.{
  ImportError, invalid_rdf, import_blocked, integrity_error, project_error, value_error, diverges,
  Service, for_each, on_found, collect, check_project,
}
use taxonomy_builder.Imports.Execute.{with_project}

-- a constraint of the tables, or the project
abbrev pub is_write_error : ImportError → Bool
is_write_error invalid_rdf = false
is_write_error (import_blocked issues) = false
is_write_error integrity_error = true
is_write_error (project_error e) = true
is_write_error value_error = false
is_write_error diverges = false

abbrev pub Returns : {A : Type 0} → Service A → (A → Type 0) → Type 0
Returns m P = Triple (λ _. Unit {0}) m (λ a _. P a) (λ e _. is_write_error e ≡ true)

-- an action that is run for what it does
abbrev pub Runs : {A : Type 0} → Service A → Type 0
Runs m = Returns m (λ _. Unit {0})

module _ {A : Type 0} where
  -- an action that looks at the session first
  pub Returns-at :
      (m : Session → Service A) (P : A → Type 0)
      → ((s : Session) → Returns (m s) P)
      → Returns (λ s. m s s) P
  Returns-at m P h = record { at = λ s u. (h s).at s u }

  pub Returns-pure : (a : A) (P : A → Type 0) → P a → Returns (pure a) P
  Returns-pure a P h = record { at = λ s u. h }

module _ {A B : Type 0} where
  pub Returns-bind :
      (m : Service A) (f : A → Service B) (P : A → Type 0) (Q : B → Type 0)
      → Returns m P
      → ((a : A) → P a → Returns (f a) Q)
      → Returns (m >>= f) Q
  Returns-bind m f P Q t k =
      Triple-bind m f {mid = λ a _. P a} t λ a. record { at = λ s h. (k a h).at s tt }

  -- what was done before does not matter
  pub Returns-then :
      (m : Service A) (f : A → Service B) (Q : B → Type 0)
      → Runs m
      → ((a : A) → Returns (f a) Q)
      → Returns (m >>= f) Q
  Returns-then m f Q t k = Returns-bind m f (λ _. Unit {0}) Q t λ a u. k a

module _ {A B C : Type 0} (f : A → Service B) (tag : A → C) (key : B → C) where
  -- a loop returns results for its members, in their order
  pub Returns-collect :
      ((x : A) → Returns (f x) (λ y. key y ≡ tag x))
      → (xs : List A) → Returns (collect f xs) (λ ys. map key ys ≡ map tag xs)
  Returns-collect each [] = Returns-pure [] _ refl
  Returns-collect each (x ∷ xs) =
      Returns-bind (f x) _ (λ y. key y ≡ tag x) _ (each x)
        λ y e.
          Returns-bind (collect f xs) _ (λ ys. map key ys ≡ map tag xs) _ (Returns-collect each xs)
            λ ys es. Returns-pure (y ∷ ys) (λ zs. map key zs ≡ map tag (x ∷ xs)) cc

raise_if-Runs : (b : Bool) → Runs (raise_if b integrity_error)
raise_if-Runs true = record { at = λ s u. refl }
raise_if-Runs false = record { at = λ s u. tt }

pub write-Runs : (f : Session → Session) → Runs (λ s. pure tt (f s))
write-Runs f = record { at = λ s u. tt }

-- a row that a constraint may refuse
pub insert-Runs :
    (refuses : Session → Bool) (f : Session → Session)
    → Runs (λ s. (raise_if (refuses s) integrity_error >> (λ s. pure tt (f s))) s)
insert-Runs refuses f = Returns-at _ _ λ s.
    Returns-then (raise_if (refuses s) integrity_error) _ _ (raise_if-Runs (refuses s))
      λ u. write-Runs f

-- and that refers to a project
pub insert_in_project-Runs :
    (project_id : ℕ) (refuses : Session → Bool) (f : Session → Session)
    → Runs (λ s.
      (check_project project_id >> (raise_if (refuses s) integrity_error >> (λ s. pure tt (f s))))
        s)
insert_in_project-Runs project_id refuses f = Returns-at _ _ λ s.
    Returns-then (check_project project_id) _ _ (record { at = λ s u. (raise_if-Runs _).at s u })
      λ u.
        Returns-then (raise_if (refuses s) integrity_error) _ _ (raise_if-Runs (refuses s))
          λ u. write-Runs f

pub for_each-Runs :
    {A : Type 0} (f : A → Service (Unit {0})) (xs : List A)
    → ((x : A) → Runs (f x))
    → Runs (for_each f xs)
for_each-Runs f [] each = write-Runs (λ s. s)
for_each-Runs f (x ∷ xs) each = Returns-then (f x) _ _ (each x) λ u. for_each-Runs f xs each

pub on_found-Runs :
    {A : Type 0} (f : A → Service (Unit {0})) (o : Option A)
    → ((a : A) → Runs (f a))
    → Runs (on_found f o)
on_found-Runs f none each = write-Runs (λ s. s)
on_found-Runs f (some a) each = each a

pub with_project-Runs :
    (project_id : ℕ) (f : Project → Service (Unit {0}))
    → ((p : Project) → Runs (f p))
    → Runs (with_project project_id f)
with_project-Runs project_id f each = record {
  at = λ s u. (on_found-Runs f (find (λ p. p.id == project_id) s.projects) each).at s u;
}
