-- ===== src/Imports/Growth.antt =====
-- How many rows an action of the import adds to the tables that its response counts.
pub mod Loops
pub mod Rows
pub mod Properties
pub mod Quiet
pub mod All
use taxonomy_builder.Common.{
  ℕ, suc, ◌+◌, ◌≡◌, refl, sym, ◌∙◌, ap, subst, Bool, true, false, Option, none, some, List, [], ◌∷◌,
  ◌++◌, length, length-append, find, ◌==◌, Result, ok, raise, Ensures, raise_if, pure, throw,
  continue, ◌>>=◌, ◌>>◌, arith, if◌then◌else◌,
}
use taxonomy_builder.Models.Vocabulary.{Project}
use taxonomy_builder.Models.Session.{Db, Session}
use taxonomy_builder.Imports.{
  ImportError, integrity_error, Service, for_each, on_found, collect, check_project,
}
use taxonomy_builder.Imports.Execute.{with_project}

-- the tables to count
pub record Choice : Type 0 where
  pub schemes : Bool
  pub concepts : Bool
  pub broader : Bool
  pub classes : Bool
  pub properties : Bool

abbrev pub pick : Bool → ℕ → ℕ
pick b n = if b then n else 0

pub pick-add : (b : Bool) (m n : ℕ) → pick b (m + n) ≡ pick b m + pick b n
pick-add true m n = refl
pick-add false m n = omega arith

pub pick-suc : (b : Bool) (n : ℕ) → pick b (suc n) ≡ pick b 1 + pick b n
pick-suc true n = omega arith
pick-suc false n = refl

pub pick_none : (b : Bool) → pick b 0 ≡ 0
pick_none true = refl
pick_none false = refl

-- a row that is added at the end
pub pick-append :
    {A : Type 0} (b : Bool) (xs : List A) (x : A)
    → pick b (length (xs ++ x ∷ [])) ≡ pick b (length xs) + pick b 1
pick-append b xs x = ap (pick b) (length-append xs (x ∷ [])) ∙ pick-add b (length xs) 1

module _ (w : Choice) where
  abbrev pub size : Db → ℕ
  size db =
      pick w.schemes (length db.schemes)
      + pick w.concepts (length db.concepts)
      + pick w.broader (length db.broader)
      + pick w.classes (length db.classes)
      + pick w.properties (length db.properties)

  -- if the action returns, so many rows more are there
  pub record Grows {A : Type 0} (m : Service A) (P : A → ℕ → Type 0) : Type 0 where
    pub at :
        (s : Session)
        → Ensures
            (λ a s'. (n : ℕ) × (size s'.tables ≡ size s.tables + n) × P a n)
            (λ _ _. Unit {0})
            (m s).0
            (m s).1

  abbrev pub Quiet : {A : Type 0} → Service A → Type 0
  Quiet m = Grows m (λ _ n. n ≡ 0)

  module _ {A : Type 0} where
    pub Grows-at :
        (m : Session → Service A) (P : A → ℕ → Type 0)
        → ((s : Session) → Grows (m s) P)
        → Grows (λ s. m s s) P
    Grows-at m P h = record { at = λ s. (h s).at s }

    pub Grows-pure : (a : A) (P : A → ℕ → Type 0) → P a 0 → Grows (pure a) P
    Grows-pure a P h = record { at = λ s. (0, omega arith, h) }

    pub Grows-throw : (e : ImportError) (P : A → ℕ → Type 0) → Grows (throw e) P
    Grows-throw e P = record { at = λ s. tt }

    pub Grows-weaken :
        (m : Service A) (P Q : A → ℕ → Type 0)
        → ((a : A) (n : ℕ) → P a n → Q a n)
        → Grows m P
        → Grows m Q
    Grows-weaken m P Q weaker t = record { at = λ s. go s (m s).0 (m s).1 (t.at s) }
      where
        go :
            (s : Session) (r : Result ImportError A) (s' : Session)
            → Ensures
                (λ a s'. (n : ℕ) × (size s'.tables ≡ size s.tables + n) × P a n)
                (λ _ _. Unit {0})
                r
                s'
            → Ensures
                (λ a s'. (n : ℕ) × (size s'.tables ≡ size s.tables + n) × Q a n)
                (λ _ _. Unit {0})
                r
                s'
        go s (ok a) s' (n, e, p) = (n, e, weaker a n p)
        go s (raise x) s' h = tt

  module _ {A B : Type 0} where
    pub Grows-bind :
        (m : Service A) (f : A → Service B) (P : A → ℕ → Type 0) (Q : B → ℕ → Type 0)
        → Grows m P
        → ((a : A) (n : ℕ) → P a n → Grows (f a) (λ b k. Q b (n + k)))
        → Grows (m >>= f) Q
    Grows-bind m f P Q t k = record { at = λ s. go s (m s).0 (m s).1 (t.at s) }
      where
        add :
            (s s' : Session) (n : ℕ) (r : Result ImportError B) (s'' : Session)
            → size s'.tables ≡ size s.tables + n
            → Ensures
                (λ b u. (j : ℕ) × (size u.tables ≡ size s'.tables + j) × Q b (n + j))
                (λ _ _. Unit {0})
                r
                s''
            → Ensures
                (λ b u. (j : ℕ) × (size u.tables ≡ size s.tables + j) × Q b j)
                (λ _ _. Unit {0})
                r
                s''
        add s s' n (ok b) s'' e (j, e', q) = (n + j, omega (arith, e, e'), q)
        add s s' n (raise x) s'' e h = tt

        go :
            (s : Session) (r : Result ImportError A) (s' : Session)
            → Ensures
                (λ a s'. (n : ℕ) × (size s'.tables ≡ size s.tables + n) × P a n)
                (λ _ _. Unit {0})
                r
                s'
            → Ensures
                (λ b s''. (j : ℕ) × (size s''.tables ≡ size s.tables + j) × Q b j)
                (λ _ _. Unit {0})
                (continue r f s').0
                (continue r f s').1
        go s (ok a) s' (n, e, p) = add s s' n (f a s').0 (f a s').1 e ((k a n p).at s')
        go s (raise x) s' h = tt

    pub Quiet-then :
        (m : Service A) (f : A → Service B) (Q : B → ℕ → Type 0)
        → Quiet m
        → ((a : A) → Grows (f a) Q)
        → Grows (m >>= f) Q
    Quiet-then m f Q t k = Grows-bind m f _ Q t λ a n e.
        Grows-weaken (f a) Q (λ b j. Q b (n + j)) (λ b j q. subst (Q b) (omega (arith, e)) q) (k a)

  pub write-Grows :
      (f : Session → Session) (c : ℕ)
      → ((s : Session) → size (f s).tables ≡ size s.tables + c)
      → Grows (λ s. pure tt (f s)) (λ _ n. n ≡ c)
  write-Grows f c h = record { at = λ s. (c, h s, refl) }

  pub write-Quiet :
      (f : Session → Session)
      → ((s : Session) → size (f s).tables ≡ size s.tables)
      → Quiet (λ s. pure tt (f s))
  write-Quiet f h = write-Grows f 0 λ s. omega (arith, h s)

  raise_if-Quiet : (b : Bool) → Quiet (raise_if b integrity_error)
  raise_if-Quiet true = record { at = λ s. tt }
  raise_if-Quiet false = record { at = λ s. (0, omega arith, refl) }

  pub insert-Grows :
      (refuses : Session → Bool) (f : Session → Session) (c : ℕ)
      → ((s : Session) → size (f s).tables ≡ size s.tables + c)
      → Grows (λ s. (raise_if (refuses s) integrity_error >> (λ s. pure tt (f s))) s) (λ _ n. n ≡ c)
  insert-Grows refuses f c h = Grows-at _ _ λ s.
      Quiet-then (raise_if (refuses s) integrity_error) _ _ (raise_if-Quiet (refuses s))
        λ u. write-Grows f c h

  pub insert_in_project-Grows :
      (project_id : ℕ) (refuses : Session → Bool) (f : Session → Session) (c : ℕ)
      → ((s : Session) → size (f s).tables ≡ size s.tables + c)
      → Grows
          (λ s.
            (check_project project_id
                >> (raise_if (refuses s) integrity_error >> (λ s. pure tt (f s))))
              s)
          (λ _ n. n ≡ c)
  insert_in_project-Grows project_id refuses f c h = Grows-at _ _ λ s.
      Quiet-then (check_project project_id) _ _ (record { at = λ s. (raise_if-Quiet _).at s })
        λ u.
          Quiet-then (raise_if (refuses s) integrity_error) _ _ (raise_if-Quiet (refuses s))
            λ u. write-Grows f c h
