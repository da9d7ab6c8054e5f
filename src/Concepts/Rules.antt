-- ===== src/Concepts/Rules.antt =====
-- Rules for the actions that the methods of the service share.
use taxonomy_builder.Common.{ℕ, Option, none, some, find, or_raise, Triple, Ensures, ◌==◌}
use taxonomy_builder.Models.Session.{Session}
use taxonomy_builder.Concepts.{Error, get_concept, get_scheme, concept_not_found, scheme_not_found}

-- `if row is None: raise e` neither reads nor writes anything else
Ensures-or_raise :
    {A : Type 0} (P : Session → Type 0) (e : Error) (o : Option A) (s : Session)
    → P s
    → Ensures (λ _. P) (λ _. P) (or_raise e o s).0 (or_raise e o s).1
Ensures-or_raise P e none s h = h
Ensures-or_raise P e (some a) s h = h

module _ (P : Session → Type 0) where
  pub get_concept_keeps : (c : ℕ) → Triple P (get_concept c) (λ _. P) (λ _. P)
  unfolding get_concept
  get_concept_keeps c = record {
    at = λ s. Ensures-or_raise P (concept_not_found c) (find (λ x. x.id == c) s.concepts) s;
  }

  pub get_scheme_keeps : (c : ℕ) → Triple P (get_scheme c) (λ _. P) (λ _. P)
  unfolding get_scheme
  get_scheme_keeps c = record {
    at = λ s. Ensures-or_raise P (scheme_not_found c) (find (λ x. x.id == c) s.schemes) s;
  }
