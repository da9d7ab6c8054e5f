-- ===== src/Imports/Growth/Loops.antt =====
-- How many rows the loops of the import add.
use taxonomy_builder.Common.{
  ℕ, ◌≡◌, refl, sym, ◌∙◌, Bool, Option, none, some, List, [], ◌∷◌, length, find, ◌==◌, arith,
}
use taxonomy_builder.Models.Vocabulary.{Project}
use taxonomy_builder.Imports.{Service, for_each, on_found, collect}
use taxonomy_builder.Imports.Execute.{with_project}
use taxonomy_builder.Imports.Growth.{
  Choice, pick, pick-suc, pick_none, Grows, Quiet, Grows-pure, Grows-weaken, Grows-bind, Quiet-then,
}

module _ (w : Choice) where
  pub for_each-Grows :
      {A : Type 0} (b : Bool) (f : A → Service (Unit {0})) (xs : List A)
      → ((x : A) → Grows w (f x) (λ _ n. n ≡ pick b 1))
      → Grows w (for_each f xs) (λ _ n. n ≡ pick b (length xs))
  for_each-Grows b f [] each = Grows-pure w tt _ (sym (pick_none b))
  for_each-Grows b f (x ∷ xs) each = Grows-bind w (f x) _ _ _ (each x) λ u n e.
      Grows-weaken w (for_each f xs) _ _
        (λ u j q. omega (arith, e, q) ∙ sym (pick-suc b (length xs))) (for_each-Grows b f xs each)

  pub for_each-Quiet :
      {A : Type 0} (f : A → Service (Unit {0})) (xs : List A)
      → ((x : A) → Quiet w (f x))
      → Quiet w (for_each f xs)
  for_each-Quiet f [] each = Grows-pure w tt _ refl
  for_each-Quiet f (x ∷ xs) each = Quiet-then w (f x) _ _ (each x) λ u. for_each-Quiet f xs each

  pub on_found-Quiet :
      {A : Type 0} (f : A → Service (Unit {0})) (o : Option A)
      → ((a : A) → Quiet w (f a))
      → Quiet w (on_found f o)
  on_found-Quiet f none each = Grows-pure w tt _ refl
  on_found-Quiet f (some a) each = each a

  pub with_project-Quiet :
      (project_id : ℕ) (f : Project → Service (Unit {0}))
      → ((p : Project) → Quiet w (f p))
      → Quiet w (with_project project_id f)
  with_project-Quiet project_id f each = record {
    at = λ s. (on_found-Quiet f (find (λ p. p.id == project_id) s.projects) each).at s;
  }

  -- a row for each member
  pub collect-Grows :
      {A B : Type 0} (b : Bool) (f : A → Service B) (xs : List A)
      → ((x : A) → Grows w (f x) (λ _ n. n ≡ pick b 1))
      → Grows w (collect f xs) (λ ys n. (n ≡ pick b (length ys)) × (length ys ≡ length xs))
  collect-Grows b f [] each = Grows-pure w [] _ (sym (pick_none b), refl)
  collect-Grows b f (x ∷ xs) each = Grows-bind w (f x) _ _ _ (each x) λ y n e.
      Grows-bind w (collect f xs) _ _ _ (collect-Grows b f xs each) λ ys j (q, l).
        Grows-pure w (y ∷ ys) _
          (omega (arith, e, q) ∙ sym (pick-suc b (length ys)), omega (arith, l))

  pub collect-Quiet :
      {A B : Type 0} (f : A → Service B) (xs : List A)
      → ((x : A) → Quiet w (f x))
      → Grows w (collect f xs) (λ ys n. (n ≡ 0) × (length ys ≡ length xs))
  collect-Quiet f [] each = Grows-pure w [] _ (refl, refl)
  collect-Quiet f (x ∷ xs) each = Quiet-then w (f x) _ _ (each x) λ y.
      Grows-bind w (collect f xs) _ _ _ (collect-Quiet f xs each)
        λ ys j (q, l). Grows-pure w (y ∷ ys) _ (omega (arith, q), omega (arith, l))
