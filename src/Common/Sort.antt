-- ===== src/Common/Sort.antt =====
-- `order_by`: the rows in order, with equal rows in the order of the table.
use taxonomy_builder.Common.{
  ◌≡◌, refl, ◌∙◌, ap, Bool, ◌||◌, List, [], ◌∷◌, any, if◌then◌else◌, arith,
}

module _ {A : Type 0} (before : A → A → Bool) where
  -- before the first row that it does not come after
  abbrev pub insert : A → List A → List A
  insert x [] = x ∷ []
  insert x (y ∷ rows) = if before y x then y ∷ insert x rows else x ∷ y ∷ rows

  abbrev pub order_by : List A → List A
  order_by [] = []
  order_by (x ∷ rows) = insert x (order_by rows)

  any-insert : (f : A → Bool) (x : A) (rows : List A) → any f (insert x rows) ≡ (f x || any f rows)
  any-insert f x [] = refl
  any-insert f x (y ∷ rows) = ground (arith, any-insert f x rows)

  pub any-order_by : (f : A → Bool) (rows : List A) → any f (order_by rows) ≡ any f rows
  any-order_by f [] = refl
  any-order_by f (x ∷ rows) =
      any-insert f x (order_by rows) ∙ ap (λ b. f x || b) (any-order_by f rows)
