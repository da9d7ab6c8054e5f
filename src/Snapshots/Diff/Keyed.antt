-- ===== src/Snapshots/Diff/Keyed.antt =====
-- Dicts by id: `{x.id: x for x in xs}`, `a.keys() - b.keys()` and `a.keys() & b.keys()`.
use taxonomy_builder.Common.{
  ℕ, Bool, true, false, not, Option, none, some, List, [], ◌∷◌, filter, find, ◌==◌, if◌then◌else◌,
}

module _ {A : Type 0} (key : A → ℕ) where
  abbrev pub get : ℕ → List A → Option A
  get k rows = find (λ x. key x == k) rows

  abbrev pub put : A → List A → List A
  put x [] = x ∷ []
  put x (y ∷ rows) = if key y == key x then x ∷ rows else y ∷ put x rows

  abbrev pub put_all : List A → List A → List A
  put_all rows [] = rows
  put_all rows (x ∷ xs) = put_all (put x rows) xs

  unfoldable pub by_key : List A → List A
  by_key xs = put_all [] xs

  abbrev pub is_in : List A → ℕ → Bool
  is_in [] k = false
  is_in (x ∷ rows) k = if key x == k then true else is_in rows k

  -- the values of the first dict whose keys the second has not
  abbrev pub minus : List A → List A → List A
  minus xs ys = filter (λ x. not (is_in ys (key x))) xs

  abbrev pub pair_with : A → Option A → List (A × A) → List (A × A)
  pair_with x none rest = rest
  pair_with x (some y) rest = (x, y) ∷ rest

  -- the values of both dicts, for the keys that both have
  abbrev pub common : List A → List A → List (A × A)
  common [] ys = []
  common (x ∷ xs) ys = pair_with x (get (key x) ys) (common xs ys)
