-- ===== src/Common/Dict.antt =====
-- A `dict` with string keys, as the list of its items: an update keeps the place of its key.
use taxonomy_builder.Common.{
  ◌≡◌, refl, false, Option, none, some, List, [], ◌∷◌, Text, text_eq, text_eq_iff, text_eq_refl,
  if◌then◌else◌, arith,
}

module _ {V : Type 0} where
  -- `m.get(k)`
  abbrev pub lookup : Text → List (Text × V) → Option V
  lookup k [] = none
  lookup k ((j, v) ∷ m) = if text_eq j k then some v else lookup k m

  -- `m[k] = v`
  abbrev pub put : Text → V → List (Text × V) → List (Text × V)
  put k v [] = (k, v) ∷ []
  put k v ((j, w) ∷ m) = if text_eq j k then (j, v) ∷ m else (j, w) ∷ put k v m

  abbrev pub keys : List (Text × V) → List Text
  keys [] = []
  keys ((j, v) ∷ m) = j ∷ keys m

  pub lookup-put :
      (k j : Text) (v : V) (m : List (Text × V))
      → lookup j (put k v m) ≡ (if text_eq k j then some v else lookup j m)
  lookup-put k j v [] = refl
  lookup-put k j v ((i, w) ∷ m) =
      ground (arith, text_eq_iff k j, text_eq_iff i k, text_eq_iff i j, lookup-put k j v m)

  pub lookup-put_self : (k : Text) (v : V) (m : List (Text × V)) → lookup k (put k v m) ≡ some v
  lookup-put_self k v m = ground (arith, lookup-put k k v m, text_eq_refl k)

  pub lookup-put_other :
      (k j : Text) (v : V) (m : List (Text × V))
      → text_eq k j ≡ false
      → lookup j (put k v m) ≡ lookup j m
  lookup-put_other k j v m h = ground (arith, lookup-put k j v m)
