-- ===== src/Snapshots/Diff/Fields.antt =====
-- The field values that `model_dump` gives, and their comparison.
use taxonomy_builder.Common.{
  ℕ, ◌≡◌, ◌↔◌, refl, ap, Bool, true, false, not, ◌&&◌, Option, none, some, List, [], ◌∷◌, Text,
  text_eq, text_eq_iff, text_eq_refl, ◌==◌, ==_iff, if◌then◌else◌, arith,
}
use taxonomy_builder.Models.Snapshot.{SnapshotRestriction}

pub data Value : Type 0 where
  null : Value
  string : Text → Value
  strings : List Text → Value
  uuid : ℕ → Value
  uuids : List ℕ → Value
  flag : Bool → Value
  restrictions : List SnapshotRestriction → Value

abbrev pub optional : Option Text → Value
optional none = null
optional (some t) = string t

abbrev pub optional_id : Option ℕ → Value
optional_id none = null
optional_id (some id) = uuid id

abbrev texts_eq : List Text → List Text → Bool
texts_eq [] [] = true
texts_eq [] (t ∷ ts) = false
texts_eq (s ∷ ss) [] = false
texts_eq (s ∷ ss) (t ∷ ts) = text_eq s t && texts_eq ss ts

abbrev ids_eq : List ℕ → List ℕ → Bool
ids_eq [] [] = true
ids_eq [] (t ∷ ts) = false
ids_eq (s ∷ ss) [] = false
ids_eq (s ∷ ss) (t ∷ ts) = s == t && ids_eq ss ts

abbrev restriction_eq : SnapshotRestriction → SnapshotRestriction → Bool
restriction_eq r s =
    text_eq r.on_property_uri s.on_property_uri
    && text_eq r.restriction_type s.restriction_type
    && text_eq r.value_uri s.value_uri

abbrev restrictions_eq : List SnapshotRestriction → List SnapshotRestriction → Bool
restrictions_eq [] [] = true
restrictions_eq [] (t ∷ ts) = false
restrictions_eq (s ∷ ss) [] = false
restrictions_eq (s ∷ ss) (t ∷ ts) = restriction_eq s t && restrictions_eq ss ts

abbrev flags_eq : Bool → Bool → Bool
flags_eq true b = b
flags_eq false b = not b

-- `==` of two values
abbrev pub value_eq : Value → Value → Bool
value_eq null null = true
value_eq (string s) (string t) = text_eq s t
value_eq (strings s) (strings t) = texts_eq s t
value_eq (uuid s) (uuid t) = s == t
value_eq (uuids s) (uuids t) = ids_eq s t
value_eq (flag s) (flag t) = flags_eq s t
value_eq (restrictions s) (restrictions t) = restrictions_eq s t
value_eq _ _ = false

-- the fields whose values differ
abbrev pub differing : List (Text × Value) → List (Text × Value) → List (Text × Value × Value)
differing ((f, v) ∷ prev) ((g, w) ∷ curr) =
    let rest = differing prev curr in if value_eq v w then rest else (f, v, w) ∷ rest
differing _ _ = []

texts_eq_iff : (s t : List Text) → (texts_eq s t ≡ true) ↔ (s ≡ t)
texts_eq_iff [] [] = (λ _. refl, λ _. refl)
texts_eq_iff [] (t ∷ ts) = (λ h. cc, λ h. cc)
texts_eq_iff (s ∷ ss) [] = (λ h. cc, λ h. cc)
texts_eq_iff (s ∷ ss) (t ∷ ts) = ground (arith, text_eq_iff s t, texts_eq_iff ss ts)

ids_eq_iff : (s t : List ℕ) → (ids_eq s t ≡ true) ↔ (s ≡ t)
ids_eq_iff [] [] = (λ _. refl, λ _. refl)
ids_eq_iff [] (t ∷ ts) = (λ h. cc, λ h. cc)
ids_eq_iff (s ∷ ss) [] = (λ h. cc, λ h. cc)
ids_eq_iff (s ∷ ss) (t ∷ ts) = ground (arith, ids_eq_iff ss ts)

restriction_eq_iff : (r s : SnapshotRestriction) → (restriction_eq r s ≡ true) ↔ (r ≡ s)
restriction_eq_iff r s = ground (
  arith,
  text_eq_iff r.on_property_uri s.on_property_uri,
  text_eq_iff r.restriction_type s.restriction_type,
  text_eq_iff r.value_uri s.value_uri,
)

restrictions_eq_iff : (s t : List SnapshotRestriction) → (restrictions_eq s t ≡ true) ↔ (s ≡ t)
restrictions_eq_iff [] [] = (λ _. refl, λ _. refl)
restrictions_eq_iff [] (t ∷ ts) = (λ h. cc, λ h. cc)
restrictions_eq_iff (s ∷ ss) [] = (λ h. cc, λ h. cc)
restrictions_eq_iff (s ∷ ss) (t ∷ ts) = (
  λ h.
      ap2 ((restriction_eq_iff s t).0 (ground arith))
        ((restrictions_eq_iff ss ts).0 (ground arith)),
  λ h. both ((restriction_eq_iff s t).1 (cc)) ((restrictions_eq_iff ss ts).1 (cc)),
)
  where
    ap2 : s ≡ t → ss ≡ ts → s ∷ ss ≡ t ∷ ts
    ap2 p q = λ i. p i ∷ q i

    both :
        restriction_eq s t ≡ true
        → restrictions_eq ss ts ≡ true
        → restrictions_eq (s ∷ ss) (t ∷ ts) ≡ true
    both p q = rw (p, q) refl

pub value_eq_sound : (v w : Value) → value_eq v w ≡ true → v ≡ w
value_eq_sound null null h = refl
value_eq_sound (string s) (string t) h = ap string ((text_eq_iff s t).0 h)
value_eq_sound (strings s) (strings t) h = ap strings ((texts_eq_iff s t).0 h)
value_eq_sound (uuid s) (uuid t) h = ap uuid ((==_iff s t).0 h)
value_eq_sound (uuids s) (uuids t) h = ap uuids ((ids_eq_iff s t).0 h)
value_eq_sound (flag s) (flag t) h = ground arith
value_eq_sound (restrictions s) (restrictions t) h = ap restrictions ((restrictions_eq_iff s t).0 h)
value_eq_sound _ _ h = cc

pub value_eq_refl : (v : Value) → value_eq v v ≡ true
value_eq_refl null = refl
value_eq_refl (string s) = text_eq_refl s
value_eq_refl (strings s) = (texts_eq_iff s s).1 refl
value_eq_refl (uuid s) = (==_iff s s).1 refl
value_eq_refl (uuids s) = (ids_eq_iff s s).1 refl
value_eq_refl (flag s) = ground arith
value_eq_refl (restrictions s) = (restrictions_eq_iff s s).1 refl
