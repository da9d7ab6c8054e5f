-- ===== src/Common/Strings.antt =====
-- Python strings as lists of code points.
use Prim.Native.Char.{code}
use Prim.Native.Nat.{ℕ}
use Prim.Native.String.{String}
use mathlib.Core.Path.{◌≡◌, refl}
use mathlib.Core.Logic.{◌↔◌, inl, inr}
use mathlib.Core.Bool.{Bool, true, false, ◌&&◌, ◌||◌}
use mathlib.Core.Option.{Option, none, some}
use mathlib.Core.List.{List, [], ◌∷◌, ◌++◌}
use native.Mathlib.Omega.{arith}
use taxonomy_builder.Common.Tests.{◌==◌, ltb, leb, if◌then◌else◌, Bool-cases}

abbrev pub Text : Type 0
Text = List ℕ

-- the text that a literal stands for
abbrev pub text : String → Text
text String.[] = []
text (String.◌∷◌ c s) = code c ∷ text s

abbrev pub text_eq : Text → Text → Bool
text_eq [] [] = true
text_eq [] (d ∷ t) = false
text_eq (c ∷ s) [] = false
text_eq (c ∷ s) (d ∷ t) = c == d && text_eq s t

pub text_eq_iff : (s t : Text) → (text_eq s t ≡ true) ↔ (s ≡ t)
text_eq_iff [] [] = (λ _. refl, λ _. refl)
text_eq_iff [] (d ∷ t) = (λ h. cc, λ h. cc)
text_eq_iff (c ∷ s) [] = (λ h. cc, λ h. cc)
text_eq_iff (c ∷ s) (d ∷ t) = ground (arith, text_eq_iff s t)

pub text_eq_refl : (s : Text) → text_eq s s ≡ true
text_eq_refl s = (text_eq_iff s s).1 refl

-- `a in xs`, for strings
abbrev pub contains_text : List Text → Text → Bool
contains_text [] a = false
contains_text (x ∷ xs) a = text_eq x a || contains_text xs a

pub contains_text-append :
    (xs ys : List Text) (a : Text)
    → contains_text (xs ++ ys) a ≡ (contains_text xs a || contains_text ys a)
contains_text-append [] ys a = refl
contains_text-append (x ∷ xs) ys a = ground (arith, contains_text-append xs ys a)

-- truth of a string, of `str | None`, and equality of `str | None`
abbrev pub is_empty : Text → Bool
is_empty [] = true
is_empty (c ∷ s) = false

abbrev pub optional_eq : Option Text → Option Text → Bool
optional_eq none none = true
optional_eq none (some t) = false
optional_eq (some s) none = false
optional_eq (some s) (some t) = text_eq s t

pub optional_eq_iff : (s t : Option Text) → (optional_eq s t ≡ true) ↔ (s ≡ t)
optional_eq_iff none none = (λ _. refl, λ _. refl)
optional_eq_iff none (some t) = (λ h. cc, λ h. cc)
optional_eq_iff (some s) none = (λ h. cc, λ h. cc)
optional_eq_iff (some s) (some t) = ground (arith, text_eq_iff s t)

-- `str.isspace` of one code point
unfoldable pub is_space : ℕ → Bool
is_space c =
    leb 9 c && leb c 13
    || leb 28 c && leb c 32
    || c == 133
    || c == 160
    || c == 5760
    || leb 8192 c && leb c 8202
    || c == 8232
    || c == 8233
    || c == 8239
    || c == 8287
    || c == 12288

pub lstrip : Text → Text
lstrip [] = []
lstrip (c ∷ s) = let rest = lstrip s in if is_space c then rest else c ∷ s

pub rstrip : Text → Text
rstrip [] = []
rstrip (c ∷ s) = let rest = rstrip s in if is_space c && is_empty rest then [] else c ∷ rest

-- `str.strip()`
unfoldable pub strip : Text → Text
unfolding is_space lstrip rstrip
strip s = rstrip (lstrip s)

rstrip_idem : (s : Text) → rstrip (rstrip s) ≡ rstrip s
unfolding rstrip
rstrip_idem [] = refl
rstrip_idem (c ∷ s) = elim (Bool-cases (is_space c && is_empty (rstrip s))) [
  | inl e ↦ rw e refl
  | inr e ↦ rw e (rw (rstrip_idem s, e) refl)
]

lstrip-rstrip-lstrip : (s : Text) → lstrip (rstrip (lstrip s)) ≡ rstrip (lstrip s)
unfolding lstrip rstrip
lstrip-rstrip-lstrip [] = refl
lstrip-rstrip-lstrip (c ∷ s) = elim (Bool-cases (is_space c)) [
  | inl e ↦ rw e (lstrip-rstrip-lstrip s)
  | inr e ↦ simp e
]

pub strip_idem : (s : Text) → strip (strip s) ≡ strip s
unfolding strip
strip_idem s = rw (lstrip-rstrip-lstrip s) (rstrip_idem (lstrip s))

-- `list(dict.fromkeys(uris))`: the first of equal strings
abbrev pub first_of_each : List Text → List Text → List Text
first_of_each seen [] = []
first_of_each seen (uri ∷ uris) =
    if contains_text seen uri
    then first_of_each seen uris
    else uri ∷ first_of_each (uri ∷ seen) uris

-- `s.rstrip("/")`
abbrev pub rstrip_slash : Text → Text
rstrip_slash [] = []
rstrip_slash (c ∷ t) =
    let rest = rstrip_slash t in if c == 47 && is_empty rest then [] else c ∷ rest

-- how Python orders strings
abbrev pub text_before : Text → Text → Bool
text_before [] [] = false
text_before [] (d ∷ t) = true
text_before (c ∷ s) [] = false
text_before (c ∷ s) (d ∷ t) = ltb c d || c == d && text_before s t
