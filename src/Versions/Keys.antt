-- ===== src/Versions/Keys.antt =====
-- The sort keys of the version strings that are written from numbers, and how they compare.
use mathlib.Core.List.{append-nil}
use taxonomy_builder.Common.{
  ℕ, zero, ◌^◌, ◌-◌, ◌<◌, ◌≡◌, refl, sym, ◌∙◌, ap, Bool, true, false, not, ◌&&◌, some, List, [],
  ◌∷◌, ◌++◌, Text, ltb, ◌==◌, map, all, arith,
}
use taxonomy_builder.Common.Decimal.{
  is_digit, decimal, int_of, int_of-decimal, all-is_digit-decimal,
}
use taxonomy_builder.Versions.{
  starts_pre, split_pre, split_on, string_to_array, to_int4, cast, casts, version_sort_key,
}

-- no character of the text is `c`
abbrev pub free_of : ℕ → Text → Bool
free_of c t = all (λ d. not (d == c)) t

abbrev pub pre : Text
pre = 45 ∷ 112 ∷ 114 ∷ 101 ∷ []

-- `".".join(map(str, ns))`
abbrev pub dotted_from : ℕ → List ℕ → Text
dotted_from n [] = decimal n
dotted_from n (m ∷ ns) = decimal n ++ 46 ∷ dotted_from m ns

free_of-append : (c : ℕ) (s t : Text) → free_of c (s ++ t) ≡ (free_of c s && free_of c t)
free_of-append c [] t = refl
free_of-append c (d ∷ s) t = ground (arith, free_of-append c s t)

pub free_of-digits :
    (c : ℕ) (t : Text) → is_digit c ≡ false → all is_digit t ≡ true → free_of c t ≡ true
unfolding is_digit
free_of-digits c [] h a = refl
free_of-digits c (d ∷ t) h a = ground (arith, free_of-digits c t)

split_on_free : (sep : ℕ) (t : Text) → free_of sep t ≡ true → split_on sep t ≡ t ∷ []
unfolding split_on
split_on_free sep [] h = refl
split_on_free sep (c ∷ t) h = ground (arith, split_on_free sep t)

split_on-append :
    (sep : ℕ) (t rest : Text)
    → free_of sep t ≡ true
    → split_on sep (t ++ sep ∷ rest) ≡ t ∷ split_on sep rest
unfolding split_on
split_on-append sep [] rest h = ground arith
split_on-append sep (c ∷ t) rest h = ground (arith, split_on-append sep t rest)

pub starts_pre_free : (c : ℕ) (t : Text) → (c == 45) ≡ false → starts_pre (c ∷ t) ≡ false
starts_pre_free c [] h = refl
starts_pre_free c (d ∷ []) h = refl
starts_pre_free c (d ∷ e ∷ []) h = refl
starts_pre_free c (d ∷ e ∷ f ∷ t) h = ground arith

pub free_of-cons :
    (c d : ℕ) (t : Text) → free_of c (d ∷ t) ≡ true → ((d == c) ≡ false) × (free_of c t ≡ true)
free_of-cons c d t h = ground arith

pub split_pre_free : (t : Text) → free_of 45 t ≡ true → split_pre zero t ≡ t ∷ []
unfolding split_pre
split_pre_free [] h = refl
split_pre_free (c ∷ t) h =
    let (first, rest) = free_of-cons 45 c t h in
    rw (starts_pre_free c t first, split_pre_free t rest) refl

pub split_pre-append :
    (t rest : Text)
    → free_of 45 t ≡ true
    → split_pre zero (t ++ pre ++ rest) ≡ t ∷ split_pre zero rest
unfolding split_pre
split_pre-append [] rest h = refl
split_pre-append (c ∷ t) rest h =
    let (first, free) = free_of-cons 45 c t h in
    rw (starts_pre_free c (t ++ pre ++ rest) first, split_pre-append t rest free) refl

cast-decimal : (n : ℕ) → n < 2 ^ 31 → cast (decimal n) ≡ some n
unfolding cast
cast-decimal n h = ap to_int4 (int_of-decimal n) ∙ ground arith

-- every number fits in 32 bits with its sign
abbrev pub all_fit : List ℕ → Bool
all_fit ns = all (λ n. ltb n (2 ^ 31)) ns

casts-decimal : (ns : List ℕ) → all_fit ns ≡ true → casts (map decimal ns) ≡ some ns
unfolding casts
casts-decimal [] h = refl
casts-decimal (n ∷ ns) h = rw (cast-decimal n (ground arith), casts-decimal ns (ground arith)) refl

pub decimal_free : (c n : ℕ) → is_digit c ≡ false → free_of c (decimal n) ≡ true
decimal_free c n h = free_of-digits c (decimal n) h (all-is_digit-decimal n)

dotted_free : (n : ℕ) (ns : List ℕ) → free_of 45 (dotted_from n ns) ≡ true
unfolding is_digit
dotted_free n [] = decimal_free 45 n refl
dotted_free n (m ∷ ns) =
    free_of-append 45 (decimal n) (46 ∷ dotted_from m ns)
    ∙ ground (arith, decimal_free 45 n refl, dotted_free m ns)

pub split_on-dotted : (n : ℕ) (ns : List ℕ) → split_on 46 (dotted_from n ns) ≡ map decimal (n ∷ ns)
unfolding is_digit
split_on-dotted n [] = split_on_free 46 (decimal n) (decimal_free 46 n refl)
split_on-dotted n (m ∷ ns) =
    split_on-append 46 (decimal n) (dotted_from m ns) (decimal_free 46 n refl)
    ∙ ap (λ ts. decimal n ∷ ts) (split_on-dotted m ns)

-- a written number is not empty
string_to_array_digits :
    (t rest : Text) (n : ℕ)
    → int_of t ≡ some n
    → string_to_array (t ++ rest) ≡ split_on 46 (t ++ rest)
unfolding int_of
string_to_array_digits [] rest n h = cc
string_to_array_digits (c ∷ t) rest n h = refl

string_to_array-decimal :
    (n : ℕ) (rest : Text) → string_to_array (decimal n ++ rest) ≡ split_on 46 (decimal n ++ rest)
string_to_array-decimal n rest = string_to_array_digits (decimal n) rest n (int_of-decimal n)

string_to_array-dotted :
    (n : ℕ) (ns : List ℕ) → string_to_array (dotted_from n ns) ≡ map decimal (n ∷ ns)
string_to_array-dotted n [] =
    ap string_to_array (sym (append-nil (decimal n)))
    ∙ string_to_array-decimal n []
    ∙ ap (split_on 46) (append-nil (decimal n))
    ∙ split_on-dotted n []
string_to_array-dotted n (m ∷ ns) =
    string_to_array-decimal n (46 ∷ dotted_from m ns) ∙ split_on-dotted n (m ∷ ns)

casts_dotted :
    (n : ℕ) (ns : List ℕ)
    → all_fit (n ∷ ns) ≡ true
    → casts (string_to_array (dotted_from n ns)) ≡ some (n ∷ ns)
casts_dotted n ns h = ap casts (string_to_array-dotted n ns) ∙ casts-decimal (n ∷ ns) h

pub key_of_release :
    (n : ℕ) (ns : List ℕ)
    → all_fit (n ∷ ns) ≡ true
    → version_sort_key (dotted_from n ns) ≡ some (n ∷ ns ++ (2 ^ 31 - 1) ∷ [])
unfolding version_sort_key
key_of_release n ns h =
    rw (split_pre_free (dotted_from n ns) (dotted_free n ns), casts_dotted n ns h) refl

pub key_of_pre_release :
    (n : ℕ) (ns : List ℕ) (k : ℕ)
    → all_fit (n ∷ ns) ≡ true
    → k < 2 ^ 31
    → version_sort_key (dotted_from n ns ++ pre ++ decimal k) ≡ some (n ∷ ns ++ k ∷ [])
unfolding version_sort_key is_digit
key_of_pre_release n ns k h small =
    rw
      (
        split_pre-append (dotted_from n ns) (decimal k) (dotted_free n ns),
        split_pre_free (decimal k) (decimal_free 45 k refl),
        casts_dotted n ns h,
        cast-decimal k small,
      )
      refl
