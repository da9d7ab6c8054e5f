-- ===== src/Projects/Identifiers.antt =====
-- An allocated identifier is new in its project.
use taxonomy_builder.Common.{
  ℕ, zero, suc, ◌-◌, ◌≤◌, ◌<◌, ◌≡◌, refl, ◌∙◌, ap, subst, inl, inr, Bool, true, false, ◌&&◌, ◌||◌,
  Option, none, some, List, [], ◌∷◌, ◌++◌, Text, text_eq, text_eq_iff, contains_text, length, ◌==◌,
  ltb, leb, if◌then◌else◌, find, all, Bool-cases, arith,
}
use taxonomy_builder.Common.Decimal.{
  is_digit, int_of, decimal, zeros, int_of-zeros, int_of-decimal, all-is_digit-decimal,
}
use taxonomy_builder.Models.Vocabulary.{Project}
use mathlib.Core.Option.{some-injective}
use taxonomy_builder.Projects.{
  max_counter, padded, identifier_width, identifier_text, after_prefix, drop_newline, number_behind,
  match_number, set_counter, max_found_with, highest_number,
}

after_prefix-append : (prefix t : Text) → after_prefix prefix (prefix ++ t) ≡ some t
after_prefix-append [] t = refl
after_prefix-append (p ∷ prefix) t = ground (arith, after_prefix-append prefix t)

drop_newline_digits : (t : Text) → all is_digit t ≡ true → drop_newline t ≡ t
unfolding is_digit
drop_newline_digits [] h = refl
drop_newline_digits (c ∷ []) h = ground arith
drop_newline_digits (c ∷ d ∷ t) h = ap (λ l. c ∷ l) (drop_newline_digits (d ∷ t) (ground arith))

all_digits_zeros : (k : ℕ) (t : Text) → all is_digit t ≡ true → all is_digit (zeros k ++ t) ≡ true
unfolding is_digit
all_digits_zeros zero t h = h
all_digits_zeros (suc k) t h = all_digits_zeros k t h

pub match_number-identifier_text :
    (prefix : Text) (n : ℕ) → match_number prefix (identifier_text prefix n) ≡ some n
unfolding match_number
match_number-identifier_text prefix n =
    let k = identifier_width - length (decimal n) in
    ap number_behind (after_prefix-append prefix (padded n))
    ∙ ap int_of
        (drop_newline_digits (padded n) (all_digits_zeros k (decimal n) (all-is_digit-decimal n)))
    ∙ int_of-zeros k n (decimal n) (int_of-decimal n)

-- a number is not above the counter, or can never be handed out
abbrev pub is_passed : ℕ → Option ℕ → Bool
is_passed counter none = true
is_passed counter (some value) = leb value counter || ltb max_counter value

-- the counter is at or past every number in use
abbrev pub is_ahead : Text → ℕ → List Text → Bool
is_ahead prefix counter identifiers =
    all (λ t. is_passed counter (match_number prefix t)) identifiers

is_passed_mono : (c c' : ℕ) (o : Option ℕ) → c ≤ c' → is_passed c o ≡ true → is_passed c' o ≡ true
is_passed_mono c c' none h e = refl
is_passed_mono c c' (some value) h e = ground arith

pub is_ahead_mono :
    (prefix : Text) (c c' : ℕ) (identifiers : List Text)
    → c ≤ c'
    → is_ahead prefix c identifiers ≡ true
    → is_ahead prefix c' identifiers ≡ true
is_ahead_mono prefix c c' [] h e = refl
is_ahead_mono prefix c c' (t ∷ identifiers) h e =
    ground (
      arith,
      is_passed_mono c c' (match_number prefix t) h,
      is_ahead_mono prefix c c' identifiers h,
    )

max_found_with-above : (m : ℕ) (o : Option ℕ) → m ≤ max_found_with m o
max_found_with-above m none = omega arith
max_found_with-above m (some value) = ground arith

max_found_with-passed : (m : ℕ) (o : Option ℕ) → is_passed (max_found_with m o) o ≡ true
max_found_with-passed m none = refl
max_found_with-passed m (some value) = ground arith

highest_number-above :
    (prefix : Text) (m : ℕ) (identifiers : List Text) → m ≤ highest_number prefix m identifiers
unfolding highest_number
highest_number-above prefix m [] = omega arith
highest_number-above prefix m (t ∷ identifiers) =
    let m' = max_found_with m (match_number prefix t) in
    omega (
      arith,
      max_found_with-above m (match_number prefix t),
      highest_number-above prefix m' identifiers,
    )

pub highest_number-ahead :
    (prefix : Text) (m : ℕ) (identifiers : List Text)
    → is_ahead prefix (highest_number prefix m identifiers) identifiers ≡ true
unfolding highest_number
highest_number-ahead prefix m [] = refl
highest_number-ahead prefix m (t ∷ identifiers) =
    let o = match_number prefix t in
    let m' = max_found_with m o in
    ground (
      arith,
      is_passed_mono m' (highest_number prefix m' identifiers) o
          (highest_number-above prefix m' identifiers) (max_found_with-passed m o),
      highest_number-ahead prefix m' identifiers,
    )

-- a number past the counter is not in use
pub not_contained :
    (prefix : Text) (counter n : ℕ) (identifiers : List Text)
    → counter < n
    → n ≤ max_counter
    → is_ahead prefix counter identifiers ≡ true
    → contains_text identifiers (identifier_text prefix n) ≡ false
not_contained prefix counter n [] h small e = refl
not_contained prefix counter n (t ∷ identifiers) h small e =
    elim (Bool-cases (text_eq t (identifier_text prefix n))) [
      | inl same ↦
          let number : match_number prefix t ≡ some n =
            ap (match_number prefix) ((text_eq_iff t (identifier_text prefix n)).0 same)
            ∙ match_number-identifier_text prefix n in
          let passed : is_passed counter (some n) ≡ true =
            subst (λ o. is_passed counter o ≡ true) number (ground arith) in
          absurd (ground arith)
      | inr other ↦ ground (arith, not_contained prefix counter n identifiers h small)
    ]

pub find_both :
    (f g : Project → Bool) (rows : List Project) (p : Project)
    → find f rows ≡ some p
    → g p ≡ true
    → find (λ x. f x && g x) rows ≡ some p
find_both f g [] p h k = cc
find_both f g (x ∷ rows) p h k = elim (Bool-cases (f x)) [
  | inl e ↦
      let same : x ≡ p = some-injective x p (rw e at h) in rw (e, ap g same ∙ k) (ap some same)
  | inr e ↦ rw e (find_both f g rows p (rw e at h) k)
]

pub find-set_counter :
    (id bound : ℕ) (f : ℕ → ℕ) (rows : List Project) (p : Project)
    → find (λ x. x.id == id) rows ≡ some p
    → find (λ x. x.id == id) (set_counter id bound f rows)
      ≡ some (
          if ltb p.identifier_counter bound
          then record p { identifier_counter = f p.identifier_counter }
          else p)
find-set_counter id bound f [] p h = cc
find-set_counter id bound f (x ∷ rows) p h = elim (Bool-cases (x.id == id)) [
  | inl e ↦
      let same : x ≡ p = some-injective x p (rw e at h) in
      subst
        (λ q.
          find (λ x. x.id == id) (set_counter id bound f (x ∷ rows))
          ≡ some (
              if ltb q.identifier_counter bound
              then record q { identifier_counter = f q.identifier_counter }
              else q))
        same
        (elim (Bool-cases (ltb x.identifier_counter bound)) [
          | inl low ↦ rw (e, low) (rw e refl)
          | inr high ↦ rw (e, high) (rw e refl)
        ])
  | inr e ↦ rw e (rw e (find-set_counter id bound f rows p (rw e at h)))
]
