-- ===== src/Publishing/Numbers.antt =====
-- The next pre-release number is free.
use taxonomy_builder.Common.{
  subst, ℕ, zero, ◌<◌, ◌≤◌, ◌≡◌, refl, sym, ◌∙◌, ap, inl, inr, Bool, true, false, ◌&&◌, Option,
  none, some, List, [], ◌∷◌, ◌++◌, Text, text_eq, text_eq_iff, ◌==◌, filter, any, Bool-cases, arith,
}
use taxonomy_builder.Common.Decimal.{is_digit, decimal, int_of, int_of-decimal}
use taxonomy_builder.Models.Activity.{PublishedVersion}
use taxonomy_builder.Versions.{split_pre}
use taxonomy_builder.Versions.Keys.{free_of, split_pre-append, split_pre_free, decimal_free}
use taxonomy_builder.Publishing.{
  pre, starts_with, is_pre_release_of, last_piece, max_with, highest, number_after,
  next_pre_release_number, pre_release_name,
}

-- the number that a pre-release name ends in
number_of_name :
    (base : Text) (n : ℕ)
    → free_of 45 base ≡ true
    → int_of (last_piece (split_pre zero (pre_release_name base n))) ≡ some n
unfolding is_digit
number_of_name base n h =
    ap (λ pieces. int_of (last_piece pieces))
      (split_pre-append base (decimal n) h
        ∙ ap (λ pieces. base ∷ pieces) (split_pre_free (decimal n) (decimal_free 45 n refl)))
    ∙ int_of-decimal n

starts_with_name : (s t : Text) → starts_with s (s ++ t) ≡ true
starts_with_name [] t = refl
starts_with_name (c ∷ s) t = ground (arith, starts_with_name s t)

max_with-above : (m : ℕ) (o : Option ℕ) → m ≤ max_with m o
max_with-above m none = omega arith
max_with-above m (some n) = ground arith

-- the number that the loop reads from a row
abbrev number_of : PublishedVersion → Option ℕ
number_of v = int_of (last_piece (split_pre zero v.version))

highest-above : (rows : List PublishedVersion) (m : ℕ) → m ≤ highest m rows
unfolding highest
highest-above [] m = omega arith
highest-above (v ∷ rows) m =
    omega (arith, max_with-above m (number_of v), highest-above rows (max_with m (number_of v)))

number_after-above : (rows : List PublishedVersion) → highest 0 rows < number_after rows
unfolding highest
number_after-above [] = omega arith
number_after-above (v ∷ rows) = omega arith

abbrev pub has_name : ℕ → Text → PublishedVersion → Bool
has_name project_id name v = v.project_id == project_id && text_eq v.version name

module _ (base : Text) (n p : ℕ) (h : free_of 45 base ≡ true) where
  named_row :
      (v : PublishedVersion)
      → has_name p (pre_release_name base n) v ≡ true
      → (is_pre_release_of p base v ≡ true) × (number_of v ≡ some n)
  named_row v e =
      let parts : ((v.project_id == p) ≡ true)
          × (text_eq v.version (pre_release_name base n) ≡ true) =
        ground arith in
      let name : v.version ≡ pre_release_name base n =
        (text_eq_iff v.version (pre_release_name base n)).0 parts.1 in
      (
        rw (parts.0, name) (starts_with_name (base ++ pre) (decimal n)),
        ap (λ t. int_of (last_piece (split_pre zero t))) name ∙ number_of_name base n h,
      )

  max_with-number : (m : ℕ) → n ≤ max_with m (some n)
  max_with-number m = ground arith

  highest-above_name :
      (rows : List PublishedVersion) (m : ℕ)
      → any (has_name p (pre_release_name base n)) rows ≡ true
      → n ≤ highest m (filter (is_pre_release_of p base) rows)
  unfolding highest
  highest-above_name [] m e = ground arith
  highest-above_name (v ∷ rows) m e = elim (Bool-cases (has_name p (pre_release_name base n) v)) [
    | inl named ↦
        let (kept, number) = named_row v named in
        rw kept (
          subst (λ o. n ≤ highest (max_with m o) (filter (is_pre_release_of p base) rows))
            (sym number)
            (omega (
              arith,
              max_with-number m,
              highest-above (filter (is_pre_release_of p base) rows) (max_with m (some n)),
            )))
    | inr other ↦ elim (Bool-cases (is_pre_release_of p base v)) [
      | inl kept ↦ rw kept (highest-above_name rows (max_with m (number_of v)) (rw other at e))
      | inr dropped ↦ rw dropped (highest-above_name rows m (rw other at e))
    ]
  ]

above : {m n : ℕ} → m ≤ n → n < m → ⊥
above h k = omega arith

-- The next pre-release number of a base version, which has no dash, is one that no version of the
-- project has: the suggested name is free.
pub next_pre_release_number_free :
    (versions : List PublishedVersion) (project_id : ℕ) (base : Text)
    → free_of 45 base ≡ true
    → any
        (has_name project_id
          (pre_release_name base (next_pre_release_number versions project_id base)))
        versions
      ≡ false
unfolding next_pre_release_number
next_pre_release_number_free versions p base h =
    elim (Bool-cases (
      any (has_name p (pre_release_name base (next_pre_release_number versions p base)))
        versions)) [
          | inl taken ↦
              let name = next_pre_release_number versions p base in
              absurd (
                above (highest-above_name base name p h versions 0 taken)
                  (number_after-above (filter (is_pre_release_of p base) versions)))
          | inr free ↦ free
        ]
