-- ===== src/Imports/Titles.antt =====
-- `_get_unique_title` ends with a title that is free: the numbered titles differ, and a project has no
-- more of them than schemes.
use taxonomy_builder.Common.{
  ℕ, zero, suc, ◌+◌, ◌≤◌, ◌<◌, ◌≡◌, refl, ◌∙◌, inl, inr, Bool, true, false, not, ◌&&◌, some, List,
  [], ◌∷◌, ◌++◌, Text, text, text_eq, text_eq_iff, ◌==◌, any, filter, length, Bool-cases, arith,
}
use mathlib.Core.List.{append_cancel_left, append_cancel_right}
use taxonomy_builder.Common.Decimal.{decimal, decimal_inj}
use taxonomy_builder.Models.Vocabulary.{ConceptScheme}
use taxonomy_builder.Imports.Schemes.{is_taken, numbered, next_title, get_unique_title}

module _ {A : Type 0} where
  length-filter_le : (p : A → Bool) (xs : List A) → length (filter p xs) ≤ length xs
  length-filter_le p [] = omega arith
  length-filter_le p (x ∷ xs) = ground (arith, length-filter_le p xs)

  -- without the rows that pass a test, there are fewer
  fewer_left :
      (p : A → Bool) (xs : List A)
      → any p xs ≡ true
      → length (filter (λ x. not (p x)) xs) < length xs
  fewer_left p [] h = cc
  fewer_left p (x ∷ xs) h = ground (arith, fewer_left p xs, length-filter_le (λ x. not (p x)) xs)

  any_left :
      (p q : A → Bool) (xs : List A)
      → ((x : A) → q x ≡ true → p x ≡ false)
      → any q (filter (λ x. not (p x)) xs) ≡ any q xs
  any_left p q [] apart = refl
  any_left p q (x ∷ xs) apart = ground (arith, apart x, any_left p q xs apart)

numbered_inj : (base : Text) (m n : ℕ) → numbered base m ≡ numbered base n → m ≡ n
numbered_inj base m n h = decimal_inj m n (
    append_cancel_left (base ++ text " (") (decimal m) (decimal n) (
      append_cancel_right (base ++ text " (" ++ decimal m) (base ++ text " (" ++ decimal n)
        (text ")") h))

module _ (project_id : ℕ) (base : Text) where
  abbrev has_number : ℕ → ConceptScheme → Bool
  has_number k x = x.project_id == project_id && text_eq x.title (numbered base k)

  numbers_apart :
      (j k : ℕ) (x : ConceptScheme) → j < k → has_number k x ≡ true → has_number j x ≡ false
  numbers_apart j k x less h = ground (
    arith,
    text_eq_iff x.title (numbered base k),
    text_eq_iff x.title (numbered base j),
    numbered_inj base j k,
  )

  -- where `rows` are as good as the schemes from the counter on
  next_title_total :
      (fuel : ℕ) (schemes rows : List ConceptScheme) (counter : ℕ)
      → length rows < fuel
      → ((k : ℕ) → counter ≤ k → any (has_number k) rows ≡ any (has_number k) schemes)
      → (t : Text) × (next_title fuel schemes project_id base counter ≡ some t)
        × (is_taken schemes project_id t ≡ false)
  unfolding next_title
  next_title_total zero schemes rows counter less same = absurd (omega arith)
  next_title_total (suc fuel) schemes rows counter less same =
      elim (Bool-cases (is_taken schemes project_id (numbered base counter))) [
        | inr free ↦ (numbered base counter, rw free refl, free)
        | inl taken ↦
            let there = same counter (omega arith) ∙ taken in
            let (t, found, free) =
              next_title_total fuel schemes (filter (λ x. not (has_number counter x)) rows)
                (counter + 1) (omega (arith, fewer_left (has_number counter) rows there))
                (λ k less'.
                  any_left (has_number counter) (has_number k) rows
                    (λ x. numbers_apart counter k x (omega arith))
                  ∙ same k (omega arith)) in
            (t, rw taken found, free)
      ]

  -- For any schemes, the loop ends: the title is found, no scheme of the project has it, and where the
  -- title asked for is free, it is that one.
  pub get_unique_title_lem :
      (schemes : List ConceptScheme)
      → (title : Text) × (get_unique_title schemes project_id base ≡ some title)
        × (is_taken schemes project_id title ≡ false)
        × (is_taken schemes project_id base ≡ false → title ≡ base)
  unfolding get_unique_title
  get_unique_title_lem schemes = elim (Bool-cases (is_taken schemes project_id base)) [
    | inr free ↦ (base, rw free refl, free, λ _. refl)
    | inl taken ↦
        let (t, found, free) =
          next_title_total (suc (length schemes)) schemes schemes 2 (omega arith)
            (λ k less. refl) in
        (t, rw taken found, free, λ e. cc)
  ]
