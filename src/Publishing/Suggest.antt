-- ===== src/Publishing/Suggest.antt =====
-- A suggested version comes after the latest one.
use taxonomy_builder.Common.{
  ℕ, ◌+◌, ◌-◌, ◌^◌, ◌<◌, ◌≡◌, ◌∙◌, ap, Bool, true, false, Option, none, some, List, [], ◌∷◌, Text,
  arith,
}
use taxonomy_builder.Common.Decimal.{decimal, int_of, int_of-decimal}
use taxonomy_builder.Models.Activity.{PublishedVersion}
use taxonomy_builder.Models.Snapshot.{DiffResult}
use taxonomy_builder.Versions.{split_on, key_ltb, is_before}
use taxonomy_builder.Versions.Keys.{
  dotted_from, all_fit, key_of_release, key_of_pre_release, split_on-dotted,
}
use taxonomy_builder.Publishing.{
  has_changes, bump, bump_or_first, base_from, suggest_base, suggest_version,
  next_pre_release_number, pre_release_name,
}

module _ (major minor : ℕ) (rest : List ℕ) where
  abbrev latest : Text
  latest = dotted_from major (minor ∷ rest)

  base_of_dotted :
      (major_bump : Bool) → base_from major_bump (split_on 46 latest) ≡ bump major_bump major minor
  base_of_dotted b =
      ap (base_from b) (split_on-dotted major (minor ∷ rest))
      ∙ ap (λ o. bump_or_first b o (int_of (decimal minor))) (int_of-decimal major)
      ∙ ap (bump_or_first b (some major)) (int_of-decimal minor)

  bump-before :
      (b : Bool)
      → all_fit (major ∷ minor ∷ rest) ≡ true
      → major + 1 < 2 ^ 31
      → minor + 1 < 2 ^ 31
      → is_before latest (bump b major minor) ≡ true
  unfolding key_ltb decimal
  bump-before true fit h k =
      rw
        (
          key_of_release major (minor ∷ rest) fit,
          key_of_release (major + 1) (0 ∷ []) (ground arith),
        )
        (ground arith)
  bump-before false fit h k =
      rw
        (
          key_of_release major (minor ∷ rest) fit,
          key_of_release major ((minor + 1) ∷ []) (ground arith),
        )
        (ground arith)

  bumped_pre-before :
      (n : ℕ)
      → all_fit (major ∷ minor ∷ rest) ≡ true
      → major + 1 < 2 ^ 31
      → n < 2 ^ 31 - 1
      → is_before latest (pre_release_name (bump true major minor) n) ≡ true
  unfolding key_ltb decimal
  bumped_pre-before n fit h small =
      rw
        (
          key_of_release major (minor ∷ rest) fit,
          key_of_pre_release (major + 1) (0 ∷ []) n (ground arith) (omega arith),
        )
        (ground arith)

  -- After a release major.minor… whose numbers, and the next ones, fit in 32 bits, the suggested
  -- release comes after it; so does the suggested pre-release, if its number is below 2 ^ 31 - 1.
  pub suggest_version_after :
      (versions : List PublishedVersion) (diff : Option DiffResult) (project_id : ℕ)
      → all_fit (major ∷ minor ∷ rest) ≡ true
      → major + 1 < 2 ^ 31
      → minor + 1 < 2 ^ 31
      → next_pre_release_number versions project_id (suggest_base (some latest) diff true)
        < 2 ^ 31 - 1
      → (is_before latest (suggest_version versions (some latest) diff false none) ≡ true)
        × (is_before latest (suggest_version versions (some latest) diff true (some project_id))
            ≡ true)
  unfolding suggest_version suggest_base
  suggest_version_after versions diff project_id fit h k small = (
    ap (is_before latest) (base_of_dotted (has_changes diff))
        ∙ bump-before (has_changes diff) fit h k,
    ap
          (λ b. is_before latest (
            pre_release_name b
              (next_pre_release_number versions project_id (suggest_base (some latest) diff true))))
          (base_of_dotted true)
        ∙ bumped_pre-before _ fit h small,
  )
