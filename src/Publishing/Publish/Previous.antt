-- ===== src/Publishing/Publish/Previous.antt =====
-- The row that `_get_latest_finalized` returns is a finalized row of the project, whatever the keys are.
use taxonomy_builder.Common.{
  filter_same, ℕ, ◌≡◌, refl, sym, ◌∙◌, ap, Bool, true, ◌&&◌, Option, none, some, List, [], ◌∷◌,
  ◌==◌, ==_iff, any, filter, Result, ok, arith,
}
use taxonomy_builder.Models.Activity.{PublishedVersion}
use taxonomy_builder.Publishing.Latest.{
  max_key-IsMax, any_same, any-filter, filter_none, any-and_false, finalized_rows, latest_in,
}
use taxonomy_builder.Publishing.Queries.{
  QueryError, key_of, later_key, max_key, in_project, is_finalized_of, has_key, scalar_one_or_none,
  get_latest_finalized,
}

pub one_found :
    {A : Type 0} (xs : List A) (x : A)
    → ◌≡◌ {A = Result QueryError (Option A)} (scalar_one_or_none xs) (ok (some x))
    → xs ≡ x ∷ []
one_found [] x h = absurd cc
one_found (y ∷ []) x h = cc
one_found (y ∷ z ∷ more) x h = absurd cc

any_weaken :
    {A : Type 0} (f g : A → Bool) (xs : List A)
    → ((x : A) → f x ≡ true → g x ≡ true)
    → any f xs ≡ true
    → any g xs ≡ true
any_weaken f g [] step h = h
any_weaken f g (x ∷ xs) step h = ground (arith, step x, any_weaken f g xs step)

abbrev pub found_by : ℕ → Option (List ℕ) → PublishedVersion → Bool
found_by p k w = in_project p w && has_key k w

pub nil_cons : {A : Type 0} {x : A} {xs : List A} → [] ≡ x ∷ xs → ⊥
nil_cons e = cc

module _ (versions : List PublishedVersion) (p : ℕ) where
  -- without a release, nothing is found
  pub none_is_found : filter (found_by p none) versions ≡ []
  none_is_found = filter_none _ versions (any-and_false (in_project p) versions)

  -- with releases, one of them is found
  pub release_is_found :
      (x : PublishedVersion) (rows : List PublishedVersion)
      → finalized_rows versions p ≡ x ∷ rows
      → any (λ w. w.finalized) (filter (found_by p (max_key (x ∷ rows))) versions) ≡ true
  release_is_found x rows e =
      let k = later_key (key_of x) (max_key rows) in
      any-filter (found_by p (some k)) (λ w. w.finalized) versions
      ∙ any_same _ _ versions (λ w. ground arith)
      ∙ sym (any-filter (is_finalized_of p) (has_key (some k)) versions)
      ∙ ap (any (has_key (some k))) e
      ∙ (max_key-IsMax x rows).hit

module _ (versions : List PublishedVersion) (p : ℕ) (v : PublishedVersion) where
  finalized_found :
      (rows : List PublishedVersion)
      → finalized_rows versions p ≡ rows
      → filter (found_by p (max_key rows)) versions ≡ v ∷ []
      → v.finalized ≡ true
  finalized_found [] e h = absurd (nil_cons (sym (none_is_found versions p) ∙ h))
  finalized_found (x ∷ rows) e h = ground (arith, (rw h at (release_is_found versions p x rows e)))

  pub latest_row-finalized :
      get_latest_finalized versions p ≡ ok (some v)
      → any (λ w. w.id == v.id && is_finalized_of p w) versions ≡ true
  unfolding get_latest_finalized
  latest_row-finalized h =
      let rows = finalized_rows versions p in
      let only : filter (found_by p (max_key rows)) versions ≡ v ∷ [] =
        sym (filter_same _ _ versions (latest_in versions p)) ∙ one_found _ v h in
      any_weaken _ _ versions (λ w k. ground arith)
        (sym (any-filter (found_by p (max_key rows)) (λ w. w.id == v.id && w.finalized) versions)
          ∙ rw only (rw (finalized_found rows refl only) (rw ((==_iff v.id v.id).1 refl) refl)))
