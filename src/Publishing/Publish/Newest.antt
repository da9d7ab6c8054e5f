-- ===== src/Publishing/Publish/Newest.antt =====
-- What `_get_latest_finalized` finds after a release is stored.
use taxonomy_builder.Publishing.Publish.Maximum.{
  filter-append, hit_not_after, max_key_of, before_differs, IsMax-append, IsMax-last, any_split,
  head_holds,
}
use taxonomy_builder.Common.{
  filter_same, ℕ, ◌≡◌, refl, sym, ◌∙◌, ap, subst, inl, inr, Bool, true, false, not, ◌&&◌, Option,
  none, some, List, [], ◌∷◌, ◌++◌, text_eq_iff, text_eq_refl, ◌==◌, if◌then◌else◌, any, filter,
  Result, ok, raise, Bool-cases, arith,
}
use taxonomy_builder.Models.Activity.{PublishedVersion}
use taxonomy_builder.Publishing.Latest.{
  IsMax, max_key-IsMax, key_asym, any_same, any-filter, filter_none, finalized_rows, latest_in,
}
use taxonomy_builder.Publishing.Publish.Previous.{
  one_found, found_by, nil_cons, none_is_found, release_is_found,
}
use taxonomy_builder.Publishing.Queries.{
  QueryError, multiple_results_found, key_of, later_key, max_key, is_finalized_of, has_key,
  scalar_one_or_none, get_latest_finalized,
}
use taxonomy_builder.Versions.{key_ltb}
use taxonomy_builder.Versions.Order.{key_ltb_irrefl, key_ltb_total}

none_found :
    {A : Type 0} (xs : List A)
    → ◌≡◌ {A = Result QueryError (Option A)} (scalar_one_or_none xs) (ok none)
    → xs ≡ []
none_found [] h = refl
none_found (y ∷ []) h = absurd cc
none_found (y ∷ z ∷ more) h = absurd cc

-- what is the latest release after a row is stored, by the one that was
abbrev pub next_latest :
    Option PublishedVersion → PublishedVersion → Result QueryError (Option PublishedVersion)
next_latest none row = ok (some row)
next_latest (some v) row =
    if key_ltb (key_of v) (key_of row)
    then ok (some row)
    else if key_ltb (key_of row) (key_of v)
    then ok (some v)
    else raise multiple_results_found

as_filter :
    (versions : List PublishedVersion) (p : ℕ)
    → get_latest_finalized versions p
      ≡ scalar_one_or_none (filter (found_by p (max_key (finalized_rows versions p))) versions)
unfolding get_latest_finalized
as_filter versions p = ap scalar_one_or_none (filter_same _ _ versions (latest_in versions p))

-- a row of the project that is not finalized and has the key
abbrev pub is_unreleased : ℕ → List ℕ → PublishedVersion → Bool
is_unreleased p k w = found_by p (some k) w && not w.finalized

module _ (versions : List PublishedVersion) (p : ℕ) (row : PublishedVersion)
    (final : is_finalized_of p row ≡ true) where
  settle :
      (k : List ℕ) (old : List PublishedVersion)
      → IsMax k (finalized_rows versions p ++ row ∷ [])
      → filter (found_by p (some k)) versions ≡ old
      → get_latest_finalized (versions ++ row ∷ []) p
        ≡ scalar_one_or_none (old ++ (if has_key (some k) row then row ∷ [] else []))
  settle k old greatest e =
      let here : (row.project_id == p) ≡ true = ground arith in
      as_filter (versions ++ row ∷ []) p
      ∙ rw (filter-append (is_finalized_of p) versions (row ∷ []), final, max_key_of k _ greatest)
          (ap scalar_one_or_none
            (filter-append (found_by p (some k)) versions (row ∷ []) ∙ rw (e, here) refl))

  -- no row has the key of the new one
  no_clash :
      any (is_unreleased p (key_of row)) versions ≡ false
      → any (has_key (some (key_of row))) (finalized_rows versions p) ≡ false
      → filter (found_by p (some (key_of row))) versions ≡ []
  no_clash alone older = filter_none _ versions (
      any_split (found_by p (some (key_of row))) (λ w. w.finalized) versions
        (any_same _ _ versions (λ w. ground arith)
          ∙ sym (any-filter (is_finalized_of p) (has_key (some (key_of row))) versions)
          ∙ older)
        alone)

  -- where the row's key is the greatest, and no other row has it
  row_is_latest :
      any (is_unreleased p (key_of row)) versions ≡ false
      → any (has_key (some (key_of row))) (finalized_rows versions p) ≡ false
      → IsMax (key_of row) (finalized_rows versions p ++ row ∷ [])
      → get_latest_finalized (versions ++ row ∷ []) p ≡ ok (some row)
  row_is_latest alone older greatest =
      settle (key_of row) [] greatest (no_clash alone older) ∙ rw (text_eq_refl (key_of row)) refl

  key_not_in :
      (k : List ℕ) (rows : List PublishedVersion)
      → IsMax k rows
      → key_ltb k (key_of row) ≡ true
      → any (has_key (some (key_of row))) rows ≡ false
  key_not_in k rows greatest e = elim (Bool-cases (any (has_key (some (key_of row))) rows)) [
    | inl h ↦ absurd (ground (arith, hit_not_after k (key_of row) rows greatest.after h))
    | inr h ↦ h
  ]

  -- the row that was found has the greatest key
  module _ (k : List ℕ) (v : PublishedVersion) (greatest : IsMax k (finalized_rows versions p))
      (only : filter (found_by p (some k)) versions ≡ v ∷ [])
      (alone : any (is_unreleased p (key_of row)) versions ≡ false) where
    after_some :
        k ≡ key_of v → get_latest_finalized (versions ++ row ∷ []) p ≡ next_latest (some v) row
    after_some same = elim (Bool-cases (key_ltb k (key_of row))) [
      | inl e ↦ rw (sym same) (
          rw e (
            row_is_latest alone (key_not_in k _ greatest e)
              (IsMax-last k _ row (key_asym k (key_of row) e) greatest)))
      | inr e ↦
          settle k (v ∷ []) (IsMax-append k _ row greatest e) only
          ∙ rw (sym same) (
              rw e (elim (Bool-cases (key_ltb (key_of row) k)) [
                | inl f ↦ rw (f, before_differs (key_of row) k f) refl
                | inr f ↦
                    rw (f, (text_eq_iff (key_of row) k).1 (key_ltb_total (key_of row) k f e)) refl
              ]))
    ]

  found_key :
      (k : List ℕ) (v : PublishedVersion)
      → filter (found_by p (some k)) versions ≡ v ∷ []
      → k ≡ key_of v
  found_key k v only =
      let held : found_by p (some k) v ≡ true = head_holds (found_by p (some k)) versions v only in
      sym ((text_eq_iff (key_of v) k).0 (ground arith))

  -- by the releases that are there, and by what was found
  pub latest-append :
      (rows : List PublishedVersion) (o : Option PublishedVersion)
      → finalized_rows versions p ≡ rows
      → get_latest_finalized versions p ≡ ok o
      → any (is_unreleased p (key_of row)) versions ≡ false
      → get_latest_finalized (versions ++ row ∷ []) p ≡ next_latest o row
  latest-append [] none e h alone = row_is_latest alone (rw e refl) (
      subst (λ r. IsMax (key_of row) (r ++ row ∷ [])) (sym e)
        (record {
          after = rw (key_ltb_irrefl (key_of row)) refl;
          hit = rw (text_eq_refl (key_of row)) refl;
        }))
  latest-append [] (some v) e h alone = absurd (
      nil_cons (
        sym (none_is_found versions p)
        ∙ ap (λ r. filter (found_by p (max_key r)) versions) (sym e)
        ∙ one_found _ v (sym (as_filter versions p) ∙ h)))
  latest-append (x ∷ rows) none e h alone =
      let nothing : filter (found_by p (max_key (x ∷ rows))) versions ≡ [] =
        ap (λ r. filter (found_by p (max_key r)) versions) (sym e)
        ∙ none_found _ (sym (as_filter versions p) ∙ h) in
      absurd (ground (arith, (rw nothing at (release_is_found versions p x rows e))))
  latest-append (x ∷ rows) (some v) e h alone =
      let k = later_key (key_of x) (max_key rows) in
      let only : filter (found_by p (some k)) versions ≡ v ∷ [] =
        ap (λ r. filter (found_by p (max_key r)) versions) (sym e)
        ∙ one_found _ v (sym (as_filter versions p) ∙ h) in
      after_some k v (subst (IsMax k) (sym e) (max_key-IsMax x rows)) only alone
        (found_key k v only)
