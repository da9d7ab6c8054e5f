-- ===== src/Publishing/Latest.antt =====
-- `_get_latest_finalized` finds the finalized version with the greatest key.
use taxonomy_builder.Common.{
  filter_same, ℕ, ◌≡◌, refl, sym, ◌∙◌, ap, subst, inl, inr, ◌⊎◌, Bool, true, false, not, ◌&&◌, ◌||◌,
  Option, none, some, List, [], ◌∷◌, text_eq, text_eq_iff, text_eq_refl, ==_iff, filter, any, ok,
  Bool-cases, arith,
}
use taxonomy_builder.Models.Activity.{PublishedVersion}
use taxonomy_builder.Versions.{key_ltb}
use taxonomy_builder.Versions.Order.{key_ltb_irrefl, key_ltb_trans, key_ltb_total}
use taxonomy_builder.Publishing.Queries.{
  key_of, later_key, max_key, in_project, is_finalized_of, has_key, latest, scalar_one_or_none,
  get_latest_finalized,
}

pub key_asym : (a b : List ℕ) → key_ltb a b ≡ true → key_ltb b a ≡ false
key_asym a b h = elim (Bool-cases (key_ltb b a)) [
  | inl e ↦ absurd (ground (arith, key_ltb_trans a b a h e, key_ltb_irrefl a))
  | inr e ↦ e
]

-- `c ≤ b ≤ a`
key_not_ltb : (a b c : List ℕ) → key_ltb a b ≡ false → key_ltb b c ≡ false → key_ltb a c ≡ false
key_not_ltb a b c h k = elim (Bool-cases (key_ltb a c)) [
  | inl e ↦ elim (Bool-cases (key_ltb c b)) [
    | inl f ↦ absurd (ground (arith, key_ltb_trans a c b e f))
    | inr f ↦ absurd (ground (arith, subst (λ x. key_ltb a x ≡ true) (key_ltb_total c b f k) e))
  ]
  | inr e ↦ e
]

-- no row has a later key
abbrev pub none_after : List ℕ → List PublishedVersion → Bool
none_after k rows = not (any (λ w. key_ltb k (key_of w)) rows)

pub none_after_later :
    (a k : List ℕ) (rows : List PublishedVersion)
    → key_ltb a k ≡ false
    → none_after k rows ≡ true
    → none_after a rows ≡ true
none_after_later a k [] h e = refl
none_after_later a k (w ∷ rows) h e =
    ground (arith, key_not_ltb a k (key_of w) h, none_after_later a k rows h)

and_false : (a b : Bool) → a ≡ true → (a && b) ≡ false → b ≡ false
and_false a b h k = ground arith

pub not-true : (b : Bool) → not b ≡ true → b ≡ false
not-true b h = ground arith

or_right : (a b : Bool) → b ≡ true → (a || b) ≡ true
or_right a b h = ground arith

pub record IsMax (k : List ℕ) (rows : List PublishedVersion) : Type 0 where
  pub after : none_after k rows ≡ true
  pub hit : any (has_key (some k)) rows ≡ true

pub max_key-IsMax :
    (v : PublishedVersion) (rows : List PublishedVersion)
    → IsMax (later_key (key_of v) (max_key rows)) (v ∷ rows)
max_key-IsMax v [] = record {
  after = rw (key_ltb_irrefl (key_of v)) refl;
  hit = rw (text_eq_refl (key_of v)) refl;
}
max_key-IsMax v (w ∷ rows) =
    let m = later_key (key_of w) (max_key rows) in
    let inner = max_key-IsMax w rows in
    elim (Bool-cases (key_ltb (key_of v) m)) [
      | inl e ↦ rw e (record {
        after = rw (key_asym (key_of v) m e) inner.after;
        hit = or_right (has_key (some m) v) (any (has_key (some m)) (w ∷ rows)) inner.hit;
      })
      | inr e ↦ rw e (record {
        after =
            rw (key_ltb_irrefl (key_of v)) (none_after_later (key_of v) m (w ∷ rows) e inner.after);
        hit = rw (text_eq_refl (key_of v)) refl;
      })
    ]

module _ {A : Type 0} where
  cons_nil : {x : A} {xs : List A} → x ∷ xs ≡ [] → ⊥
  cons_nil e = cc

  pub any_same : (f g : A → Bool) (xs : List A) → ((x : A) → f x ≡ g x) → any f xs ≡ any g xs
  any_same f g [] h = refl
  any_same f g (x ∷ xs) h = ground (arith, h x, any_same f g xs h)

  pub any-filter : (f g : A → Bool) (xs : List A) → any g (filter f xs) ≡ any (λ x. f x && g x) xs
  any-filter f g [] = refl
  any-filter f g (x ∷ xs) = ground (arith, any-filter f g xs)

  pub filter_none : (f : A → Bool) (xs : List A) → any f xs ≡ false → filter f xs ≡ []
  filter_none f [] h = refl
  filter_none f (x ∷ xs) h = ground (arith, filter_none f xs)

  any_of_none : (f g : A → Bool) (xs : List A) → any f xs ≡ false → any (λ x. f x && g x) xs ≡ false
  any_of_none f g [] h = refl
  any_of_none f g (x ∷ xs) h = ground (arith, any_of_none f g xs)

  pub any-and_false : (f : A → Bool) (xs : List A) → any (λ x. f x && false) xs ≡ false
  any-and_false f [] = refl
  any-and_false f (x ∷ xs) = ground (arith, any-and_false f xs)

  any_of_nil : (f : A → Bool) (xs : List A) → filter f xs ≡ [] → any f xs ≡ false
  any_of_nil f [] e = refl
  any_of_nil f (x ∷ xs) e = elim (Bool-cases (f x)) [
    | inl h ↦ absurd (cons_nil (rw h at e))
    | inr h ↦ rw h (any_of_nil f xs (rw h at e))
  ]

-- within the project no key appears twice
abbrev pub HasDistinctKeys : ℕ → List PublishedVersion → Type 0
HasDistinctKeys p [] = Unit {0}
HasDistinctKeys p (v ∷ rows) =
    ((in_project p v && any (λ w. in_project p w && has_key (some (key_of v)) w) rows) ≡ false)
    × HasDistinctKeys p rows

abbrev pub In : PublishedVersion → List PublishedVersion → Type 0
In v [] = ⊥
In v (w ∷ rows) = (v ≡ w) ⊎ In v rows

module _ (p : ℕ) (k : List ℕ) where
  abbrev keyed : PublishedVersion → Bool
  keyed v = in_project p v && has_key (some k) v

  keyed_once :
      (v : PublishedVersion) (rows : List PublishedVersion)
      → keyed v ≡ true
      → (in_project p v && any (λ w. in_project p w && has_key (some (key_of v)) w) rows) ≡ false
      → any keyed rows ≡ false
  keyed_once v rows h d =
      let both : (in_project p v ≡ true) × (text_eq (key_of v) k ≡ true) = ground arith in
      let alone : (in_project p v && any keyed rows) ≡ false =
        subst
          (λ l. (in_project p v && any (λ w. in_project p w && has_key (some l) w) rows) ≡ false)
          ((text_eq_iff (key_of v) k).0 both.1) d in
      and_false (in_project p v) (any keyed rows) both.0 alone

  one_row :
      (rows : List PublishedVersion)
      → HasDistinctKeys p rows
      → any (λ v. keyed v && v.finalized) rows ≡ true
      → (v : PublishedVersion) × (filter keyed rows ≡ v ∷ [])
        × ((keyed v && v.finalized) ≡ true)
        × In v rows
  one_row [] d h = ground arith
  one_row (x ∷ rows) (alone, d) h = elim (Bool-cases (keyed x)) [
    | inl e ↦
        let none_left = keyed_once x rows e alone in
        (
          x,
          rw (e, filter_none keyed rows none_left) refl,
          ground (arith, any_of_none keyed (λ v. v.finalized) rows none_left),
          inl refl,
        )
    | inr e ↦
        let (v, only, good, found) = one_row rows d (ground arith) in
        (v, rw e only, good, inr found)
  ]

-- what the query is to find: no finalized version of the project, or the row of one that no
-- finalized version of the project comes after
abbrev pub LatestOf : List PublishedVersion → ℕ → Option PublishedVersion → Type 0
LatestOf versions p none = any (is_finalized_of p) versions ≡ false
LatestOf versions p (some v) =
    In v versions
    × (is_finalized_of p v ≡ true)
    × (any (λ w. is_finalized_of p w && key_ltb (key_of v) (key_of w)) versions ≡ false)

module _ (versions : List PublishedVersion) (p : ℕ) where
  abbrev pub finalized_rows : List PublishedVersion
  finalized_rows = filter (is_finalized_of p) versions

  -- within the project, the column compares with the project's greatest key
  pub latest_in :
      (v : PublishedVersion)
      → (in_project p v && latest versions v)
        ≡ (in_project p v && has_key (max_key finalized_rows) v)
  unfolding latest
  latest_in v = elim (Bool-cases (in_project p v)) [
    | inl e ↦
        ap (λ q. in_project p v && has_key (max_key (filter (is_finalized_of q) versions)) v)
          ((==_iff v.project_id p).0 e)
    | inr e ↦ rw e refl
  ]

  after_latest :
      (k : List ℕ) (v : PublishedVersion)
      → text_eq (key_of v) k ≡ true
      → none_after k finalized_rows ≡ true
      → any (λ w. is_finalized_of p w && key_ltb (key_of v) (key_of w)) versions ≡ false
  after_latest k v same h =
      sym (any-filter (is_finalized_of p) (λ w. key_ltb (key_of v) (key_of w)) versions)
      ∙ ap (λ l. any (λ w. key_ltb l (key_of w)) finalized_rows) ((text_eq_iff (key_of v) k).0 same)
      ∙ not-true _ h

  find_latest :
      (rows : List PublishedVersion)
      → finalized_rows ≡ rows
      → HasDistinctKeys p versions
      → (o : Option PublishedVersion) × (scalar_one_or_none
            (filter (λ v. in_project p v && has_key (max_key rows) v) versions)
          ≡ ok o)
        × LatestOf versions p o
  find_latest [] e d = (
    none,
    ap scalar_one_or_none (filter_none _ versions (any-and_false (in_project p) versions)),
    any_of_nil (is_finalized_of p) versions e,
  )
  find_latest (x ∷ rows) e d =
      let k = later_key (key_of x) (max_key rows) in
      let greatest = max_key-IsMax x rows in
      let hit : any (λ v. keyed p k v && v.finalized) versions ≡ true =
        any_same _ _ versions (λ v. ground arith)
        ∙ sym (any-filter (is_finalized_of p) (has_key (some k)) versions)
        ∙ ap (any (has_key (some k))) e
        ∙ greatest.hit in
      let (v, only, good, found) = one_row p k versions d hit in
      (
        some v,
        ap scalar_one_or_none only,
        (found, ground arith, after_latest k v (ground arith) (rw e greatest.after)),
      )

  -- Where no two versions of the project share a sort key, the query for the latest finalized
  -- version does not fail, and finds the row of a finalized version of the project after which no
  -- finalized version of the project comes; it finds nothing only if there is none.
  pub get_latest_finalized-LatestOf :
      HasDistinctKeys p versions
      → (o : Option PublishedVersion) × (get_latest_finalized versions p ≡ ok o)
        × LatestOf versions p o
  unfolding get_latest_finalized
  get_latest_finalized-LatestOf d =
      let (o, e, is_latest) = find_latest finalized_rows refl d in
      (o, ap scalar_one_or_none (filter_same _ _ versions latest_in) ∙ e, is_latest)
