-- ===== src/Comments/Rules.antt =====
-- Replies stay one level deep, and only top-level comments are resolved.
use taxonomy_builder.Common.{
  ℕ, ◌≡◌, refl, sym, ◌∙◌, ap, inl, inr, Bool, true, false, not, ◌&&◌, ◌||◌, Option, none, some,
  List, [], ◌∷◌, ◌==◌, ==_iff, find, any, all, Bool-cases, arith,
}
use mathlib.Core.Option.{some-injective}
use taxonomy_builder.Models.Activity.{Comment}
use taxonomy_builder.Comments.{is_none, is_live, update_rows}

abbrev pub same : Bool → Bool → Bool
same true b = b
same false b = not b

pub and_left : (a b : Bool) → (a && b) ≡ true → a ≡ true
and_left a b h = ground arith

pub and_right : (a b : Bool) → (a && b) ≡ true → b ≡ true
and_right a b h = ground arith

pub all_same :
    (f g : Comment → Bool) (xs : List Comment) → ((x : Comment) → f x ≡ g x) → all f xs ≡ all g xs
all_same f g [] h = refl
all_same f g (x ∷ xs) h = ground (arith, h x, all_same f g xs h)

pub and_both : (a b : Bool) → a ≡ true → b ≡ true → (a && b) ≡ true
and_both a b h k = ground arith

-- a top-level comment with that id
abbrev pub is_head : List Comment → ℕ → Bool
is_head rows id = any (λ y. y.id == id && is_none y.parent_comment_id) rows

abbrev pub answers_head : List Comment → Option ℕ → Bool
answers_head rows none = true
answers_head rows (some parent) = is_head rows parent

-- a resolution has its author and time, a reply has none, and answers a top-level comment
abbrev pub fits : List Comment → Comment → Bool
fits rows x =
    same (is_none x.resolved_at) (is_none x.resolved_by)
    && (is_none x.parent_comment_id || is_none x.resolved_at)
    && answers_head rows x.parent_comment_id

abbrev pub HasUniqueIds : List Comment → Type 0
HasUniqueIds [] = Unit {0}
HasUniqueIds (x ∷ rows) = (any (λ y. y.id == x.id) rows ≡ false) × HasUniqueIds rows

pub record IsThreaded (rows : List Comment) : Type 0 where
  pub unique : HasUniqueIds rows
  pub all_fit : all (fits rows) rows ≡ true

-- a change of columns other than the id and the parent
pub record Keeps (f : Comment → Comment) : Type 0 where
  pub id : (x : Comment) → (f x).id ≡ x.id
  pub parent : (x : Comment) → (f x).parent_comment_id ≡ x.parent_comment_id

module _ (id : ℕ) (f : Comment → Comment) (k : Keeps f) where
  any_ids-update :
      (j : ℕ) (rows : List Comment)
      → any (λ y. y.id == j) (update_rows id f rows) ≡ any (λ y. y.id == j) rows
  any_ids-update j [] = refl
  any_ids-update j (x ∷ rows) = ground (arith, k.id x, any_ids-update j rows)

  HasUniqueIds-update :
      (rows : List Comment) → HasUniqueIds rows → HasUniqueIds (update_rows id f rows)
  HasUniqueIds-update [] h = tt
  HasUniqueIds-update (x ∷ rows) (alone, rest) = elim (Bool-cases (x.id == id)) [
    | inl e ↦ rw e (
      ap (λ j. any (λ y. y.id == j) (update_rows id f rows)) (k.id x)
          ∙ any_ids-update x.id rows
          ∙ alone,
      HasUniqueIds-update rows rest,
    )
    | inr e ↦ rw e (any_ids-update x.id rows ∙ alone, HasUniqueIds-update rows rest)
  ]

  is_head-update :
      (p : ℕ) (rows : List Comment) → is_head (update_rows id f rows) p ≡ is_head rows p
  is_head-update p [] = refl
  is_head-update p (x ∷ rows) = elim (Bool-cases (x.id == id)) [
    | inl e ↦ rw (e, k.id x, k.parent x, is_head-update p rows) refl
    | inr e ↦ rw (e, is_head-update p rows) refl
  ]

  answers_head-update :
      (o : Option ℕ) (rows : List Comment)
      → answers_head (update_rows id f rows) o ≡ answers_head rows o
  answers_head-update none rows = refl
  answers_head-update (some p) rows = is_head-update p rows

  fits-update : (rows : List Comment) (x : Comment) → fits (update_rows id f rows) x ≡ fits rows x
  fits-update rows x = rw (answers_head-update x.parent_comment_id rows) refl

  -- where the change keeps the rows that it reaches as they should be
  all_fit-update :
      (heads rows : List Comment) (cond : Comment → Bool)
      → ((x : Comment) → cond x ≡ true → fits heads x ≡ true → fits heads (f x) ≡ true)
      → all (λ x. not (x.id == id) || cond x) rows ≡ true
      → all (fits heads) rows ≡ true
      → all (fits heads) (update_rows id f rows) ≡ true
  all_fit-update heads [] cond step c h = refl
  all_fit-update heads (x ∷ rows) cond step c h = elim (Bool-cases (x.id == id)) [
    | inl e ↦
        let here : cond x ≡ true = ground arith in
        let fine : fits heads x ≡ true = and_left _ _ h in
        rw e (
          rw (step x here fine)
            (all_fit-update heads rows cond step (and_right _ _ c) (and_right _ _ h)))
    | inr e ↦
        let fine : fits heads x ≡ true = and_left _ _ h in
        rw e (rw fine (all_fit-update heads rows cond step (and_right _ _ c) (and_right _ _ h)))
  ]

  pub IsThreaded-update :
      (rows : List Comment) (cond : Comment → Bool)
      → ((x : Comment) → cond x ≡ true → fits rows x ≡ true → fits rows (f x) ≡ true)
      → all (λ x. not (x.id == id) || cond x) rows ≡ true
      → IsThreaded rows
      → IsThreaded (update_rows id f rows)
  IsThreaded-update rows cond step c h = record {
    unique = HasUniqueIds-update rows h.unique;
    all_fit =
        all_same (fits (update_rows id f rows)) (fits rows) (update_rows id f rows)
          (fits-update rows)
        ∙ all_fit-update rows rows cond step c h.all_fit;
  }

no_such_id :
    (id : ℕ) (cond : Comment → Bool) (rows : List Comment)
    → any (λ x. x.id == id) rows ≡ false
    → all (λ x. not (x.id == id) || cond x) rows ≡ true
no_such_id id cond [] h = refl
no_such_id id cond (x ∷ rows) h = ground (arith, no_such_id id cond rows)

pub found_id :
    (id : ℕ) (rows : List Comment) (c : Comment)
    → find (is_live id) rows ≡ some c
    → any (λ x. x.id == id) rows ≡ true
found_id id [] c h = cc
found_id id (x ∷ rows) c h = elim (Bool-cases (is_live id x)) [
  | inl e ↦ ground arith
  | inr e ↦ ground (arith, found_id id rows c (rw e at h))
]

-- with unique ids, the row that was found is the only one of its id
pub only_row :
    (id : ℕ) (cond : Comment → Bool) (rows : List Comment) (c : Comment)
    → HasUniqueIds rows
    → find (is_live id) rows ≡ some c
    → cond c ≡ true
    → all (λ x. not (x.id == id) || cond x) rows ≡ true
only_row id cond [] c u h good = refl
only_row id cond (x ∷ rows) c (alone, u) h good = elim (Bool-cases (is_live id x)) [
  | inl e ↦
      let here : cond x ≡ true = ap cond (some-injective x c (rw e at h)) ∙ good in
      let others : any (λ y. y.id == id) rows ≡ false =
        ap (λ j. any (λ y. y.id == j) rows) (sym ((==_iff x.id id).0 (ground arith))) ∙ alone in
      ground (arith, no_such_id id cond rows others)
  | inr e ↦ elim (Bool-cases (x.id == id)) [
    | inl f ↦ absurd (
        ground (
          arith,
          found_id id rows c (rw e at h),
          ap (λ j. any (λ y. y.id == j) rows) (sym ((==_iff x.id id).0 f)) ∙ alone,
        ))
    | inr f ↦ ground (arith, only_row id cond rows c u (rw e at h) good)
  ]
]
