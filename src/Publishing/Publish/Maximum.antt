-- ===== src/Publishing/Publish/Maximum.antt =====
-- The greatest key after a row is added.
use taxonomy_builder.Common.{
  ℕ, ◌≡◌, refl, ◌∙◌, ap, subst, inl, inr, Bool, true, false, not, ◌&&◌, ◌||◌, some, List, [], ◌∷◌,
  ◌++◌, text_eq, text_eq_iff, text_eq_refl, any, any-append, filter, Bool-cases, arith,
}
use taxonomy_builder.Models.Activity.{PublishedVersion}
use taxonomy_builder.Publishing.Latest.{IsMax, max_key-IsMax, none_after, none_after_later}
use taxonomy_builder.Publishing.Queries.{key_of, max_key, has_key}
use taxonomy_builder.Versions.{key_ltb}
use taxonomy_builder.Versions.Order.{key_ltb_irrefl, key_ltb_total}

pub filter-append :
    {A : Type 0} (f : A → Bool) (xs ys : List A) → filter f (xs ++ ys) ≡ filter f xs ++ filter f ys
filter-append f [] ys = refl
filter-append f (x ∷ xs) ys = elim (Bool-cases (f x)) [
  | inl e ↦ rw e (rw (filter-append f xs ys) refl)
  | inr e ↦ rw e (filter-append f xs ys)
]

-- nothing comes after `a`, so a key that a row has does not
pub hit_not_after :
    (a b : List ℕ) (rows : List PublishedVersion)
    → none_after a rows ≡ true
    → any (has_key (some b)) rows ≡ true
    → key_ltb a b ≡ false
hit_not_after a b [] h k = ground arith
hit_not_after a b (w ∷ rows) h k = elim (Bool-cases (text_eq (key_of w) b)) [
  | inl e ↦ subst (λ x. key_ltb a x ≡ false) ((text_eq_iff (key_of w) b).0 e) (ground arith)
  | inr e ↦ hit_not_after a b rows (ground arith) (ground arith)
]

IsMax-unique : (a b : List ℕ) (rows : List PublishedVersion) → IsMax a rows → IsMax b rows → a ≡ b
IsMax-unique a b rows p q =
    key_ltb_total a b (hit_not_after a b rows p.after q.hit) (hit_not_after b a rows q.after p.hit)

pub max_key_of : (k : List ℕ) (rows : List PublishedVersion) → IsMax k rows → max_key rows ≡ some k
max_key_of k [] p = absurd (ground (arith, p.hit))
max_key_of k (x ∷ rows) p = ap some (IsMax-unique _ k (x ∷ rows) (max_key-IsMax x rows) p)

pub before_differs : (a b : List ℕ) → key_ltb a b ≡ true → text_eq a b ≡ false
before_differs a b h = elim (Bool-cases (text_eq a b)) [
  | inl e ↦
      absurd (
        ground (arith, key_ltb_irrefl b, subst (λ x. key_ltb x b ≡ true) ((text_eq_iff a b).0 e) h))
  | inr e ↦ e
]

none_after-append :
    (k : List ℕ) (rows : List PublishedVersion) (row : PublishedVersion)
    → none_after k rows ≡ true
    → key_ltb k (key_of row) ≡ false
    → none_after k (rows ++ row ∷ []) ≡ true
none_after-append k rows row h e = ap not (any-append _ rows (row ∷ [])) ∙ ground arith

last : (a b : Bool) → b ≡ true → (a || (b || false)) ≡ true
last a b h = ground arith

module _ (k : List ℕ) (rows : List PublishedVersion) (row : PublishedVersion) where
  -- the maximum stays
  pub IsMax-append : IsMax k rows → key_ltb k (key_of row) ≡ false → IsMax k (rows ++ row ∷ [])
  IsMax-append p e = record {
    after = none_after-append k rows row p.after e;
    hit = any-append _ rows (row ∷ []) ∙ rw p.hit refl;
  }

  -- the row that is added has the maximum
  pub IsMax-last :
      key_ltb (key_of row) k ≡ false → IsMax k rows → IsMax (key_of row) (rows ++ row ∷ [])
  IsMax-last e p = record {
    after =
        none_after-append (key_of row) rows row (none_after_later (key_of row) k rows e p.after)
          (key_ltb_irrefl (key_of row));
    hit =
        any-append _ rows (row ∷ [])
        ∙ last (any (has_key (some (key_of row))) rows) _ (text_eq_refl (key_of row));
  }

module _ {A : Type 0} where
  pub any_split :
      (f g : A → Bool) (xs : List A)
      → any (λ x. f x && g x) xs ≡ false
      → any (λ x. f x && not (g x)) xs ≡ false
      → any f xs ≡ false
  any_split f g [] h k = refl
  any_split f g (x ∷ xs) h k = ground (arith, any_split f g xs)

  cons_head : {x y : A} {xs ys : List A} → x ∷ xs ≡ y ∷ ys → x ≡ y
  cons_head e = cc

  pub head_holds : (f : A → Bool) (xs : List A) (x : A) → filter f xs ≡ x ∷ [] → f x ≡ true
  head_holds f [] x e = absurd cc
  head_holds f (y ∷ xs) x e = elim (Bool-cases (f y)) [
    | inl h ↦ subst (λ z. f z ≡ true) (cons_head (rw h at e)) h
    | inr h ↦ head_holds f xs x (rw h at e)
  ]
