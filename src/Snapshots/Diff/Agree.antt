-- ===== src/Snapshots/Diff/Agree.antt =====
-- Two dicts agree where every key has related values in both, or in none.
use taxonomy_builder.Common.{
  ℕ, ◌≡◌, ◌⊎◌, refl, sym, ◌∙◌, ap, subst, inl, inr, Bool, true, false, ◌&&◌, Option, none, some,
  List, [], ◌∷◌, all, ◌==◌, ==_iff, ==_refl, if◌then◌else◌, Bool-cases, Option-cases, arith,
}
use mathlib.Core.Option.{some-injective}
use taxonomy_builder.Snapshots.{is_nil}
use taxonomy_builder.Snapshots.Diff.Keyed.{
  get, put, put_all, by_key, is_in, minus, pair_with, common,
}

module _ {A : Type 0} (key : A → ℕ) where
  abbrev pub Unique : List A → Type 0
  Unique [] = Unit {0}
  Unique (x ∷ rows) = (is_in key rows (key x) ≡ false) × Unique rows

  is_in-put :
      (x : A) (rows : List A) (k : ℕ)
      → is_in key (put key x rows) k ≡ (if key x == k then true else is_in key rows k)
  is_in-put x [] k = refl
  is_in-put x (y ∷ rows) k = ground (arith, is_in-put x rows k)

  put-Unique : (x : A) (rows : List A) → Unique rows → Unique (put key x rows)
  put-Unique x [] u = (refl, tt)
  put-Unique x (y ∷ rows) (alone, u) = elim (Bool-cases (key y == key x)) [
    | inl e ↦ rw e (ap (is_in key rows) (sym ((==_iff (key y) (key x)).0 e)) ∙ alone, u)
    | inr e ↦ rw e (is_in-put x rows (key y) ∙ ground arith, put-Unique x rows u)
  ]

  put_all-Unique : (rows xs : List A) → Unique rows → Unique (put_all key rows xs)
  put_all-Unique rows [] u = u
  put_all-Unique rows (x ∷ xs) u = put_all-Unique (put key x rows) xs (put-Unique x rows u)

  pub by_key-Unique : (xs : List A) → Unique (by_key key xs)
  unfolding by_key
  by_key-Unique xs = put_all-Unique [] xs tt

  abbrev In : A → List A → Type 0
  In x [] = ⊥
  In x (y ∷ rows) = (y ≡ x) ⊎ In x rows

  In-is_in : (x : A) (rows : List A) → In x rows → is_in key rows (key x) ≡ true
  In-is_in x [] h = absurd h
  In-is_in x (y ∷ rows) (inl e) = rw (ap key e) (rw (==_refl (key x)) refl)
  In-is_in x (y ∷ rows) (inr h) = ground (arith, In-is_in x rows h)

  -- the row that is found, and its key
  get-In : (k : ℕ) (rows : List A) (x : A) → get key k rows ≡ some x → In x rows × (key x ≡ k)
  get-In k [] x h = cc
  get-In k (y ∷ rows) x h = elim (Bool-cases (key y == k)) [
    | inl e ↦
        let same = some-injective y x (rw e at h) in
        (inl same, ap key (sym same) ∙ (==_iff (key y) k).0 e)
    | inr e ↦ let (found, at_k) = get-In k rows x (rw e at h) in (inr found, at_k)
  ]

  is_in-get :
      (k : ℕ) (rows : List A) → is_in key rows k ≡ true → (x : A) × (get key k rows ≡ some x)
  is_in-get k [] h = cc
  is_in-get k (y ∷ rows) h = elim (Bool-cases (key y == k)) [
    | inl e ↦ (y, rw e refl)
    | inr e ↦ let (x, found) = is_in-get k rows (rw e at h) in (x, rw e found)
  ]

  get-Unique : (x : A) (rows : List A) → Unique rows → In x rows → get key (key x) rows ≡ some x
  get-Unique x [] u h = absurd h
  get-Unique x (y ∷ rows) (alone, u) (inl e) =
      subst (λ z. get key (key z) (y ∷ rows) ≡ some z) e (rw (==_refl (key y)) refl)
  get-Unique x (y ∷ rows) (alone, u) (inr h) = elim (Bool-cases (key y == key x)) [
    | inl e ↦ cc (In-is_in x rows h, ap (is_in key rows) ((==_iff (key y) (key x)).0 e), alone)
    | inr e ↦ rw e (get-Unique x rows u h)
  ]

  minus_nil :
      (xs ys : List A)
      → is_nil (minus key xs ys) ≡ true
      → (x : A) → In x xs
      → is_in key ys (key x) ≡ true
  minus_nil [] ys h x i = absurd i
  minus_nil (y ∷ xs) ys h x (inl same) = ap (is_in key ys) (ap key (sym same)) ∙ ground arith
  minus_nil (y ∷ xs) ys h x (inr i) = minus_nil xs ys (ground arith) x i

  minus_to_nil :
      (xs ys : List A)
      → ((x : A) → In x xs → is_in key ys (key x) ≡ true)
      → is_nil (minus key xs ys) ≡ true
  minus_to_nil [] ys h = refl
  minus_to_nil (x ∷ xs) ys h = rw (h x (inl refl)) (minus_to_nil xs ys (λ y i. h y (inr i)))

  module _ (same : A × A → Bool) where
    common-all :
        (xs ys : List A)
        → all same (common key xs ys) ≡ true
        → (x y : A) → In x xs
        → get key (key x) ys ≡ some y
        → same (x, y) ≡ true
    common-all [] ys h x y i e = absurd i
    common-all (z ∷ xs) ys h x y (inl eq) e =
        let e' = ap (λ w. get key (key w) ys) eq ∙ e in
        subst (λ w. same (w, y) ≡ true) eq (ground arith)
    common-all (z ∷ xs) ys h x y (inr i) e = common-all xs ys (rest (get key (key z) ys) h) x y i e
      where
        rest :
            (o : Option A)
            → all same (pair_with key z o (common key xs ys)) ≡ true
            → all same (common key xs ys) ≡ true
        rest none h = h
        rest (some w) h = ground arith

    all-common :
        (xs ys : List A)
        → ((x y : A) → In x xs → get key (key x) ys ≡ some y → same (x, y) ≡ true)
        → all same (common key xs ys) ≡ true
    all-common [] ys h = refl
    all-common (x ∷ xs) ys h =
        add (get key (key x) ys) refl (all-common xs ys (λ z y i. h z y (inr i)))
      where
        add :
            (o : Option A)
            → get key (key x) ys ≡ o
            → all same (common key xs ys) ≡ true
            → all same (pair_with key x o (common key xs ys)) ≡ true
        add none e r = r
        add (some y) e r = rw (h x y (inl refl) e) r

  module _ (R : A → A → Type 0) where
    abbrev pub Related : Option A → Option A → Type 0
    Related none none = Unit {0}
    Related none (some b) = ⊥
    Related (some a) none = ⊥
    Related (some a) (some b) = R a b

    -- for every key: no value in either dict, or related values in both
    abbrev pub Agree : List A → List A → Type 0
    Agree xs ys = (k : ℕ) → Related (get key k xs) (get key k ys)

    -- what the comparison of two dicts finds
    abbrev pub finds_none : (A × A → Bool) → List A → List A → Bool
    finds_none same xs ys =
        is_nil (minus key ys xs) && is_nil (minus key xs ys) && all same (common key xs ys)

    module _ (same : A × A → Bool) (sound : (a b : A) → key a ≡ key b → same (a, b) ≡ true → R a b)
        (complete : (a b : A) → key a ≡ key b → R a b → same (a, b) ≡ true) where
      pub Agree-of_none : (xs ys : List A) → finds_none same xs ys ≡ true → Agree xs ys
      Agree-of_none xs ys h k = go (get key k xs) (get key k ys) refl refl
        where
          go : (o p : Option A) → get key k xs ≡ o → get key k ys ≡ p → Related o p
          go none none e f = tt
          go none (some b) e f =
              let (i, at_k) = get-In k ys b f in
              let (x, found) = is_in-get (key b) xs (minus_nil ys xs (ground arith) b i) in
              cc (ap (λ j. get key j xs) at_k)
          go (some a) none e f =
              let (i, at_k) = get-In k xs a e in
              let (x, found) = is_in-get (key a) ys (minus_nil xs ys (ground arith) a i) in
              cc (ap (λ j. get key j ys) at_k)
          go (some a) (some b) e f =
              let (i, a_k) = get-In k xs a e in
              let (j, b_k) = get-In k ys b f in
              sound a b (a_k ∙ sym b_k)
                (common-all same xs ys (ground arith) a b i (ap (λ l. get key l ys) a_k ∙ f))

      pub none-of_Agree :
          (xs ys : List A) → Unique xs → Unique ys → Agree xs ys → finds_none same xs ys ≡ true
      none-of_Agree xs ys u v h =
          rw
            (
              minus_to_nil ys xs (λ y i. from_ys y (get-Unique y ys v i) (h (key y))),
              minus_to_nil xs ys (λ x i. from_xs x (get-Unique x xs u i) (h (key x))),
            )
            (all-common same xs ys λ x y i e.
              let (_, at_key) = get-In (key x) ys y e in
              complete x y (sym at_key) (
                pair (get key (key x) xs) (get key (key x) ys) (get-Unique x xs u i) e (h (key x))))
        where
          pair : {x y : A} (o p : Option A) → o ≡ some x → p ≡ some y → Related o p → R x y
          pair none p e f r = cc
          pair (some a) none e f r = cc
          pair {x} {y} (some a) (some b) e f r =
              subst (λ z. R z y) (some-injective a x e) (subst (R a) (some-injective b y f) r)

          is_found :
              (k : ℕ) (rows : List A) (o : Option A)
              → get key k rows ≡ o
              → (x : A) → o ≡ some x
              → is_in key rows k ≡ true
          is_found k rows o e x f =
              let (i, at_k) = get-In k rows x (e ∙ f) in
              ap (is_in key rows) (sym at_k) ∙ In-is_in x rows i

          from_ys :
              (y : A)
              → get key (key y) ys ≡ some y
              → Related (get key (key y) xs) (get key (key y) ys)
              → is_in key xs (key y) ≡ true
          from_ys y e r = elim (Option-cases (get key (key y) xs)) [
            | inl gone ↦ absurd (left_none (get key (key y) xs) (get key (key y) ys) gone e r)
            | inr (x, found) ↦ is_found (key y) xs (get key (key y) xs) refl x found
          ]
            where
              left_none : (o p : Option A) → o ≡ none → p ≡ some y → Related o p → ⊥
              left_none none none e f r = cc
              left_none none (some b) e f r = r
              left_none (some a) p e f r = cc

          from_xs :
              (x : A)
              → get key (key x) xs ≡ some x
              → Related (get key (key x) xs) (get key (key x) ys)
              → is_in key ys (key x) ≡ true
          from_xs x e r = elim (Option-cases (get key (key x) ys)) [
            | inl gone ↦ absurd (right_none (get key (key x) xs) (get key (key x) ys) e gone r)
            | inr (y, found) ↦ is_found (key x) ys (get key (key x) ys) refl y found
          ]
            where
              right_none : (o p : Option A) → o ≡ some x → p ≡ none → Related o p → ⊥
              right_none none p e f r = cc
              right_none (some a) none e f r = r
              right_none (some a) (some b) e f r = cc
