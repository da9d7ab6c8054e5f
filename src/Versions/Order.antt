-- ===== src/Versions/Order.antt =====
-- How the versions of a project compare.
use mathlib.Core.List.{append_assoc}
use taxonomy_builder.Common.{
  ℕ, ◌^◌, ◌-◌, ◌<◌, ◌≡◌, refl, ◌∙◌, ap, true, false, ◌&&◌, List, [], ◌∷◌, ◌++◌, ltb, arith,
}
use taxonomy_builder.Common.Decimal.{decimal}
use taxonomy_builder.Versions.{key_ltb, is_before}
use taxonomy_builder.Versions.Keys.{dotted_from, pre, all_fit, key_of_release, key_of_pre_release}

key_ltb_last : (ns : List ℕ) (j k : ℕ) → key_ltb (ns ++ j ∷ []) (ns ++ k ∷ []) ≡ ltb j k
unfolding key_ltb
key_ltb_last [] j k = ground arith
key_ltb_last (n ∷ ns) j k = ground (arith, key_ltb_last ns j k)

key_ltb_longer :
    (ns : List ℕ) (m k : ℕ) (rest : List ℕ) → m < k → key_ltb (ns ++ m ∷ rest) (ns ++ k ∷ []) ≡ true
unfolding key_ltb
key_ltb_longer [] m k rest h = ground arith
key_ltb_longer (n ∷ ns) m k rest h = ground (arith, key_ltb_longer ns m k rest)

pub key_ltb_irrefl : (a : List ℕ) → key_ltb a a ≡ false
unfolding key_ltb
key_ltb_irrefl [] = refl
key_ltb_irrefl (x ∷ a) = ground (arith, key_ltb_irrefl a)

pub key_ltb_trans : (a b c : List ℕ) → key_ltb a b ≡ true → key_ltb b c ≡ true → key_ltb a c ≡ true
unfolding key_ltb
key_ltb_trans [] [] c h k = ground arith
key_ltb_trans [] (y ∷ b) [] h k = ground arith
key_ltb_trans [] (y ∷ b) (z ∷ c) h k = refl
key_ltb_trans (x ∷ a) [] c h k = ground arith
key_ltb_trans (x ∷ a) (y ∷ b) [] h k = ground arith
key_ltb_trans (x ∷ a) (y ∷ b) (z ∷ c) h k = ground (arith, key_ltb_trans a b c)

pub key_ltb_total : (a b : List ℕ) → key_ltb a b ≡ false → key_ltb b a ≡ false → a ≡ b
unfolding key_ltb
key_ltb_total [] [] h k = refl
key_ltb_total [] (y ∷ b) h k = ground arith
key_ltb_total (x ∷ a) [] h k = ground arith
key_ltb_total (x ∷ a) (y ∷ b) h k = ground (arith, key_ltb_total a b)

all_fit-append : (ns ms : List ℕ) → all_fit (ns ++ ms) ≡ (all_fit ns && all_fit ms)
all_fit-append [] ms = refl
all_fit-append (n ∷ ns) ms = ground (arith, all_fit-append ns ms)

module _ (n : ℕ) (ns : List ℕ) where
  pre_release_before :
      (j k : ℕ)
      → all_fit (n ∷ ns) ≡ true
      → j < 2 ^ 31 - 1
      → k < 2 ^ 31 - 1
      → (is_before (dotted_from n ns ++ pre ++ decimal j) (dotted_from n ns) ≡ true)
        × (is_before (dotted_from n ns ++ pre ++ decimal j) (dotted_from n ns ++ pre ++ decimal k)
            ≡ ltb j k)
  pre_release_before j k fit small small' = (
    rw (key_of_pre_release n ns j fit (omega arith), key_of_release n ns fit)
        (key_ltb_last (n ∷ ns) j (2 ^ 31 - 1) ∙ ground arith),
    rw (key_of_pre_release n ns j fit (omega arith), key_of_pre_release n ns k fit (omega arith))
        (key_ltb_last (n ∷ ns) j k),
  )

  longer_before :
      (m : ℕ) (rest : List ℕ)
      → all_fit (n ∷ ns) ≡ true
      → all_fit (m ∷ rest) ≡ true
      → m < 2 ^ 31 - 1
      → is_before (dotted_from n (ns ++ m ∷ rest)) (dotted_from n ns) ≡ true
  longer_before m rest fit fit' small =
      rw
        (
          key_of_release n (ns ++ m ∷ rest) (all_fit-append (n ∷ ns) (m ∷ rest) ∙ ground arith),
          key_of_release n ns fit,
        )
        (ap (λ l. key_ltb l (n ∷ ns ++ (2 ^ 31 - 1) ∷ []))
            (append_assoc (n ∷ ns) (m ∷ rest) ((2 ^ 31 - 1) ∷ []))
          ∙ key_ltb_longer (n ∷ ns) m (2 ^ 31 - 1) (rest ++ (2 ^ 31 - 1) ∷ []) small)

  -- Of a version whose numbers fit in 32 bits, the pre-releases come before the release, and in the
  -- order of their numbers; a release with further numbers that fit, the first of them below
  -- 2 ^ 31 - 1, comes before the release without them as well: 1.0.1 sorts below 1.0.
  pub release_order :
      (j k m : ℕ) (rest : List ℕ)
      → all_fit (n ∷ ns) ≡ true
      → all_fit (m ∷ rest) ≡ true
      → j < 2 ^ 31 - 1
      → k < 2 ^ 31 - 1
      → m < 2 ^ 31 - 1
      → (is_before (dotted_from n ns ++ pre ++ decimal j) (dotted_from n ns) ≡ true)
        × (is_before (dotted_from n ns ++ pre ++ decimal j) (dotted_from n ns ++ pre ++ decimal k)
            ≡ ltb j k)
        × (is_before (dotted_from n (ns ++ m ∷ rest)) (dotted_from n ns) ≡ true)
  release_order j k m rest fit fit' small small' small'' =
      let (before, ordered) = pre_release_before j k fit small small' in
      (before, ordered, longer_before m rest fit fit' small'')
