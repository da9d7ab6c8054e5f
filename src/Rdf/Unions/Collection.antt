-- ===== src/Rdf/Unions/Collection.antt =====
-- A collection is read back as the URIs that it was made of, the first of equal ones.
use taxonomy_builder.Common.{
  ℕ, zero, suc, ◌+◌, ◌≤◌, ◌<◌, ◌≡◌, refl, sym, ◌∙◌, ap, subst, inl, inr, true, false, ◌||◌, none,
  some, List, [], ◌∷◌, ◌++◌, Text, text_eq_iff, text_eq_refl, contains_text, contains_text-append,
  first_of_each, length, any, if◌then◌else◌, Bool-cases, Option-cases, arith,
}
use mathlib.Core.Option.{some-injective}
use mathlib.Core.List.{append-nil, append_assoc}
use taxonomy_builder.Rdf.Graph.{
  Node, uri, blank, literal, Statement, Graph, owl_union_of, rdf_first, rdf_rest, rdf_nil,
}
use taxonomy_builder.Rdf.Unions.{node_eq, has_node, with_first, union_loop, resolve_union_all}

node_eq_refl : (n : Node) → node_eq n n ≡ true
node_eq_refl (uri u) = text_eq_refl u
node_eq_refl (blank u) = text_eq_refl u
node_eq_refl (literal t a b) = ground (arith, text_eq_refl t)

node_eq_sound : (m n : Node) → node_eq m n ≡ true → m ≡ n
node_eq_sound (uri u) (uri v) h = ap uri ((text_eq_iff u v).0 h)
node_eq_sound (blank u) (blank v) h = ap blank ((text_eq_iff u v).0 h)
node_eq_sound (literal s a b) (literal t c d) h = ground (arith, text_eq_iff s t)
node_eq_sound (uri u) (blank v) h = cc
node_eq_sound (uri u) (literal t c d) h = cc
node_eq_sound (blank u) (uri v) h = cc
node_eq_sound (blank u) (literal t c d) h = cc
node_eq_sound (literal s a b) (uri v) h = cc
node_eq_sound (literal s a b) (blank v) h = cc

-- the triples whose subject was not seen
abbrev unseen : List Node → List Statement → ℕ
unseen seen [] = 0
unseen seen (t ∷ triples) = (if has_node seen t.subject then 0 else 1) + unseen seen triples

unseen-le : (seen : List Node) (triples : List Statement) → unseen seen triples ≤ length triples
unseen-le seen [] = omega arith
unseen-le seen (t ∷ triples) = ground (arith, unseen-le seen triples)

unseen_mono :
    (n : Node) (seen : List Node) (triples : List Statement)
    → unseen (n ∷ seen) triples ≤ unseen seen triples
unseen_mono n seen [] = omega arith
unseen_mono n seen (t ∷ triples) = ground (arith, unseen_mono n seen triples)

has_node_same :
    (seen : List Node) (m n : Node) → node_eq m n ≡ true → has_node seen m ≡ has_node seen n
has_node_same seen m n h = ap (has_node seen) (node_eq_sound m n h)

node_eq_comm : (m n : Node) → node_eq m n ≡ true → node_eq n m ≡ true
node_eq_comm m n h = subst (λ k. node_eq k m ≡ true) (node_eq_sound m n h) (node_eq_refl m)

-- a subject that is seen now counts no more
unseen-less :
    (n : Node) (seen : List Node) (triples : List Statement)
    → has_node seen n ≡ false
    → any (λ t. node_eq t.subject n) triples ≡ true
    → unseen (n ∷ seen) triples < unseen seen triples
unseen-less n seen [] h e = cc
unseen-less n seen (t ∷ triples) h e = elim (Bool-cases (node_eq t.subject n)) [
  | inl same ↦
      let new = has_node_same seen t.subject n same in
      let back = node_eq_comm t.subject n same in ground (arith, unseen_mono n seen triples)
  | inr other ↦ ground (arith, unseen-less n seen triples h)
]

-- what is assumed of rdflib: a node with a rest is the subject of a triple
pub record IsFinite (g : Graph) : Type 0 where
  pub listed :
      (n m : Node) → g.value n rdf_rest ≡ some m → any (λ t. node_eq t.subject n) g.triples ≡ true

module _ (g : Graph) where
  -- the node is the head of a collection of these URIs
  abbrev pub Encodes : Node → List Text → Type 0
  Encodes n [] = node_eq n (uri rdf_nil) ≡ true
  Encodes n (u ∷ us) =
      (node_eq n (uri rdf_nil) ≡ false)
      × (g.value n rdf_first ≡ some (uri u))
      × ((m : Node) × (g.value n rdf_rest ≡ some m) × Encodes m us)

  Encodes-length :
      (n : Node) (us vs : List Text) → Encodes n us → Encodes n vs → length us ≡ length vs
  Encodes-length n [] [] h k = refl
  Encodes-length n [] (v ∷ vs) h (k, _, _) = cc
  Encodes-length n (u ∷ us) [] (h, _, _) k = cc
  Encodes-length n (u ∷ us) (v ∷ vs) (h, f, (m, r, e)) (k, f', (m', r', e')) =
      let same = some-injective m' m (sym r' ∙ r) in
      ap suc (Encodes-length m us vs e (subst (λ x. Encodes x vs) same e'))

  -- what was seen heads a longer collection
  abbrev Longer : List Node → ℕ → Type 0
  Longer [] k = Unit {0}
  Longer (s ∷ seen) k = ((vs : List Text) × Encodes s vs × (k < length vs)) × Longer seen k

  Longer-less : (seen : List Node) (j k : ℕ) → j < k → Longer seen k → Longer seen j
  Longer-less [] j k h l = tt
  Longer-less (s ∷ seen) j k h ((vs, e, lt), l) = ((vs, e, omega arith), Longer-less seen j k h l)

  not_seen :
      (seen : List Node) (n : Node) (us : List Text)
      → Encodes n us
      → Longer seen (length us)
      → has_node seen n ≡ false
  not_seen [] n us e l = refl
  not_seen (s ∷ seen) n us e ((vs, e', lt), l) = elim (Bool-cases (node_eq s n)) [
    | inl same ↦ absurd (
        omega
          (arith, Encodes-length n us vs e (subst (λ x. Encodes x vs) (node_eq_sound s n same) e')))
    | inr other ↦ rw other (not_seen seen n us e l)
  ]

  -- `uris` with what the loop appends
  abbrev appended : List Text → List Text → List Text
  appended uris [] = uris
  appended uris (u ∷ us) = appended (with_first uris (some (uri u))) us

  union_loop_lem :
      (fin : IsFinite g) (fuel : ℕ) (seen : List Node) (uris : List Text) (n : Node)
      (us : List Text)
      → Encodes n us
      → Longer seen (length us)
      → suc (unseen seen g.triples) < fuel
      → union_loop g fuel seen uris (some n) ≡ some (appended uris us)
  unfolding union_loop
  union_loop_lem fin zero seen uris n us e l h = elim h [ ]
  union_loop_lem fin (suc fuel) seen uris n [] e l h = rw e refl
  union_loop_lem fin (suc fuel) seen uris n (u ∷ us) (not_nil, f, (m, r, e)) l h =
      let new = not_seen seen n (u ∷ us) (not_nil, f, (m, r, e)) l in
      rw (not_nil, new, f, r)
        (union_loop_lem fin fuel (n ∷ seen) (with_first uris (some (uri u))) m us e
          (
            (u ∷ us, (not_nil, f, (m, r, e)), omega arith),
            Longer-less seen (length us) (suc (length us)) (omega arith) l,
          )
          (omega (arith, unseen-less n seen g.triples new (fin.listed n m r))))

  -- a run of the loop ends within its fuel
  union_loop_ends :
      (fin : IsFinite g) (fuel : ℕ) (seen : List Node) (uris : List Text) (n : Node)
      → suc (unseen seen g.triples) < fuel
      → (r : List Text) × (union_loop g fuel seen uris (some n) ≡ some r)
  unfolding union_loop
  union_loop_ends fin zero seen uris n h = elim h [ ]
  union_loop_ends fin (suc fuel) seen uris n h =
      elim (Bool-cases (node_eq n (uri rdf_nil) || has_node seen n)) [
        | inl e ↦ (uris, rw e refl)
        | inr e ↦ rw e (elim (Option-cases (g.value n rdf_rest)) [
          | inl no_rest ↦
              rw no_rest
                (ends fuel (n ∷ seen) (with_first uris (g.value n rdf_first)) (omega arith))
          | inr (m, r) ↦ rw r (
              union_loop_ends fin fuel (n ∷ seen) (with_first uris (g.value n rdf_first)) m
                (omega (arith, unseen-less n seen g.triples (ground arith) (fin.listed n m r))))
        ])
      ]
    where
      ends :
          (fuel : ℕ) (seen : List Node) (uris : List Text)
          → 0 < fuel
          → (r : List Text) × (union_loop g fuel seen uris none ≡ some r)
      ends zero seen uris h = elim h [ ]
      ends (suc fuel) seen uris h = (uris, refl)

  pub resolve_union_all_ends :
      (fin : IsFinite g) (bnode : Node) → (r : List Text) × (resolve_union_all g bnode ≡ some r)
  unfolding resolve_union_all
  resolve_union_all_ends fin bnode = elim (Option-cases (g.value bnode owl_union_of)) [
    | inl e ↦ ([], rw e refl)
    | inr (n, e) ↦ rw e (
        union_loop_ends fin (suc (suc (length g.triples))) [] [] n
          (omega (arith, unseen-le [] g.triples)))
  ]

-- appending what is not there yet
appended-first_of_each :
    (g : Graph) (uris seen us : List Text)
    → ((u : Text) → contains_text uris u ≡ contains_text seen u)
    → appended g uris us ≡ uris ++ first_of_each seen us
appended-first_of_each g uris seen [] same = sym (append-nil uris)
appended-first_of_each g uris seen (u ∷ us) same = elim (Bool-cases (contains_text seen u)) [
  | inl e ↦ rw (same u ∙ e) (rw e (appended-first_of_each g uris seen us same))
  | inr e ↦ rw (same u ∙ e) (
      rw e (
        appended-first_of_each g (uris ++ u ∷ []) (u ∷ seen) us
          (λ v. contains_text-append uris (u ∷ []) v ∙ ground (arith, same v))
        ∙ append_assoc uris (u ∷ []) (first_of_each (u ∷ seen) us)))
]

-- Where only subjects of triples have a rest, a blank node whose union is a collection of URIs gives
-- these URIs back, in their order, each where it stands first.
pub resolve_union_all-Encodes :
    (g : Graph)
    → IsFinite g
    → (bnode n : Node) (us : List Text) → g.value bnode owl_union_of ≡ some n
    → Encodes g n us
    → resolve_union_all g bnode ≡ some (first_of_each [] us)
unfolding resolve_union_all
resolve_union_all-Encodes g fin bnode n us e h = rw e (
    union_loop_lem g fin (suc (suc (length g.triples))) [] [] n us h tt
      (omega (arith, unseen-le [] g.triples))
    ∙ ap some (appended-first_of_each g [] [] us (λ u. refl)))
