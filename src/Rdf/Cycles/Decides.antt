-- ===== src/Rdf/Cycles/Decides.antt =====
-- The search reports edges of cycles only, and none exactly if there is no cycle.
use taxonomy_builder.Common.{
  ℕ, ◌≤◌, ◌≡◌, ◌↔◌, refl, ◌∙◌, subst, inl, inr, true, Option, none, some, List, [], ◌∷◌, Text,
  text_eq, text_eq_iff, text_eq_refl, contains_text, length, if◌then◌else◌, Bool-cases,
  Option-cases, arith,
}
use taxonomy_builder.Common.Dict.{lookup, keys}
use taxonomy_builder.Rdf.Classes.{ClassMetadata}
use taxonomy_builder.Rdf.Cycles.{
  Status, unvisited, in_progress, complete, Progress, Superclasses, or_empty, visit, start_at,
  visit_all, all_unvisited, edges_of, by_uri, search_from, detect_superclass_cycles,
}
use taxonomy_builder.Rdf.Cycles.Paths.{
  left, Edge, Cycle, At, All, Returns, Closes, Inv, Grows, Grows-refl, Grows-trans,
}
use taxonomy_builder.Rdf.Cycles.Search.{Visit, Visits, Returns-and_then, Returns-weaken}
use taxonomy_builder.Rdf.Cycles.Visit.{visit_lem}

keys-lookup :
    {V : Type 0} (m : List (Text × V)) (k : Text) (v : V)
    → lookup k m ≡ some v
    → contains_text (keys m) k ≡ true
keys-lookup [] k v h = cc
keys-lookup ((j, w) ∷ m) k v h = ground (arith, keys-lookup m k v)

lookup-keys :
    {V : Type 0} (m : List (Text × V)) (k : Text)
    → contains_text (keys m) k ≡ true
    → (v : V) × (lookup k m ≡ some v)
lookup-keys [] k h = cc
lookup-keys ((j, w) ∷ m) k h = elim (Bool-cases (text_eq j k)) [
  | inl e ↦ (w, rw e refl)
  | inr e ↦ let (v, found) = lookup-keys m k (ground arith) in (v, rw e found)
]

lookup-all_unvisited :
    (uris : List Text) (k : Text)
    → lookup k (all_unvisited uris) ≡ (if contains_text uris k then some unvisited else none)
lookup-all_unvisited [] k = refl
lookup-all_unvisited (u ∷ uris) k = ground (arith, lookup-all_unvisited uris k)

left-all_unvisited : (uris : List Text) → left (all_unvisited uris) ≡ length uris
left-all_unvisited [] = refl
left-all_unvisited (u ∷ uris) = omega (arith, left-all_unvisited uris)

module _ (m : Superclasses) where
  NoneOpen : Progress → Type 0
  NoneOpen st = (x : Text) → At st x in_progress → ⊥

  abbrev Started : Progress → Text → Progress → Type 0
  Started st uri st' = Inv m st' × Grows m st st' × At st' uri complete

  start_at_lem :
      (fuel : ℕ) (v : Visit) (uri : Text) (uris : List Text) (st : Progress) (s : Option Status)
      → Visits m fuel v
      → lookup uri m ≡ some uris
      → lookup uri st.status ≡ s
      → Inv m st
      → NoneOpen st
      → left st.status ≤ fuel
      → Returns (Started st uri) (start_at v uri st s)
  unfolding NoneOpen
  start_at_lem fuel v uri uris st none rec d e inv open_none h = cc (inv.known uri uris d).1
  start_at_lem fuel v uri uris st (some unvisited) rec d e inv open_none h =
      rec uri st inv e (λ x g. absurd (open_none x g)) h
  start_at_lem fuel v uri uris st (some in_progress) rec d e inv open_none h =
      absurd (open_none uri e)
  start_at_lem fuel v uri uris st (some complete) rec d e inv open_none h =
      (inv, Grows-refl m st, e)

  abbrev Finished : Progress → List Text → Progress → Type 0
  Finished st uris st' =
      Inv m st' × Grows m st st' × ((u : Text) → contains_text uris u ≡ true → At st' u complete)

  visit_all_lem :
      (fuel : ℕ) (v : Visit) (uris : List Text) (st : Progress)
      → Visits m fuel v
      → ((u : Text) → contains_text uris u ≡ true → contains_text (keys m) u ≡ true)
      → Inv m st
      → NoneOpen st
      → left st.status ≤ fuel
      → Returns (Finished st uris) (visit_all v uris st)
  unfolding NoneOpen
  visit_all_lem fuel v [] st rec among inv open_none h = (inv, Grows-refl m st, λ u k. cc)
  visit_all_lem fuel v (uri ∷ uris) st rec among inv open_none h =
      let (supers, d) = lookup-keys m uri (among uri (ground (arith, text_eq_refl uri))) in
      Returns-and_then (Finished st (uri ∷ uris)) (start_at v uri st (lookup uri st.status)) _
        (start_at_lem fuel v uri supers st (lookup uri st.status) rec d refl inv open_none h)
        λ st1 (inv1, grows1, done1).
          Returns-weaken (Finished st (uri ∷ uris)) (visit_all v uris st1)
            (visit_all_lem fuel v uris st1 rec (λ u k. among u (ground arith)) inv1
              (λ x g. open_none x (grows1.gray_back x g)) (omega (arith, grows1.fewer)))
            λ st2 (inv2, grows2, done2). (
              inv2,
              Grows-trans m st st1 st2 grows1 grows2,
              λ u k. elim (Bool-cases (text_eq uri u)) [
                | inl e ↦
                    subst (λ x. At st2 x complete) ((text_eq_iff uri u).0 e) (grows2.done uri done1)
                | inr e ↦ done2 u (ground arith)
              ],
            )

  abbrev start : Progress
  start = record { status = all_unvisited (keys m); cycle_edges = [] }

  start_unvisited : (x : Text) (s : Status) → At start x s → s ≡ unvisited
  start_unvisited x s h = ground (arith, lookup-all_unvisited (keys m) x)

  start-Inv : Inv m start
  start-Inv = record {
    sound = tt;
    closed = λ _ x y h. cc (start_unvisited x complete h);
    acyclic = λ _ x h. cc (start_unvisited x complete h);
    known =
        λ x uris d. (unvisited, lookup-all_unvisited (keys m) x ∙ rw (keys-lookup m x uris d) refl);
    inside = λ x s h. lookup-keys m x (ground (arith, lookup-all_unvisited (keys m) x));
  }

  -- what the search is to report
  abbrev pub Reports : Option (List (Text × Text)) → Type 0
  Reports none = ⊥
  Reports (some edges) = All (Closes m) edges × ((edges ≡ []) ↔ ((a : Text) → ¬ (Cycle m a)))

  no_edge :
      (edges : List (Text × Text))
      → All (Closes m) edges
      → ((a : Text) → ¬ (Cycle m a))
      → edges ≡ []
  no_edge [] all none_at = refl
  no_edge ((a, b) ∷ edges) ((edge, back), all) none_at =
      absurd (none_at a (record { b = b; first = edge; back = back }))

  first_inside : (a b : Text) → Edge m a b → contains_text (keys m) a ≡ true
  first_inside a b edge = elim (Option-cases (lookup a m)) [
    | inl e ↦ absurd (nothing (lookup a m) e edge.listed)
    | inr (uris, e) ↦ keys-lookup m a uris e
  ]
    where
      nothing : (o : Option (List Text)) → o ≡ none → contains_text (or_empty o) b ≡ true → ⊥
      nothing none e h = cc
      nothing (some uris) e h = cc

  finish : (r : Option Progress) → Returns (Finished start (keys m)) r → Reports (edges_of r)
  finish none h = h
  finish (some st) (inv, grows, done) = (
    inv.sound,
    (
      λ e a cycle. inv.acyclic e a (done a (first_inside a cycle.b cycle.first)) cycle,
      no_edge st.cycle_edges inv.sound,
    ),
  )

-- The search ends within its fuel; every edge that it reports closes a cycle of superclasses, and it
-- reports none exactly if there is no such cycle among the classes.
pub detect_superclass_cycles_lem :
    (classes_metadata : List ClassMetadata)
    → Reports (by_uri classes_metadata) (detect_superclass_cycles classes_metadata)
unfolding detect_superclass_cycles search_from NoneOpen
detect_superclass_cycles_lem classes_metadata =
    let m = by_uri classes_metadata in
    finish m _ (
      visit_all_lem m (length (keys m)) (visit m (length (keys m))) (keys m) (start m)
        (visit_lem m (length (keys m))) (λ u k. k) (start-Inv m)
        (λ x h. cc (start_unvisited m x in_progress h))
        (omega (arith, left-all_unvisited (keys m))))
