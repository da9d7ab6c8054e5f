-- ===== src/Rdf/Cycles/Search.antt =====
-- One visit of the search: what it leaves behind.
use taxonomy_builder.Common.{
  ℕ, ◌≤◌, ◌≡◌, ◌≢◌, refl, sym, subst, inl, inr, true, Option, none, some, List, [], ◌∷◌, ◌++◌, Text,
  text_eq, text_eq_iff, text_eq_refl, contains_text, Bool-cases, arith,
}
use taxonomy_builder.Common.Dict.{lookup}
use taxonomy_builder.Rdf.Cycles.{
  Status, unvisited, in_progress, complete, Progress, Superclasses, parents_of, look_at, and_then,
  visit_parents,
}
use taxonomy_builder.Rdf.Cycles.Paths.{
  left, Edge, next, At, All-append, Returns, Closes, Inv, Grows, OnPath, Grows-refl, Grows-trans,
}

abbrev pub Visit : Type 0
Visit = Text → Progress → Option Progress

pub Returns-and_then :
    {P : Progress → Type 0} (Q : Progress → Type 0) (r : Option Progress)
    (k : Progress → Option Progress)
    → Returns P r
    → ((st : Progress) → P st → Returns Q (k st))
    → Returns Q (and_then r k)
Returns-and_then Q none k h f = h
Returns-and_then Q (some st) k h f = f st h

pub Returns-weaken :
    {P : Progress → Type 0} (Q : Progress → Type 0) (r : Option Progress)
    → Returns P r
    → ((st : Progress) → P st → Q st)
    → Returns Q r
Returns-weaken Q none h f = h
Returns-weaken Q (some st) h f = f st h

module _ (m : Superclasses) where
  -- what a visit of a class leaves
  abbrev pub Visited : Progress → Text → Progress → Type 0
  Visited st node st' = Inv m st' × Grows m st st' × At st' node complete

  abbrev pub Visits : ℕ → Visit → Type 0
  Visits fuel v =
      (node : Text) (st : Progress)
      → Inv m st
      → At st node unvisited
      → OnPath m st node
      → left st.status ≤ fuel
      → Returns (Visited st node) (v node st)

  -- what looking at one parent leaves
  abbrev Looked : Progress → Text → Progress → Type 0
  Looked st parent st' =
      Inv m st'
      × Grows m st st'
      × (st'.cycle_edges ≡ []
          → (uris : List Text) → lookup parent m ≡ some uris
          → At st' parent complete)

  found_edge :
      (node parent : Text) (st : Progress)
      → Inv m st
      → OnPath m st node
      → contains_text (parents_of m node) parent ≡ true
      → At st parent in_progress
      → Looked st parent (record st { cycle_edges = st.cycle_edges ++ (node, parent) ∷ [] })
  found_edge node parent st inv path listed gray =
      let (uris, described) = inv.inside parent in_progress gray in
      (
        record {
          sound =
              All-append (Closes m) st.cycle_edges (node, parent) inv.sound
                (record { listed = listed; uris = uris; described = described }, path parent gray);
          closed = λ e. absurd (not_empty st.cycle_edges (node, parent) e);
          acyclic = λ e. absurd (not_empty st.cycle_edges (node, parent) e);
          known = inv.known;
          inside = inv.inside;
        },
        record {
          gray = λ x h. h;
          gray_back = λ x h. h;
          done = λ x h. h;
          fewer = omega arith;
          clean = λ e. absurd (not_empty st.cycle_edges (node, parent) e);
        },
        λ e. absurd (not_empty st.cycle_edges (node, parent) e),
      )
    where
      not_empty : (xs : List (Text × Text)) (x : Text × Text) → xs ++ x ∷ [] ≢ []
      not_empty [] x e = cc
      not_empty (y ∷ xs) x e = cc

  look_at_lem :
      (fuel : ℕ) (v : Visit) (node parent : Text) (st : Progress) (s : Option Status)
      → Visits fuel v
      → lookup parent st.status ≡ s
      → Inv m st
      → OnPath m st node
      → contains_text (parents_of m node) parent ≡ true
      → left st.status ≤ fuel
      → Returns (Looked st parent) (look_at v node parent st s)
  look_at_lem fuel v node parent st none rec e inv path listed h =
      (inv, Grows-refl m st, λ _ uris k. cc (inv.known parent uris k).1)
  look_at_lem fuel v node parent st (some in_progress) rec e inv path listed h =
      found_edge node parent st inv path listed e
  look_at_lem fuel v node parent st (some complete) rec e inv path listed h =
      (inv, Grows-refl m st, λ _ uris k. e)
  look_at_lem fuel v node parent st (some unvisited) rec e inv path listed h =
      let (uris, described) = inv.inside parent unvisited e in
      let edge : Edge m node parent = record {
        listed = listed;
        uris = uris;
        described = described;
      } in
      Returns-weaken (Looked st parent) (v parent st)
        (rec parent st inv e (λ x g. next (path x g) edge) h)
        (λ st' (inv', grows, done). (inv', grows, λ _ uris k. done))

  -- what the loop over the parents leaves
  abbrev pub Parents : Progress → List Text → Progress → Type 0
  Parents st parents st' =
      Inv m st'
      × Grows m st st'
      × (st'.cycle_edges ≡ []
          → (p : Text) → contains_text parents p ≡ true
          → (uris : List Text) → lookup p m ≡ some uris
          → At st' p complete)

  pub visit_parents_lem :
      (fuel : ℕ) (v : Visit) (node : Text) (parents : List Text) (st : Progress)
      → Visits fuel v
      → ((p : Text) → contains_text parents p ≡ true → contains_text (parents_of m node) p ≡ true)
      → Inv m st
      → OnPath m st node
      → left st.status ≤ fuel
      → Returns (Parents st parents) (visit_parents v node parents st)
  visit_parents_lem fuel v node [] st rec among inv path h = (inv, Grows-refl m st, λ _ p k. cc)
  visit_parents_lem fuel v node (parent ∷ parents) st rec among inv path h =
      Returns-and_then (Parents st (parent ∷ parents))
        (look_at v node parent st (lookup parent st.status)) _
        (look_at_lem fuel v node parent st (lookup parent st.status) rec refl inv path
          (among parent (ground (arith, text_eq_refl parent))) h)
        λ st1 (inv1, grows1, done1).
          Returns-weaken (Parents st (parent ∷ parents)) (visit_parents v node parents st1)
            (visit_parents_lem fuel v node parents st1 rec (λ p k. among p (ground arith)) inv1
              (λ x g. path x (grows1.gray_back x g)) (omega (arith, grows1.fewer)))
            λ st2 (inv2, grows2, done2). (
              inv2,
              Grows-trans m st st1 st2 grows1 grows2,
              λ e p k uris d. elim (Bool-cases (text_eq parent p)) [
                | inl same ↦
                    subst (λ q. At st2 q complete) ((text_eq_iff parent p).0 same)
                      (grows2.done parent (
                        done1 (grows2.clean e) uris (
                          subst (λ q. lookup q m ≡ some uris) (sym ((text_eq_iff parent p).0 same))
                            d)))
                | inr other ↦ done2 e p (ground arith) uris d
              ],
            )
