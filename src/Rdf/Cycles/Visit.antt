-- ===== src/Rdf/Cycles/Visit.antt =====
-- A visit marks its class complete, and keeps what is known of the others.
use taxonomy_builder.Common.{
  ℕ, zero, suc, ◌≤◌, ◌≡◌, ◌≢◌, refl, sym, ◌∙◌, subst, inl, inr, true, false, some, List, [], Text,
  text_eq, text_eq_iff, contains_text, if◌then◌else◌, Bool-cases, arith,
}
use taxonomy_builder.Common.Dict.{lookup, put, lookup-put, lookup-put_self, lookup-put_other}
use taxonomy_builder.Rdf.Cycles.{
  Status, unvisited, in_progress, complete, Progress, Superclasses, parents_of, mark, visit_parents,
  visit,
}
use taxonomy_builder.Rdf.Cycles.Paths.{
  left, left-put, Edge, Reach, here, Cycle, At, Inv, Grows, OnPath, Reach-complete,
}
use taxonomy_builder.Rdf.Cycles.Search.{Visited, Visits, Returns-and_then, visit_parents_lem}

-- a class with another status than the node is another class
apart :
    (node x : Text) (st : Progress) (s t : Status)
    → At st node s
    → At st x t
    → s ≢ t
    → text_eq node x ≡ false
apart node x st s t a b ne = elim (Bool-cases (text_eq node x)) [
  | inl e ↦ absurd (same ((text_eq_iff node x).0 e))
  | inr e ↦ e
]
  where
    same : node ≡ x → ⊥
    same e = ne (cc)

mark_back :
    (node x : Text) (st : Progress) (s t : Status) → At (mark node s st) x t → s ≢ t → At st x t
mark_back node x st s t h ne = elim (Bool-cases (text_eq node x)) [
  | inl e ↦ absurd (ne (ground (arith, lookup-put node x s st.status)))
  | inr e ↦ sym (lookup-put_other node x s st.status e) ∙ h
]

mark_other :
    (node x : Text) (st : Progress) (s t : Status)
    → text_eq node x ≡ false
    → At st x t
    → At (mark node s st) x t
mark_other node x st s t e h = lookup-put_other node x s st.status e ∙ h

module _ (m : Superclasses) where
  mark_known :
      (node : Text) (s : Status) (st : Progress)
      → Inv m st
      → (x : Text) (uris : List Text) → lookup x m ≡ some uris
      → (t : Status) × At (mark node s st) x t
  mark_known node s st inv x uris d = elim (Bool-cases (text_eq node x)) [
    | inl e ↦ (s, lookup-put node x s st.status ∙ rw e refl)
    | inr e ↦ let (t, h) = inv.known x uris d in (t, mark_other node x st s t e h)
  ]

  mark_inside :
      (node : Text) (s old : Status) (st : Progress)
      → Inv m st
      → At st node old
      → (x : Text) (t : Status) → At (mark node s st) x t
      → (uris : List Text) × (lookup x m ≡ some uris)
  mark_inside node s old st inv at x t h = elim (Bool-cases (text_eq node x)) [
    | inl e ↦
        subst (λ y. (uris : List Text) × (lookup y m ≡ some uris)) ((text_eq_iff node x).0 e)
          (inv.inside node old at)
    | inr e ↦ inv.inside x t (sym (lookup-put_other node x s st.status e) ∙ h)
  ]

  enter-Inv :
      (node : Text) (st : Progress)
      → Inv m st
      → At st node unvisited
      → Inv m (mark node in_progress st)
  enter-Inv node st inv at = record {
    sound = inv.sound;
    closed = λ e x y h edge.
        let k = inv.closed e x y (mark_back node x st in_progress complete h (λ q. cc)) edge in
        mark_other node y st in_progress complete
          (apart node y st unvisited complete at k (λ q. cc)) k;
    acyclic = λ e x h. inv.acyclic e x (mark_back node x st in_progress complete h (λ q. cc));
    known = mark_known node in_progress st inv;
    inside = mark_inside node in_progress unvisited st inv at;
  }

  -- on the way down the node joins the path
  enter-OnPath :
      (node : Text) (st : Progress) → OnPath m st node → OnPath m (mark node in_progress st) node
  enter-OnPath node st path x h = elim (Bool-cases (text_eq node x)) [
    | inl e ↦ subst (λ y. Reach m y node) ((text_eq_iff node x).0 e) here
    | inr e ↦ path x (sym (lookup-put_other node x in_progress st.status e) ∙ h)
  ]

  leave-Inv :
      (node : Text) (st : Progress)
      → Inv m st
      → At st node in_progress
      → (st.cycle_edges ≡ []
          → (p : Text) → contains_text (parents_of m node) p ≡ true
          → (uris : List Text) → lookup p m ≡ some uris
          → At st p complete)
      → Inv m (mark node complete st)
  leave-Inv node st inv at parents = record {
    sound = inv.sound;
    closed = λ e x y h edge. keep y (elim (Bool-cases (text_eq node x)) [
      | inl same ↦
          let edge' = subst (λ z. Edge m z y) (sym ((text_eq_iff node x).0 same)) edge in
          parents e y edge'.listed edge'.uris edge'.described
      | inr other ↦
          inv.closed e x y (sym (lookup-put_other node x complete st.status other) ∙ h) edge
    ]);
    acyclic = λ e x h cycle. elim (Bool-cases (text_eq node x)) [
      | inl same ↦
          let cycle' = subst (λ z. Cycle m z) (sym ((text_eq_iff node x).0 same)) cycle in
          let b_done =
            parents e cycle'.b cycle'.first.listed cycle'.first.uris cycle'.first.described in
          let done = Reach-complete m st (inv.closed e) b_done cycle'.back in cc
      | inr other ↦
          inv.acyclic e x (sym (lookup-put_other node x complete st.status other) ∙ h) cycle
    ];
    known = mark_known node complete st inv;
    inside = mark_inside node complete in_progress st inv at;
  }
    where
      keep : (y : Text) → At st y complete → At (mark node complete st) y complete
      keep y h =
          mark_other node y st complete complete
            (apart node y st in_progress complete at h (λ q. cc)) h

  visit-Grows :
      (node : Text) (st st2 : Progress)
      → At st node unvisited
      → Grows m (mark node in_progress st) st2
      → Grows m st (mark node complete st2)
  visit-Grows node st st2 at g = record {
    gray = λ x h.
        let other = apart node x st unvisited in_progress at h (λ q. cc) in
        mark_other node x st2 complete in_progress other
          (g.gray x (mark_other node x st in_progress in_progress other h));
    gray_back = λ x h. elim (Bool-cases (text_eq node x)) [
      | inl e ↦ absurd (wrong x (lookup-put node x complete st2.status) e h)
      | inr e ↦
          sym (lookup-put_other node x in_progress st.status e)
          ∙ g.gray_back x (mark_back node x st2 complete in_progress h (λ q. cc))
    ];
    done = λ x h.
        let other = apart node x st unvisited complete at h (λ q. cc) in
        mark_other node x st2 complete complete other
          (g.done x (mark_other node x st in_progress complete other h));
    fewer =
        let now = g.gray node (lookup-put_self node in_progress st.status) in
        omega (
          arith,
          g.fewer,
          left-put node complete st2.status in_progress now,
          left-put node in_progress st.status unvisited at,
        );
    clean = g.clean;
  }
    where
      wrong :
          (x : Text)
          → lookup x (put node complete st2.status)
            ≡ (if text_eq node x then some complete else lookup x st2.status)
          → text_eq node x ≡ true
          → lookup x (put node complete st2.status) ≡ some in_progress
          → ⊥
      wrong x p e h = ground arith

  pub visit_lem : (fuel : ℕ) → Visits m fuel (visit m fuel)
  unfolding visit
  visit_lem zero node st inv at path h = absurd (none_left st.status at h)
    where
      none_left : (s : List (Text × Status)) → lookup node s ≡ some unvisited → left s ≤ 0 → ⊥
      none_left s at h = omega (arith, left-put node complete s unvisited at)
  visit_lem (suc fuel) node st inv at path h =
      let st1 = mark node in_progress st in
      Returns-and_then (Visited m st node)
        (visit_parents (visit m fuel) node (parents_of m node) st1) _
        (visit_parents_lem m fuel (visit m fuel) node (parents_of m node) st1 (visit_lem fuel)
          (λ p k. k) (enter-Inv node st inv at) (enter-OnPath node st path)
          (omega (arith, left-put node in_progress st.status unvisited at)))
        λ st2 (inv2, grows, parents). (
          leave-Inv node st2 inv2 (grows.gray node (lookup-put_self node in_progress st.status))
              parents,
          visit-Grows node st st2 at grows,
          lookup-put_self node complete st2.status,
        )
