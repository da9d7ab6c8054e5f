-- ===== src/Concepts/Delete/Events.antt =====
-- The audit events of a deletion: what the three loops of `delete_concept` log.
use taxonomy_builder.Common.{
  ℕ, ◌≡◌, refl, sym, ◌∙◌, ap, inl, inr, Bool, true, ◌&&◌, Text, text, Option, none, some, List, [],
  ◌∷◌, ◌++◌, map, find, any, all, Result, ok, ◌==◌, ==_iff, ltb, Bool-cases, arith,
}
use mathlib.Core.List.{append-nil, append_assoc}
use taxonomy_builder.Models.Vocabulary.{Concept, ConceptBroader, ConceptRelated}
use taxonomy_builder.Models.Activity.{ChangeEvent, State}
use taxonomy_builder.Models.Session.{Session}
use taxonomy_builder.Tracker.{Actor, event, serialize_broader, serialize_related}
use taxonomy_builder.Concepts.{Error, get_concept}
use taxonomy_builder.Concepts.Related.{smaller, larger}
use taxonomy_builder.Concepts.Delete.{
  other_id, related_state, log_broader, log_narrower, log_related, is_narrower, is_broader,
  in_related,
}

abbrev pub known : List Concept → ℕ → Bool
known concepts c = any (λ x. x.id == c) concepts

abbrev pub broader_known : List Concept → ConceptBroader → Bool
broader_known concepts rel = known concepts rel.concept_id && known concepts rel.broader_concept_id

abbrev pub related_known : List Concept → ConceptRelated → Bool
related_known concepts rel = known concepts rel.concept_id && known concepts rel.related_concept_id

-- the label of the concept with an identifier
abbrev label_or_empty : Option Concept → Text
label_or_empty none = text ""
label_or_empty (some c) = c.pref_label

abbrev pub label : List Concept → ℕ → Text
label concepts k = label_or_empty (find (λ x. x.id == k) concepts)

module _ (actor : Actor) (project_id : ℕ) (concepts : List Concept) (concept : Concept) where
  -- the event for a row of concept_broader that goes with the concept
  abbrev pub broader_deleted : ConceptBroader → ChangeEvent
  broader_deleted rel =
      event actor project_id (text "concept_broader") rel.concept_id (text "delete")
        (some (
          serialize_broader rel.concept_id rel.broader_concept_id (label concepts rel.concept_id)
            (label concepts rel.broader_concept_id)))
        none (some concept.scheme_id)

  abbrev pair_state : ℕ → ℕ → State
  pair_state a b = serialize_related a b (label concepts a) (label concepts b)

  -- the event for a row of concept_related that goes with the concept
  abbrev pub related_deleted : ConceptRelated → ChangeEvent
  related_deleted rel =
      event actor project_id (text "concept_related") concept.id (text "delete")
        (some (
          pair_state (smaller rel.concept_id rel.related_concept_id)
            (larger rel.concept_id rel.related_concept_id)))
        none (some concept.scheme_id)

known_row :
    (concepts : List Concept) (c : ℕ)
    → known concepts c ≡ true
    → (x : Concept) × (find (λ x. x.id == c) concepts ≡ some x)
known_row [] c h = cc
known_row (x ∷ xs) c h = elim (Bool-cases (x.id == c)) [
  | inl e ↦ (x, rw e)
  | inr e ↦ let (y, p) = known_row xs c (ground arith) in (y, rw e p)
]

abbrev pub with_events : Session → List ChangeEvent → Session
with_events s es = record s { tables = record s.tables { events = s.events ++ es } }

-- the action returned, and did nothing but log the events
abbrev pub Logs : List ChangeEvent → Result Error (Unit {0}) × Session → Session → Type 0
Logs es r s = r ≡ (ok tt, with_events s es)

Logs-nil : (s : Session) → Logs [] (ok tt, s) s
Logs-nil s =
    ap (λ es. (ok tt, record s { tables = record s.tables { events = es } }))
      (sym (append-nil s.events))

Logs-cons :
    (s : Session) (e : ChangeEvent) (es : List ChangeEvent) (r : Result Error (Unit {0}) × Session)
    → Logs es r (with_events s (e ∷ []))
    → Logs (e ∷ es) r s
Logs-cons s e es r p =
    p
    ∙ ap (λ es. (ok tt, record s { tables = record s.tables { events = es } }))
        (append_assoc s.events (e ∷ []) es)

and_true : (a b : Bool) → (a && b) ≡ true → (a ≡ true) × (b ≡ true)
and_true a b h = ground arith

label_at :
    (concepts : List Concept) (k j : ℕ) (x : Concept)
    → find (λ y. y.id == j) concepts ≡ some x
    → (k == j) ≡ true
    → label concepts k ≡ x.pref_label
label_at concepts k j x found e = ap (label concepts) ((==_iff k j).0 e) ∙ ap label_or_empty found

module _ (actor : Actor) (project_id : ℕ) (concept : Concept) where
  pub log_broader_lem :
      (rels : List ConceptBroader) (s : Session)
      → find (λ x. x.id == concept.id) s.concepts ≡ some concept
      → all (λ r. broader_known s.concepts r && is_narrower concept.id r) rels ≡ true
      → Logs
          (map (broader_deleted actor project_id s.concepts concept) rels)
          (log_broader actor project_id concept.scheme_id concept rels s)
          s
  unfolding log_broader get_concept
  log_broader_lem [] s found h = Logs-nil s
  log_broader_lem (rel ∷ rels) s found h =
      let (here, rest) =
        and_true (broader_known s.concepts rel && is_narrower concept.id rel) _ h in
      let (both, narrower) = and_true (broader_known s.concepts rel) _ here in
      let (x, e) =
        known_row s.concepts rel.broader_concept_id
          (and_true (known s.concepts rel.concept_id) _ both).1 in
      rw (e, label_at s.concepts rel.concept_id concept.id concept found narrower)
        (Logs-cons s _ _ _ (log_broader_lem rels _ found rest))

  pub log_narrower_lem :
      (rels : List ConceptBroader) (s : Session)
      → find (λ x. x.id == concept.id) s.concepts ≡ some concept
      → all (λ r. broader_known s.concepts r && is_broader concept.id r) rels ≡ true
      → Logs
          (map (broader_deleted actor project_id s.concepts concept) rels)
          (log_narrower actor project_id concept.scheme_id concept rels s)
          s
  unfolding log_narrower get_concept
  log_narrower_lem [] s found h = Logs-nil s
  log_narrower_lem (rel ∷ rels) s found h =
      let (here, rest) = and_true (broader_known s.concepts rel && is_broader concept.id rel) _ h in
      let (both, broader) = and_true (broader_known s.concepts rel) _ here in
      let (x, e) =
        known_row s.concepts rel.concept_id (and_true (known s.concepts rel.concept_id) _ both).0 in
      rw (e, label_at s.concepts rel.broader_concept_id concept.id concept found broader)
        (Logs-cons s _ _ _ (log_narrower_lem rels _ found rest))

  other_known :
      (rel : ConceptRelated) (concepts : List Concept)
      → related_known concepts rel ≡ true
      → known concepts (other_id actor project_id concept.scheme_id concept rel) ≡ true
  other_known rel concepts h = ground arith

  -- The labels that the branches pick are those of the two concepts.
  related_state_lem :
      (concepts : List Concept) (rel : ConceptRelated) (other : Concept)
      → find (λ x. x.id == concept.id) concepts ≡ some concept
      → in_related concept.id rel ≡ true
      → find (λ x. x.id == other_id actor project_id concept.scheme_id concept rel) concepts
        ≡ some other
      → related_state actor project_id concept.scheme_id concept rel other
        ≡ some (
            pair_state actor project_id concepts concept
              (smaller rel.concept_id rel.related_concept_id)
              (larger rel.concept_id rel.related_concept_id))
  related_state_lem concepts rel other found h found_other =
      elim (Bool-cases (rel.concept_id == concept.id)) [
        | inl e ↦
            let first = label_at concepts rel.concept_id concept.id concept found e in
            let second : label concepts rel.related_concept_id ≡ other.pref_label =
              ap label_or_empty (rw e at found_other) in
            elim (Bool-cases (rel.related_concept_id == concept.id)) [
              | inl f ↦
                  let again = label_at concepts rel.related_concept_id concept.id concept found f in
                  elim (Bool-cases (ltb rel.concept_id rel.related_concept_id)) [
                    | inl g ↦ rw (e, f, g, first, second) refl
                    | inr g ↦ rw (e, f, g, first, again, sym second ∙ again) refl
                  ]
              | inr f ↦ elim (Bool-cases (ltb rel.concept_id rel.related_concept_id)) [
                | inl g ↦ rw (e, f, g, first, second) refl
                | inr g ↦ rw (e, f, g, first, second) refl
              ]
            ]
        | inr e ↦
            let first : label concepts rel.concept_id ≡ other.pref_label =
              ap label_or_empty (rw e at found_other) in
            let f : (rel.related_concept_id == concept.id) ≡ true = ground arith in
            let second = label_at concepts rel.related_concept_id concept.id concept found f in
            elim (Bool-cases (ltb rel.concept_id rel.related_concept_id)) [
              | inl g ↦ rw (e, f, g, first, second) refl
              | inr g ↦ rw (e, f, g, first, second) refl
            ]
      ]

  pub log_related_lem :
      (rels : List ConceptRelated) (s : Session)
      → find (λ x. x.id == concept.id) s.concepts ≡ some concept
      → all (λ r. related_known s.concepts r && in_related concept.id r) rels ≡ true
      → Logs
          (map (related_deleted actor project_id s.concepts concept) rels)
          (log_related actor project_id concept.scheme_id concept rels s)
          s
  unfolding log_related get_concept
  log_related_lem [] s found h = Logs-nil s
  log_related_lem (rel ∷ rels) s found h =
      let (here, rest) = and_true (related_known s.concepts rel && in_related concept.id rel) _ h in
      let (both, named) = and_true (related_known s.concepts rel) _ here in
      let (x, e) =
        known_row s.concepts (other_id actor project_id concept.scheme_id concept rel)
          (other_known rel s.concepts both) in
      rw (e, related_state_lem s.concepts rel x found named e)
        (Logs-cons s _ _ _ (log_related_lem rels _ found rest))
