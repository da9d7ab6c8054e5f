-- ===== src/Feedbacks/Lists.antt =====
-- `list_own`, `list_all` and `get_unresolved_counts`. `ilike` is the database's ILIKE, which takes
-- the pattern first.
use taxonomy_builder.Common.{
  ℕ, zero, suc, ◌+◌, ◌≡◌, refl, ◌∙◌, ap, inl, inr, Bool, true, false, ◌&&◌, ◌||◌, Option, none,
  some, List, [], ◌∷◌, ◌++◌, Text, text, text_eq, ◌==◌, ==_iff, ltb, if◌then◌else◌, filter, length,
  contains, Bool-cases, arith,
}
use taxonomy_builder.Common.Sort.{order_by}
use taxonomy_builder.Models.Activity.{
  EntityType, concept, scheme, ontology_class, property, FeedbackStatus, opened, responded,
  resolved, declined, Feedback,
}
use taxonomy_builder.Feedbacks.{Reader, is_none}

abbrev entity_type_text : EntityType → Text
entity_type_text concept = text "concept"
entity_type_text scheme = text "scheme"
entity_type_text ontology_class = text "class"
entity_type_text property = text "property"

abbrev status_text : FeedbackStatus → Text
status_text opened = text "open"
status_text responded = text "responded"
status_text resolved = text "resolved"
status_text declined = text "declined"

-- a filter that is only applied where it is given
abbrev is_wanted : Option Text → Text → Bool
is_wanted none t = true
is_wanted (some want) t = text_eq t want

-- `order_by(created_at.desc())`
abbrev pub is_newer : Feedback → Feedback → Bool
is_newer x y = ltb y.created_at x.created_at

abbrev take : {A : Type 0} → ℕ → List A → List A
take zero xs = []
take (suc n) [] = []
take (suc n) (x ∷ xs) = x ∷ take n xs

module _ (reader : Reader) where
  unfoldable pub list_own : ℕ → Option Text → Option Text → List Feedback → List Feedback
  list_own project_id version entity_type rows = order_by is_newer (
      filter
        (λ fb.
          fb.project_id == project_id
          && fb.user_id == reader.user_id
          && is_none fb.deleted_at
          && is_wanted version fb.snapshot_version
          && is_wanted entity_type (entity_type_text fb.entity_type))
        rows)

module _ (ilike : Text → Text → Bool) where
  -- the search over four columns, where a missing one does not match
  abbrev is_match : Option Text → Feedback → Bool
  is_match none fb = true
  is_match (some q) fb =
      let pattern = text "%" ++ q ++ text "%" in
      ilike pattern fb.content
      || ilike pattern fb.entity_label
      || ilike pattern fb.author_name
      || elim fb.response_content [ none ↦ false | some t ↦ ilike pattern t ]

  abbrev pub is_listed : ℕ → Option Text → Option Text → Option Text → Option Text → Feedback → Bool
  is_listed project_id status entity_type feedback_type q fb =
      fb.project_id == project_id
      && is_none fb.deleted_at
      && is_wanted status (status_text fb.status)
      && is_wanted entity_type (entity_type_text fb.entity_type)
      && is_wanted feedback_type fb.feedback_type
      && is_match q fb

  unfoldable pub list_all :
      ℕ → Option Text → Option Text → Option Text → Option Text → ℕ → List Feedback → List Feedback
  list_all project_id status entity_type feedback_type q limit rows =
      take limit
        (order_by is_newer (filter (is_listed project_id status entity_type feedback_type q) rows))

-- counts by project, in the order in which the projects are met
abbrev pub Counts : Type 0
Counts = List (ℕ × ℕ)

abbrev pub add_one : ℕ → Counts → Counts
add_one p [] = (p, 1) ∷ []
add_one p ((q, n) ∷ counts) = if q == p then (q, n + 1) ∷ counts else (q, n) ∷ add_one p counts

abbrev is_unresolved_status : FeedbackStatus → Bool
is_unresolved_status opened = true
is_unresolved_status responded = true
is_unresolved_status resolved = false
is_unresolved_status declined = false

abbrev pub is_unresolved : Feedback → Bool
is_unresolved fb = is_none fb.deleted_at && is_unresolved_status fb.status

-- `group_by(project_id)` with `count()`
abbrev group_from : List Feedback → Counts → Counts
group_from [] counts = counts
group_from (fb ∷ rows) counts = group_from rows (add_one fb.project_id counts)

unfoldable pub get_unresolved_counts : List ℕ → List Feedback → Counts
get_unresolved_counts project_ids rows =
    group_from (filter (λ fb. contains project_ids fb.project_id && is_unresolved fb) rows) []

-- the count of a project, 0 where it has no entry
abbrev pub count_of : ℕ → Counts → ℕ
count_of p [] = 0
count_of p ((q, n) ∷ counts) = if q == p then n else count_of p counts

count_of-add_one :
    (p q : ℕ) (counts : Counts)
    → count_of p (add_one q counts) ≡ (if q == p then count_of p counts + 1 else count_of p counts)
count_of-add_one p q [] = ground arith
count_of-add_one p q ((r, n) ∷ counts) = ground (arith, count_of-add_one p q counts)

count_of-group :
    (p : ℕ) (rows : List Feedback) (counts : Counts)
    → count_of p (group_from rows counts)
      ≡ length (filter (λ fb. fb.project_id == p) rows) + count_of p counts
count_of-group p [] counts = omega arith
count_of-group p (fb ∷ rows) counts = ground (
  arith,
  count_of-group p rows (add_one fb.project_id counts),
  count_of-add_one p fb.project_id counts,
)

add_zero : (n : ℕ) → n + 0 ≡ n
add_zero n = omega arith

length-filter_both :
    (p : ℕ) (project_ids : List ℕ) (rows : List Feedback)
    → contains project_ids p ≡ true
    → length (
        filter
          (λ fb. fb.project_id == p)
          (filter (λ fb. contains project_ids fb.project_id && is_unresolved fb) rows))
      ≡ length (filter (λ fb. fb.project_id == p && is_unresolved fb) rows)
length-filter_both p project_ids [] h = refl
length-filter_both p project_ids (fb ∷ rows) h =
    let rest = length-filter_both p project_ids rows h in
    elim (Bool-cases (fb.project_id == p)) [
      | inl e ↦
          let asked : contains project_ids fb.project_id ≡ true =
            ap (contains project_ids) ((==_iff fb.project_id p).0 e) ∙ h in
          elim (Bool-cases (is_unresolved fb)) [
            | inl f ↦ rw (asked, e, f) (rw e (ap suc rest))
            | inr f ↦ rw (asked, e, f) rest
          ]
      | inr e ↦ elim (Bool-cases (contains project_ids fb.project_id && is_unresolved fb)) [
        | inl f ↦ rw (e, f) (rw e rest)
        | inr f ↦ rw (e, f) rest
      ]
    ]

-- The count of a project that was asked for is the number of its rows that are neither deleted nor
-- resolved or declined.
pub get_unresolved_counts-count :
    (p : ℕ) (project_ids : List ℕ) (rows : List Feedback)
    → contains project_ids p ≡ true
    → count_of p (get_unresolved_counts project_ids rows)
      ≡ length (filter (λ fb. fb.project_id == p && is_unresolved fb) rows)
unfolding get_unresolved_counts
get_unresolved_counts-count p project_ids rows h =
    count_of-group p (filter (λ fb. contains project_ids fb.project_id && is_unresolved fb) rows) []
    ∙ add_zero _
    ∙ length-filter_both p project_ids rows h
