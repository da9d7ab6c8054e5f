-- ===== src/Feedbacks.antt =====
-- `FeedbackService` of backend/src/taxonomy_builder/services/feedback_service.py, with the validators
-- of schemas/feedback.py. The service's fields, and the clock, are the `Reader`.
pub mod Rows
pub mod Lifecycle
pub mod Lists
pub mod WellFormed
use taxonomy_builder.Common.{
  ltb, length, ℕ, Bool, true, false, not, ◌&&◌, ◌||◌, Option, none, some, List, [], ◌∷◌, ◌++◌, Text,
  text, text_eq, strip, is_empty, contains_text, ◌==◌, if◌then◌else◌, find, Exec, Result, ok, raise,
  pure, throw, or_raise, raise_if, ◌>>=◌, ◌>>◌,
}
use taxonomy_builder.Common.Uuid.{uuid_text}
use taxonomy_builder.Models.Snapshot.{
  SnapshotVocabulary, SnapshotScheme, SnapshotConcept, SnapshotClass, SnapshotProperty,
}
use taxonomy_builder.Models.Activity.{
  EntityType, concept, scheme, ontology_class, property, FeedbackStatus, opened, responded,
  resolved, declined, Feedback, PublishedVersion,
}
use taxonomy_builder.Models.Session.{Session}

pub record Reader : Type 0 where
  pub user_id : ℕ
  pub user_display_name : Text
  pub user_email : Text
  pub now : ℕ

pub data FeedbackError : Type 0 where
  version_not_found : ℕ → Text → FeedbackError
  entity_not_in_snapshot : Text → EntityType → FeedbackError
  feedback_not_found : ℕ → FeedbackError
  status_conflict : ℕ → FeedbackStatus → Text → FeedbackError

abbrev pub Service : Type 0 → Type 0
Service = Exec Session FeedbackError

pub record FeedbackCreate : Type 0 where
  pub snapshot_version : Text
  pub entity_type : EntityType
  pub entity_id : Text
  pub entity_label : Text
  pub feedback_type : Text
  pub content : Text

-- FEEDBACK_TYPES_CONCEPT_SCHEME and FEEDBACK_TYPES_CLASS_PROPERTY
abbrev types_concept_scheme : List Text
types_concept_scheme =
    text "unclear_definition"
    ∷ text "missing_term"
    ∷ text "scope_question"
    ∷ text "overlap_duplication"
    ∷ text "general_comment"
    ∷ []

abbrev types_class_property : List Text
types_class_property =
    text "incorrect_modelling"
    ∷ text "missing_relationship"
    ∷ text "structural_question"
    ∷ text "general_comment"
    ∷ []

-- FEEDBACK_TYPES_BY_ENTITY
abbrev pub feedback_types : EntityType → List Text
feedback_types concept = types_concept_scheme
feedback_types scheme = types_concept_scheme
feedback_types ontology_class = types_class_property
feedback_types property = types_class_property

-- the limits and the validators of FeedbackCreate: the content stripped, or `none` if the request is
-- refused
unfoldable pub validate_create : FeedbackCreate → Option FeedbackCreate
validate_create feedback_in =
    if ltb 500 (length feedback_in.entity_label)
      || ltb 100 (length feedback_in.feedback_type)
      || ltb 10000 (length feedback_in.content)
      || is_empty (strip feedback_in.content)
      || not (contains_text (feedback_types feedback_in.entity_type) feedback_in.feedback_type)
    then none
    else some (record feedback_in { content = strip feedback_in.content })

-- the label of the first row whose identifier prints as `entity_id`
module _ {A : Type 0} (id_of : A → ℕ) (label_of : A → Text) (entity_id : Text) where
  abbrev pub label_in : List A → Option Text
  label_in [] = none
  label_in (x ∷ rows) =
      if text_eq (uuid_text (id_of x)) entity_id then some (label_of x) else label_in rows

abbrev concept_label : Text → List SnapshotConcept → Option Text
concept_label = label_in (λ c. c.id) (λ c. c.pref_label)

abbrev first_some : Option Text → Option Text → Option Text
first_some none other = other
first_some (some t) other = some t

-- the two loops over the schemes and their concepts
abbrev pub concept_label_in : Text → List SnapshotScheme → Option Text
concept_label_in entity_id [] = none
concept_label_in entity_id (s ∷ schemes) =
    first_some (concept_label entity_id s.concepts) (concept_label_in entity_id schemes)

-- `_find_entity_label`
unfoldable pub find_entity_label : SnapshotVocabulary → EntityType → Text → Option Text
find_entity_label snapshot concept entity_id = concept_label_in entity_id snapshot.concept_schemes
find_entity_label snapshot scheme entity_id =
    label_in (λ s. s.id) (λ s. s.title) entity_id snapshot.concept_schemes
find_entity_label snapshot ontology_class entity_id =
    label_in (λ c. c.id) (λ c. c.label) entity_id snapshot.classes
find_entity_label snapshot property entity_id =
    label_in (λ p. p.id) (λ p. p.label) entity_id snapshot.properties

abbrev pub is_none : {A : Type 0} → Option A → Bool
is_none none = true
is_none (some x) = false

-- the row of that id, if it is not deleted
abbrev pub is_live : ℕ → Feedback → Bool
is_live feedback_id fb = fb.id == feedback_id && is_none fb.deleted_at

-- `get`
pub get : ℕ → Service Feedback
get feedback_id s =
    or_raise (feedback_not_found feedback_id) (find (is_live feedback_id) s.feedback) s

pub get_published_version : ℕ → Text → Service PublishedVersion
get_published_version project_id version s =
    or_raise (version_not_found project_id version)
      (find (λ v. v.project_id == project_id && text_eq v.version version) s.versions) s

-- the flush of a changed row
abbrev pub replace_feedback : Feedback → List Feedback → List Feedback
replace_feedback row [] = []
replace_feedback row (x ∷ rows) =
    if x.id == row.id then row ∷ replace_feedback row rows else x ∷ replace_feedback row rows

abbrev pub with_feedback : List Feedback → Session → Session
with_feedback rows s = record s { tables = record s.tables { feedback = rows } }

pub write_feedback : Feedback → Service Feedback
write_feedback row s = (ok row, with_feedback (replace_feedback row s.feedback) s)

pub insert_feedback : Feedback → Service Feedback
insert_feedback row s = (ok row, with_feedback (s.feedback ++ row ∷ []) s)

-- `fb.status in (resolved, declined)`
abbrev pub is_closed : FeedbackStatus → Bool
is_closed opened = false
is_closed responded = false
is_closed resolved = true
is_closed declined = true

module _ (reader : Reader) where
  abbrev pub new_feedback : ℕ → ℕ → FeedbackCreate → Text → Feedback
  new_feedback new_id project_id feedback_in entity_label = record {
    id = new_id;
    project_id = project_id;
    snapshot_version = feedback_in.snapshot_version;
    entity_type = feedback_in.entity_type;
    entity_id = feedback_in.entity_id;
    entity_label = entity_label;
    feedback_type = feedback_in.feedback_type;
    content = feedback_in.content;
    user_id = reader.user_id;
    author_name = reader.user_display_name;
    author_email = reader.user_email;
    status = opened;
    response_content = none;
    responded_by = none;
    responded_by_name = none;
    responded_at = none;
    status_changed_at = none;
    status_changed_by = none;
    created_at = reader.now;
    deleted_at = none;
  }

  unfoldable pub create : ℕ → ℕ → FeedbackCreate → Service Feedback
  unfolding get_published_version find_entity_label insert_feedback
  create new_id project_id feedback_in = do
    pv ← get_published_version project_id feedback_in.snapshot_version
    entity_label ←
        or_raise (entity_not_in_snapshot feedback_in.entity_id feedback_in.entity_type)
          (find_entity_label pv.snapshot feedback_in.entity_type feedback_in.entity_id)
    insert_feedback (new_feedback new_id project_id feedback_in entity_label)

  -- the row of that id that is the reader's own
  abbrev pub is_own : ℕ → Feedback → Bool
  is_own feedback_id fb =
      fb.id == feedback_id && fb.user_id == reader.user_id && is_none fb.deleted_at

  -- the query of `delete`
  pub get_own : ℕ → Service Feedback
  get_own feedback_id s =
      or_raise (feedback_not_found feedback_id) (find (is_own feedback_id) s.feedback) s

  unfoldable pub delete : ℕ → Service (Unit {0})
  unfolding get_own write_feedback
  delete feedback_id = do
    fb ← get_own feedback_id
    write_feedback (record fb { deleted_at = some reader.now })
    pure tt

  -- `_set_response`
  abbrev pub set_response : Text → Feedback → Feedback
  set_response content fb = record fb {
    response_content = some content;
    responded_by = some reader.user_id;
    responded_by_name = some reader.user_display_name;
    responded_at = some reader.now;
  }

  unfoldable pub respond : ℕ → Text → Service Feedback
  unfolding get write_feedback
  respond feedback_id content = do
    fb ← get feedback_id
    raise_if (is_closed fb.status) (status_conflict feedback_id fb.status (text "respond to"))
    write_feedback (record (set_response content fb) { status = responded })

  -- `if content: self._set_response(fb, content)`
  abbrev pub respond_if : Option Text → Feedback → Feedback
  respond_if none fb = fb
  respond_if (some content) fb = if is_empty content then fb else set_response content fb

  abbrev pub close_with : FeedbackStatus → Feedback → Feedback
  close_with new_status fb = record fb {
    status = new_status;
    status_changed_at = some reader.now;
    status_changed_by = some reader.user_id;
  }

  -- `_triage`
  unfoldable pub triage : ℕ → FeedbackStatus → Option Text → Service Feedback
  unfolding get write_feedback
  triage feedback_id new_status content = do
    fb ← get feedback_id
    write_feedback (respond_if content (close_with new_status fb))

  abbrev pub resolve : ℕ → Option Text → Service Feedback
  resolve feedback_id content = triage feedback_id resolved content

  abbrev pub decline : ℕ → Option Text → Service Feedback
  decline feedback_id content = triage feedback_id declined content
