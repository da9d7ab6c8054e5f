-- ===== src/Models/Activity.antt =====
-- The tables of backend/src/taxonomy_builder/models that record what users do: the audit log,
-- published versions, feedback, comments and the users.
use taxonomy_builder.Common.{ℕ, Bool, Text, Option, List}
use taxonomy_builder.Models.Snapshot.{SnapshotVocabulary}

-- a value of a JSONB state of the audit log; `str(id)` of a UUID is `uuid`
pub data Json : Type 0 where
  null : Json
  uuid : ℕ → Json
  string : Text → Json
  strings : List Text → Json
  integer : ℕ → Json
  boolean : Bool → Json

abbrev pub State : Type 0
State = List (Text × Json)

pub record ChangeEvent : Type 0 where
  pub timestamp : ℕ
  pub user_id : Option ℕ
  pub entity_type : Text
  pub entity_id : ℕ
  pub project_id : Option ℕ
  pub scheme_id : Option ℕ
  pub action : Text
  pub before_state : Option State
  pub after_state : Option State

pub record PublishedVersion : Type 0 where
  pub id : ℕ
  pub project_id : ℕ
  pub version : Text
  pub title : Text
  pub notes : Option Text
  pub finalized : Bool
  pub published_at : ℕ
  pub previous_version_id : Option ℕ
  pub publisher : Option Text
  pub snapshot : SnapshotVocabulary

pub data EntityType : Type 0 where
  concept scheme ontology_class property : EntityType

pub data FeedbackStatus : Type 0 where
  opened responded resolved declined : FeedbackStatus

pub record Feedback : Type 0 where
  pub id : ℕ
  pub project_id : ℕ
  pub snapshot_version : Text
  pub entity_type : EntityType
  pub entity_id : Text
  pub entity_label : Text
  pub feedback_type : Text
  pub content : Text
  pub user_id : ℕ
  pub author_name : Text
  pub author_email : Text
  pub status : FeedbackStatus
  pub response_content : Option Text
  pub responded_by : Option ℕ
  pub responded_by_name : Option Text
  pub responded_at : Option ℕ
  pub status_changed_at : Option ℕ
  pub status_changed_by : Option ℕ
  pub created_at : ℕ
  pub deleted_at : Option ℕ

pub record Comment : Type 0 where
  pub id : ℕ
  pub concept_id : ℕ
  pub user_id : ℕ
  pub parent_comment_id : Option ℕ
  pub content : Text
  pub created_at : ℕ
  pub updated_at : ℕ
  pub deleted_at : Option ℕ
  pub resolved_at : Option ℕ
  pub resolved_by : Option ℕ

pub record User : Type 0 where
  pub id : ℕ
  pub keycloak_user_id : Text
  pub email : Text
  pub display_name : Text
  pub created_at : ℕ
  pub updated_at : ℕ
  pub last_login_at : Option ℕ
