-- ===== src/Tests/Feedbacks.antt =====
-- The theorems about feedback at a reader, a manager and one open piece of feedback.
use taxonomy_builder.Common.{◌≡◌, refl, Bool, false, none, Text, text, [], ◌∷◌}
use taxonomy_builder.Common.Uuid.{uuid_text}
use taxonomy_builder.Models.Activity.{EntityType, Feedback}
use taxonomy_builder.Models.Session.{Db, request}
use taxonomy_builder.Feedbacks.{
  Reader, FeedbackCreate, new_feedback, create, delete, respond, resolve, decline,
}
use taxonomy_builder.Feedbacks.WellFormed.{AllWellFormed, feedback-AllWellFormed}
use taxonomy_builder.Tests.{db}

abbrev reader : Reader
reader = record {
  user_id = 5;
  user_display_name = text "Ada";
  user_email = text "ada@example.org";
  now = 100;
}

abbrev manager : Reader
manager = record reader { user_id = 6; now = 200 }

abbrev question : FeedbackCreate
question = record {
  snapshot_version = text "1.0";
  entity_type = EntityType.concept;
  entity_id = uuid_text 10;
  entity_label = text "Place";
  feedback_type = text "unclear_definition";
  content = text " What is a place? ";
}

-- the identifier as Python prints it
ten : uuid_text 10 ≡ text "00000000-0000-0000-0000-00000000000a"
unfolding uuid_text
ten = refl

abbrev asked : Feedback
asked = new_feedback reader 70 9 question (text "Place")

abbrev asked_db : Db
asked_db = record db { feedback = asked ∷ [] }

feedback-AllWellFormed_example :
    AllWellFormed (request (create reader 70 9 question) asked_db).1
    × AllWellFormed (request (respond reader 70 (text "A location")) asked_db).1
    × AllWellFormed (request (resolve reader 70 none) asked_db).1
    × AllWellFormed (request (decline reader 70 none) asked_db).1
    × AllWellFormed (request (delete reader 70) asked_db).1
feedback-AllWellFormed_example =
    feedback-AllWellFormed reader asked_db 70 9 question (text "A location") none refl

abbrev never : Text → Text → Bool
never pattern t = false
