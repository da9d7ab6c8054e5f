-- ===== src/Tracker.antt =====
-- The audit log: `ChangeTracker` of backend/src/taxonomy_builder/services/change_tracker.py. The
-- clock's reading `now` is an argument.
use taxonomy_builder.Common.{ℕ, Text, text, Option, none, some, [], ◌∷◌, ◌++◌, Exec, ok}
use taxonomy_builder.Models.Vocabulary.{Concept, ConceptScheme}
use taxonomy_builder.Models.Activity.{Json, State, ChangeEvent}
use taxonomy_builder.Models.Session.{Session}

abbrev pub text_or_null : Option Text → Json
text_or_null none = Json.null
text_or_null (some t) = Json.string t

-- who acts and when
pub record Actor : Type 0 where
  pub user_id : Option ℕ
  pub now : ℕ

abbrev pub event :
    Actor → ℕ → Text → ℕ → Text → Option State → Option State → Option ℕ → ChangeEvent
event a project_id entity_type entity_id action before after scheme_id = record {
  timestamp = a.now;
  user_id = a.user_id;
  entity_type = entity_type;
  entity_id = entity_id;
  project_id = some project_id;
  scheme_id = scheme_id;
  action = action;
  before_state = before;
  after_state = after;
}

-- `record`
abbrev pub record_change : {E : Type 0} → ChangeEvent → Exec Session E (Unit {0})
record_change e s = (ok tt, record s { tables = record s.tables { events = s.events ++ e ∷ [] } })

unfoldable pub serialize_concept : Concept → State
serialize_concept c =
    (text "id", Json.uuid c.id)
    ∷ (text "pref_label", Json.string c.pref_label)
    ∷ (text "identifier", Json.string c.identifier)
    ∷ (text "definition", text_or_null c.definition)
    ∷ (text "scope_note", text_or_null c.scope_note)
    ∷ (text "alt_labels", Json.strings c.alt_labels)
    ∷ []

unfoldable pub serialize_scheme : ConceptScheme → State
serialize_scheme scheme =
    (text "id", Json.uuid scheme.id)
    ∷ (text "title", Json.string scheme.title)
    ∷ (text "description", text_or_null scheme.description)
    ∷ (text "uri", text_or_null scheme.uri)
    ∷ []

unfoldable pub serialize_broader : ℕ → ℕ → Text → Text → State
serialize_broader concept_id broader_concept_id concept_label broader_label =
    (text "concept_id", Json.uuid concept_id)
    ∷ (text "broader_concept_id", Json.uuid broader_concept_id)
    ∷ (text "concept_label", Json.string concept_label)
    ∷ (text "broader_label", Json.string broader_label)
    ∷ []

unfoldable pub serialize_related : ℕ → ℕ → Text → Text → State
serialize_related concept_id related_concept_id concept_label related_label =
    (text "concept_id", Json.uuid concept_id)
    ∷ (text "related_concept_id", Json.uuid related_concept_id)
    ∷ (text "concept_label", Json.string concept_label)
    ∷ (text "related_label", Json.string related_label)
    ∷ []
