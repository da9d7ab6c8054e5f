-- ===== src/Tests.antt =====
-- Concrete runs: a small project, and one application of each theorem that has hypotheses.
mod Concepts
mod Versions
mod Feedbacks
mod Comments
mod Projects
mod Snapshots
pub mod Properties
mod Rdf
mod Schemes
mod Imports
mod Publishing
use taxonomy_builder.Common.{
  ℕ, ◌≡◌, refl, Bool, true, false, Text, text, Option, none, some, List, [], ◌∷◌,
}
use taxonomy_builder.Models.Vocabulary.{
  Project, ConceptScheme, Concept, ConceptBroader, ConceptRelated,
}
use taxonomy_builder.Models.Session.{Db}
use taxonomy_builder.Tracker.{Actor}

abbrev pub actor : Actor
actor = record { user_id = some 5; now = 100 }

abbrev pub project : Project
project = record {
  id = 9;
  name = text "Evidence";
  description = none;
  namespace = text "http://example.org/v/";
  created_at = 1;
  updated_at = 1;
  identifier_prefix = text "EV";
  identifier_counter = 12;
  namespace_prefixes = [];
  named_individuals = [];
}

abbrev pub scheme : ConceptScheme
scheme = record {
  id = 1;
  project_id = 9;
  title = text "Settings";
  description = none;
  uri = some (text "http://example.org/v/settings");
  created_at = 2;
  updated_at = 2;
}

abbrev pub concept_of : ℕ → Text → Text → Concept
concept_of id identifier label = record {
  id = id;
  scheme_id = 1;
  identifier = identifier;
  pref_label = label;
  definition = none;
  scope_note = none;
  alt_labels = [];
  concept_type_uris = [];
  created_at = 3;
  updated_at = 3;
}

abbrev pub place : Concept
place = concept_of 10 (text "EV000010") (text "Place")

abbrev pub school : Concept
school = concept_of 11 (text "EV000011") (text "School")

abbrev pub nursery : Concept
nursery = concept_of 12 (text "EV000012") (text "Nursery")

abbrev pub under : ℕ → ℕ → ConceptBroader
under c b = record { concept_id = c; broader_concept_id = b }

abbrev pub link : ℕ → ℕ → ConceptRelated
link c d = record { concept_id = c; related_concept_id = d }

-- three concepts: a school is a place, a nursery is a school, and the nursery is related to the place
abbrev pub db : Db
db = record {
  projects = project ∷ [];
  schemes = scheme ∷ [];
  concepts = place ∷ school ∷ nursery ∷ [];
  broader = under 11 10 ∷ under 12 11 ∷ [];
  related = link 10 12 ∷ [];
  classes = [];
  superclasses = [];
  restrictions = [];
  properties = [];
  domain_classes = [];
  events = [];
  versions = [];
  feedback = [];
  comments = [];
  users = [];
}
