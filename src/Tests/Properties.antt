-- ===== src/Tests/Properties.antt =====
-- The theorem about properties at a project with one property.
use taxonomy_builder.Common.{
  List, Text, ok, ◌≡◌, refl, true, false, none, some, text, [], ◌∷◌, ◌==◌, any,
}
use taxonomy_builder.Models.Vocabulary.{OntologyClass, Property}
use taxonomy_builder.Models.Session.{Db, Session, request}
use taxonomy_builder.Properties.{resolve_domain_class_uris, PropertyCreate, create_property}
use taxonomy_builder.Properties.Edit.{PropertyUpdate, update_property, delete_property}
use taxonomy_builder.Properties.Domain.{Outcome, resolve-Outcome}
use taxonomy_builder.Properties.Ranges.{AllRanged}
use taxonomy_builder.Properties.Kept.{write-AllRanged}
use taxonomy_builder.Tests.{actor, db}

abbrev pub setting : Property
setting = record {
  id = 40;
  project_id = 9;
  identifier = text "setting";
  label = text "Setting";
  description = none;
  range_scheme_id = some 1;
  range_datatype = none;
  range_class = none;
  cardinality = text "single";
  property_type = text "object";
  required = false;
  uri = text "http://example.org/v/setting";
  created_at = 4;
  updated_at = 4;
}

abbrev pub study : OntologyClass
study = record {
  id = 30;
  project_id = 9;
  identifier = text "study";
  label = text "Study";
  description = none;
  scope_note = none;
  uri = text "http://example.org/v/study";
  created_at = 3;
  updated_at = 3;
}

abbrev pub properties_db : Db
properties_db = record db { properties = setting ∷ []; classes = study ∷ [] }

abbrev with_year : PropertyCreate
with_year = record {
  identifier = text "year";
  label = text "Year";
  description = none;
  domain_class_uris = text "http://example.org/v/study" ∷ [];
  range_scheme_id = none;
  range_datatype = some (text "xsd:integer");
  range_class = none;
  cardinality = text "single";
  required = false;
  uri = some (text "http://example.org/v/year");
}

-- the range becomes a datatype
abbrev as_text : PropertyUpdate
as_text = record {
  identifier = none;
  label = none;
  description = none;
  domain_class_uris = none;
  range_scheme_id = some none;
  range_datatype = some (some (text "xsd:string"));
  range_class = none;
  cardinality = none;
  required = none;
}

created_example :
    any
      (λ p. p.id == 41)
      (request (create_property actor 41 9 with_year) properties_db).1.properties
    ≡ true
unfolding request create_property
created_example = refl

write-AllRanged_example :
    AllRanged (request (create_property actor 41 9 with_year) properties_db).1
    × AllRanged (request (update_property actor 40 as_text) properties_db).1
    × AllRanged (request (delete_property actor 40) properties_db).1
write-AllRanged_example = write-AllRanged actor properties_db 41 9 40 with_year as_text refl

abbrev asked : List Text
asked =
    text "http://example.org/v/study"
    ∷ text "http://example.org/v/arm"
    ∷ text "http://example.org/v/study"
    ∷ []

abbrev arm : OntologyClass
arm = record study { id = 31; identifier = text "arm"; uri = text "http://example.org/v/arm" }

abbrev two_classes : Session
two_classes = record {
  tables = record properties_db { classes = study ∷ arm ∷ [] };
  committed = properties_db;
}

resolved_once : (resolve_domain_class_uris 9 asked two_classes).0 ≡ ok (30 ∷ 31 ∷ [])
unfolding resolve_domain_class_uris
resolved_once = refl

resolve-Outcome_example :
    Outcome two_classes.classes 9 asked (resolve_domain_class_uris 9 asked two_classes).0
resolve-Outcome_example = resolve-Outcome two_classes 9 asked (refl, (refl, tt))
