-- ===== src/Tests/Schemes.antt =====
-- The theorems about schemes and classes at the small project.
use taxonomy_builder.Common.{◌≡◌, refl, none, some, text, [], ◌∷◌, raise}
use taxonomy_builder.Models.Session.{Db, request}
use taxonomy_builder.Classes.{class_referenced_by_property, delete_ontology_class}
use taxonomy_builder.Classes.References.{Outcome, delete_ontology_class-Outcome}
use taxonomy_builder.Schemes.{
  ConceptSchemeCreate, ConceptSchemeUpdate, scheme_referenced_by_property, create_scheme,
  update_scheme, delete_scheme,
}
use taxonomy_builder.Schemes.Resolved.{IsResolved, write-IsResolved}
use taxonomy_builder.Tests.{actor}
use taxonomy_builder.Tests.Properties.{properties_db}

abbrev outcomes : ConceptSchemeCreate
outcomes = record { title = text "Outcomes"; description = none; uri = none }

abbrev renamed : ConceptSchemeUpdate
renamed = record { title = some (text "Places"); description = none; uri = none }

-- the scheme is the range of a property
range_restricts :
    (request (delete_scheme actor 1) properties_db).0
    ≡ raise (scheme_referenced_by_property 1 (text "Settings"))
unfolding request delete_scheme
range_restricts = refl

properties_db-IsResolved : IsResolved properties_db
properties_db-IsResolved = record { concepts = refl; ranges = refl; broader = refl; related = refl }

write-IsResolved_example :
    IsResolved (request (create_scheme actor 2 9 outcomes) properties_db).1
    × IsResolved (request (update_scheme actor 1 renamed) properties_db).1
    × IsResolved (request (delete_scheme actor 1) properties_db).1
write-IsResolved_example =
    write-IsResolved actor properties_db 2 9 1 outcomes renamed properties_db-IsResolved

abbrev in_use : Db
in_use = record properties_db { domain_classes = record { property_id = 40; class_id = 30 } ∷ [] }

domain_refuses :
    (request (delete_ontology_class actor 30) in_use).0
    ≡ raise (class_referenced_by_property 30 (text "Study"))
unfolding request delete_ontology_class
domain_refuses = refl

delete_ontology_class-Outcome_example :
    Outcome properties_db 30 (request (delete_ontology_class actor 30) properties_db)
delete_ontology_class-Outcome_example =
    delete_ontology_class-Outcome actor properties_db 30 (refl, tt) refl
