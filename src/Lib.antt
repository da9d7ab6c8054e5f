-- ===== src/Lib.antt =====
--
-- The backend of the taxonomy builder: projects hold concept schemes, concepts and an ontology of
-- classes and properties; users edit them, every edit is logged, and a project is published in
-- versions that hold a snapshot. The code is Python, in backend/src/taxonomy_builder.
--
-- Common is shared notation: tests, lists, strings, the actions on a session that may raise
-- (`Exec`), and their pre- and postconditions (`Triple`).
-- Models are the tables of models/*.py and the snapshot types of schemas/snapshot.py, one record
-- each with the columns as fields. Models/Session is the database of database.py: a session holds
-- the tables and what was last committed, a flush writes to the tables, a rollback goes back, and
-- `request` is what one request does to the database (`session`: commit, or rollback on an
-- exception). A unique constraint is a test that an insertion makes, a foreign key with ON DELETE
-- CASCADE a filter that a deletion applies.
-- Tracker is ChangeTracker of services/change_tracker.py.
-- Hierarchy is `_is_descendant` of services/concept_service.py, Concepts (with `get_tree` in
-- Concepts/Tree) the other methods of ConceptService with the validators of schemas/concept.py.
-- Each method is an action on the session, made of the parts that the code is made of; reads of
-- one row are `find` on the table.
-- Versions are version strings: the pattern and validator of schemas/publishing.py, and the sort
-- key of models/published_version.py, which PostgreSQL computes. Publishing is
-- services/publishing_service.py: the latest version, the lists of versions and the suggestion of
-- the next one, and in Publishing/Publish `publish` and `preview`. A row's key is computed from
-- its version string; equal keys keep the table's order.
-- Feedbacks is FeedbackService of services/feedback_service.py, Comments is CommentService of
-- services/comment_service.py.
-- Projects is services/project_service.py: the identifiers of a project, from its prefix and
-- counter, Projects/Input the schemas of schemas/project.py, and Projects/Edit and
-- Projects/Delete what creates, updates and deletes a project. A SELECT flushes what is pending,
-- as the session does by default.
-- Properties is PropertyService of services/property_service.py: the parts of create_property in
-- Properties, those of update_property and delete_property in Properties/Edit. An update is a
-- record of the fields that the request sets. The rows of the domain classes are those of
-- property_domain_class; a class is found by its URI, which is unique in a project.
-- Schemes is ConceptSchemeService of services/concept_scheme_service.py, Classes is
-- OntologyClassService of services/ontology_class_service.py.
-- Imports is SKOSImportService of services/skos_import_service.py: Classes, Schemes, Properties,
-- Execute and Preview are its steps, Growth counts the rows that they add. It reads a file by
-- Rdf, counts on by Projects, and writes the rows of a flush one by one. The id of a new row,
-- `str.lower`, rdflib's `parse` and what `urlparse` leaves to ipaddress and unicodedata are
-- parameters.
-- Snapshots is `validate_snapshot` of services/snapshot_service.py, which runs the validators of
-- schemas/snapshot.py: Pydantic collects the errors of all fields, and runs the validator of a
-- model only when its fields are valid. Snapshots/Build is `build_snapshot`, Snapshots/Diff is
-- `compute_diff` of the same file; Python's `str` of a field value is an argument.
-- Rdf is services/rdf_parser.py: Graph what is asked of rdflib, Uris and Concepts the helpers,
-- Classes and PropertyData the extraction, Unions the collections, Cycles the depth-first search
-- of `detect_superclass_cycles`, Issues and Validation `validate_graph`, Analysis
-- `analyze_graph`. A graph is a parameter: a record of the answers that rdflib gives. A Python
-- set is the list of its members in the order in which they came.
-- Tests holds a small project and an application of each theorem to it.
--
-- Fuel: the search of `_is_descendant` takes one step more than there are rows in
-- concept_broader, since every row is queued once at most; a node of `get_tree` (Concepts/Tree)
-- is no deeper than there are concepts in the scheme. A visit of `detect_superclass_cycles` takes
-- one step for each class, since a class is visited once; the loop over a collection two more
-- than there are triples, since a node that it has seen ends it. Both return `none` without fuel.
-- The search for a free title makes one more try than there are schemes.
--
-- Assumed: one request at a time (no two sessions interleave); the clock and the new UUIDs are
-- arguments. `str.lower` is an argument of the label validator, and ILIKE of the feedback search.
-- `\d` and `int` are modelled for ASCII digits. Not modelled: the HTTP and MCP layers and the
-- seed data, which call the services; the searches and the history, which only read; RDF input
-- and output through rdflib and the storage of files, with `publish_artifacts`, which hand their
-- work to those; the widths of columns; authentication with an external provider, and migrations.
pub mod Common
pub mod Models
pub mod Tracker
pub mod Hierarchy
pub mod Concepts
pub mod Versions
pub mod Publishing
pub mod Feedbacks
pub mod Comments
pub mod Projects
pub mod Properties
pub mod Schemes
pub mod Classes
pub mod Snapshots
pub mod Rdf
pub mod Imports
pub mod Tests
