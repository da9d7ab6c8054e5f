-- ===== src/Rdf.antt =====
-- backend/src/taxonomy_builder/services/rdf_parser.py.
pub mod Graph
pub mod Uris
pub mod Concepts
pub mod Classes
pub mod Unions
pub mod PropertyData
pub mod Issues
pub mod Validation
pub mod Analysis
pub mod Cycles
