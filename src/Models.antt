-- ===== src/Models.antt =====
-- The data model: the tables, the snapshot types and the session.
pub mod Vocabulary
pub mod Snapshot
pub mod Activity
pub mod Session
