-- ===== src/Router.antt =====
-- Routing.
pub mod Trie
pub mod Config
pub mod Snapshot
pub mod Coordinator
pub mod SnapshotTries
pub mod Routing
pub mod Provenance
pub mod Publication
pub mod Configuration
mod Tests
