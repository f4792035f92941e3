-- ===== src/Revocation.antt =====
-- internal/revocation/revocation.go: the snapshot, its file, the writer and the reader.
pub mod Snapshot
pub mod File
pub mod Writer
pub mod Reader
pub mod Published
pub mod Kept
pub mod Revoke
pub mod Sample
mod Tests
