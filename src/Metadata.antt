-- ===== src/Metadata.antt =====
-- internal/metadata: the SQLite store and the sync worker.
pub mod Record
pub mod Store
pub mod Sync
pub mod Worker
pub mod Stats
