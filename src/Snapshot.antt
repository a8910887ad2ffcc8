-- ===== src/Snapshot.antt =====
-- Snapshot history and comparison: website/src/features/snapshot.
pub mod Diff
pub mod Compare
pub mod History
pub mod View
