-- ===== src/Resources.antt =====
-- The resource explorer: website/src/features/resources.
pub mod Coordinator
pub mod Presets
pub mod List
