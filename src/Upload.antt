-- ===== src/Upload.antt =====
-- The parsers of uploaded manifests and snapshots: website/src/features/upload.
pub mod Names
pub mod LabelSelector
pub mod Import
pub mod Object
pub mod Values
pub mod Schemas
pub mod Graph
pub mod Collect
