-- ===== src/Upload/Schemas.antt =====
-- The schemas of website/src/features/upload: what is read of the objects of one kind.
pub mod Hpa
pub mod Storage
pub mod Images
pub mod PodRuntime
pub mod NodeStatus
pub mod Workload
pub mod ConfigMap
pub mod CustomReferences
pub mod Installed
