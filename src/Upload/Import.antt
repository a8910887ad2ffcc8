-- ===== src/Upload/Import.antt =====
-- website/src/features/upload/importTopologySnapshot.ts: a topology from untrusted JSON. The one
-- error that the source throws, invalid_topology_json, is `none`.
pub mod Values
pub mod Summary
pub mod Snapshot
pub mod Safe
pub mod Hidden
pub mod Integrity
