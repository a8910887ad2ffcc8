-- ===== src/Topology.antt =====
-- The topology: its data types and the filters of the views.
pub mod Types
