-- ===== src/Tests.antt =====
-- Concrete runs: each theorem applied where its hypotheses hold, and values of the operations.
mod Data
mod Coordinator
mod Selectors
mod Lists
mod Presets
mod Histories
mod Comparisons
mod Imports
mod Uploads
mod Schemas
mod Nodes
