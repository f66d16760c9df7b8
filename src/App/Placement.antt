-- ===== src/App/Placement.antt =====
-- src/application/ltm_placement.rs: where a document is filed, how it is replaced and forgotten, and
-- the summaries of the nodes that hold documents.
pub mod Summaries
pub mod Choice
pub mod RollUp
pub mod Filing
pub mod Spine
