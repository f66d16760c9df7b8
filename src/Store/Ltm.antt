-- ===== src/Store/Ltm.antt =====
-- src/infrastructure/ltm_repository.rs: the tables of the knowledge tree and the statements on
-- them. A table is the list of its rows in rowid order, which is the order of `ORDER BY id`; ids
-- come from AUTOINCREMENT; `clock` is what CURRENT_TIMESTAMP reads. Foreign keys are enforced, and
-- a statement that breaks one is an error, `none`, which leaves the store.
pub mod Rows
pub mod Queries
pub mod Writes
pub mod Tables
pub mod Integrity
pub mod Spine
pub mod Similar
