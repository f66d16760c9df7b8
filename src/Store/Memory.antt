-- ===== src/Store/Memory.antt =====
-- src/infrastructure/repository: the tables of short-term memory and the statements on them. A
-- table is the list of its rows in rowid order, which is the order of `ORDER BY id`.
pub mod Rows
pub mod Lifecycle
pub mod Graph
pub mod Sweep
pub mod Deletion
pub mod Index
