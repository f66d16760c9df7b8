-- ===== src/Store.antt =====
-- The SQLite stores, src/infrastructure: tables as lists in rowid order, statements as functions.
pub mod Ltm
pub mod Memory
pub mod Schema
pub mod Codec
