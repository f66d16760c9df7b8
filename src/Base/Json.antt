-- ===== src/Base/Json.antt =====
-- JSON values as the program reads and writes them: objects are kept sorted by key, as the
-- `BTreeMap` behind an object does.
pub mod Value
pub mod Equality
