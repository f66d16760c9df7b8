-- ===== src/Tests.antt =====
-- Witnesses and tests: the theorems at concrete inputs, and the model run on the inputs of the
-- program's own tests.
mod Floats
mod Unicode
mod Ranking
mod Settings
mod Memories
mod Tree
mod Windows
mod Placement
mod Stores
mod Recall
mod Upgrades
mod Commands
