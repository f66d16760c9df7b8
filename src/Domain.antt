-- ===== src/Domain.antt =====
-- The domain layer, src/domain: pure decisions over memories, with no storage.
pub mod Tuning
pub mod Decay
pub mod Thresholds
pub mod Ranking
pub mod Resolver
pub mod Ltm
