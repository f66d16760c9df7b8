-- ===== src/Domain/Ranking.antt =====
-- src/domain/ranking.rs: the keyword query builder and reciprocal rank fusion.
pub mod StopWords
pub mod Query
pub mod Fusion
