-- ===== src/App.antt =====
-- The application layer, src/application: services that keep state.
pub mod Sessions
pub mod Placement
pub mod Retrieval
pub mod Migrations
pub mod Commands
pub mod Resets
