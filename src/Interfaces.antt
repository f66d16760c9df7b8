-- ===== src/Interfaces.antt =====
-- The doors of the daemon, src/interfaces: what arrives on the message bus.
pub mod Commands
