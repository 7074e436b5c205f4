-- ===== src/Host.antt =====
-- The calls into the host process.
pub mod Gate
