-- ===== src/Schedule.antt =====
-- The schedule of the inspections: its settings and their file, the accounts that a scheduled run acts
-- on.
pub mod Settings
pub mod Store
pub mod Targets
pub mod Progress
pub mod Dispose
