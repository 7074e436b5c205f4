-- ===== src/Engine.antt =====
-- The inspection engine: its state and the calls that change it, and the workers that must not
-- overlap.
pub mod Rows
pub mod State
pub mod Start
pub mod Plan
pub mod Run
pub mod Jobs
pub mod Slot
pub mod Owner
pub mod Unban
pub mod Outcome
