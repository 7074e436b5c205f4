-- ===== src/Ban.antt =====
-- The automatic ban pool: what a failed request says of its account, the pool and its file, the
-- queue that disables accounts in CPA, and the loop that restores them.
pub mod Evidence
pub mod Headers
pub mod Detector
pub mod Store
pub mod Queue
pub mod Save
pub mod Persist
pub mod Scheduler
pub mod Disposal
pub mod Aliases
