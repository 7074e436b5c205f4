-- ===== src/Inspect.antt =====
-- The inspection of accounts: which are probed, what a probe's answer means, and what is advised.
pub mod Classify
pub mod Sample
pub mod Version
