-- ===== src/Examples.antt =====
-- Concrete inputs at which the theorems apply.
mod Jobs
mod Pool
mod Probes
mod Turns
