-- ===== src/Risk.antt =====
-- The risk gate between the aggregator and the executor (src/poly_meridian/risk).
pub mod KillSwitch
pub mod Limits
pub mod Policy
pub mod Kelly
