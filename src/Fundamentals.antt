-- ===== src/Fundamentals.antt =====
-- The resolvers of the categories and the record of resolved predictions (src/poly_meridian/fundamentals).
pub mod Calibration
pub mod Resolvers
pub mod Forecasts
