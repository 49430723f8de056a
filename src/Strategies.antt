-- ===== src/Strategies.antt =====
-- Strategies (src/poly_meridian/strategies).
pub mod StatQuant
pub mod Arbitrage
pub mod Sentiment
pub mod SmartMoney
pub mod ClusterBuilder
pub mod Fundamentals
