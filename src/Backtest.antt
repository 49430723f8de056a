-- ===== src/Backtest.antt =====
-- Backtesting: folds, metrics and the replay (src/poly_meridian/backtest).
pub mod Metrics
pub mod Folds
