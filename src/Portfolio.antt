-- ===== src/Portfolio.antt =====
-- The portfolio: the ledger of fills and the figures drawn from it (src/poly_meridian/portfolio).
pub mod Ledger
pub mod Pnl
