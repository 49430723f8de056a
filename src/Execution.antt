-- ===== src/Execution.antt =====
-- Order execution: fees, the book walk, the paper executor, routing and exits
-- (src/poly_meridian/execution).
pub mod Fees
pub mod Walk
pub mod Slippage
pub mod Paper
pub mod Router
pub mod Exit
pub mod Live
pub mod Contract
