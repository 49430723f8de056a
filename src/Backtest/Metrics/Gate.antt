-- ===== src/Backtest/Metrics/Gate.antt =====
-- src/poly_meridian/backtest/metrics.py: the gate of live trading.
use poly_meridian.Prelude.{◌≡◌, ◌↔◌, true, arith, leb}
use poly_meridian.Num.{Num, ◌<?◌, lit}
use poly_meridian.Backtest.Metrics.{PerformanceMetrics, meets_live_gate, gate_failures}

module _ {F : Type 0} ⦃nf : Num F⦄ where
  -- The thresholds of going live: a Sharpe ratio above 1.5, a drawdown below a quarter, more than
  -- 52 % of the trades won, and 200 trades.
  unfoldable pub IsReady : PerformanceMetrics F → Type 0
  IsReady m =
      ((lit 15 1 <? m.sharpe) ≡ true)
      × ((m.max_drawdown <? lit 25 2) ≡ true)
      × ((lit 52 2 <? m.win_rate) ≡ true)
      × (leb 200 m.trade_count ≡ true)

  -- The gate passes exactly when all four thresholds are met.
  pub meets_live_gate-IsReady :
      (m : PerformanceMetrics F) → ((meets_live_gate m).0 ≡ true) ↔ IsReady m
  unfolding meets_live_gate gate_failures IsReady
  meets_live_gate-IsReady m = ground (
    arith,
    nf.le_not_lt m.sharpe (lit 15 1),
    nf.le_not_lt (lit 25 2) m.max_drawdown,
    nf.le_not_lt m.win_rate (lit 52 2),
  )
