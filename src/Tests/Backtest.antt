-- ===== src/Tests/Backtest.antt =====
-- Folds, drawdown and the promotion gate on concrete data.
use poly_meridian.Prelude.{◌≡◌, refl, ℕ, true, none, some, [], ◌∷◌, String, map, string_eq, arith}
use poly_meridian.Num.{lit}
use poly_meridian.Num.Fixed.{ℤ, pos, fixed, fixed_convert}
use poly_meridian.Book.{max_from}
use poly_meridian.Backtest.Metrics.{
  max_drawdown, drawdown_from, compute_all, returns_from_equity, sharpe_ratio, volatility,
  trading_periods_per_year,
}
use poly_meridian.Backtest.Metrics.Drawdown.{declines, max_drawdown-declines}
use poly_meridian.Backtest.Folds.{make_folds, days}
use poly_meridian.Backtest.Folds.Layout.{IsLaid, make_folds-IsLaid}
use poly_meridian.Promotion.{
  Evidence, GateConfig, fetched, evidence, run_gate, check_paper_history_age, check_paper_metrics,
  metrics_pass, check_drill, drill_done, check_alerting, check_initial_cap_ratio,
}
use poly_meridian.Promotion.Closed.{IsPromotable, run_gate-IsPromotable}
use poly_meridian.Tests.{fixed_clock}
use poly_meridian.Tests.Strategies.{maths}

-- Ten days, with folds of four days of training and two of testing.
make_folds-IsLaid_example :
    IsLaid
      (make_folds 864000000002 0 864000000000 4 2 none)
      864000000000
      (days 4)
      (days 4)
      (days 2)
      (days 2)
      0
make_folds-IsLaid_example = make_folds-IsLaid 0 864000000000 4 2 none (omega arith) (omega arith)

max_drawdown-declines_example :
    max_drawdown (pos 10000 ∷ pos 20000 ∷ pos 15000 ∷ [])
    ≡ max_from (lit 0 0) (declines (pos 10000 ∷ []) (pos 20000 ∷ pos 15000 ∷ []))
max_drawdown-declines_example = max_drawdown-declines (pos 10000) (pos 20000 ∷ pos 15000 ∷ [])

-- Forty days after the first order: seven days at a constant value, every drill done the day before,
-- and a proposal of 500 on a paper value of 10000.
abbrev gate_evidence : Evidence ℤ ℤ
gate_evidence = record {
  oldest_order = fetched (some 0);
  pnl_daily =
      fetched (map (λ (d : ℕ). (days d, pos 100000000)) (33 ∷ 34 ∷ 35 ∷ 36 ∷ 37 ∷ 38 ∷ 39 ∷ []));
  paper_nav = fetched (some (pos 100000000));
  drill = λ (name : String). evidence true (some (days 39));
  slack_webhook_url = "https://hooks.example.org";
  telegram_bot_token = "";
  telegram_chat_id = "";
}

abbrev gate_config : GateConfig ℤ ℤ
gate_config = record {
  proposed_live_usd = pos 5000000;
  min_paper_days = 30;
  min_sharpe = pos 0;
  max_drawdown = pos 2000;
}

run_gate-IsPromotable_example : IsPromotable maths (days 40) gate_evidence gate_config
unfolding run_gate check_paper_history_age check_paper_metrics metrics_pass check_drill drill_done
    check_alerting check_initial_cap_ratio compute_all max_drawdown drawdown_from
    returns_from_equity sharpe_ratio volatility trading_periods_per_year
run_gate-IsPromotable_example = run_gate-IsPromotable maths (days 40) gate_evidence gate_config refl
