-- ===== src/Tests/Risk.antt =====
-- The gate on concrete signals.
use poly_meridian.Prelude.{
  string_eq, ◌≡◌, refl, ◌↔◌, inr, none, some, [], ◌∷◌, arith, All, if◌then◌else◌,
}
use poly_meridian.Prelude.Dict.{get}
use poly_meridian.Num.Fixed.{ℤ, pos, negsuc, fixed, fixed_quantize, fixed_convert}
use poly_meridian.Domain.{TradeDecision, Side, OrderType}
use poly_meridian.Risk.Policy.{
  type_error, decided, observed, approve, reject, evaluate, verdict, size_verdict, reduce_or_refuse,
  register_market, size, used_size_pct, sized_decision,
}
use poly_meridian.Risk.Limits.{
  check_market_liquidity, check_daily_loss, check_total_exposure, check_category_exposure,
  check_open_position_count, check_entry_price_band, check_same_condition, check_same_event,
  check_position_size_cap,
}
use poly_meridian.Risk.KillSwitch.{observe_daily_pnl}
use poly_meridian.Risk.Policy.Gate.{Admissible}
use poly_meridian.Risk.Policy.Decisions.{SizeFits, Reduction, evaluate-approve_iff, evaluate-reduce}
use poly_meridian.Risk.Policy.Switch.{evaluate_all, evaluate_all-raises}
use poly_meridian.Risk.Policy.Condition.{evaluate_no_hedge}
use poly_meridian.Pipeline.{gate}
use poly_meridian.Pipeline.Fractions.{Throttles, IsSettled, Sized}
use poly_meridian.Pipeline.Sizing.{gate_all, gate-Sized, gate_all-IsSettled}
use poly_meridian.Tests.{signal, large_signal, portfolio, losing_portfolio, no_position, policy}

evaluate-approve_iff_example :
    ((evaluate (pos 0) signal portfolio policy).0 ≡ decided approve)
    ↔ (Admissible policy signal portfolio × SizeFits policy.limits signal portfolio)
unfolding observe_daily_pnl
evaluate-approve_iff_example = evaluate-approve_iff (pos 0) signal portfolio policy

evaluate-reduce_example :
    Admissible policy large_signal portfolio
    × ((r : ℤ) × (get "election" (evaluate (pos 0) large_signal portfolio policy).1.reduced_size_pct
          ≡ some r)
        × Reduction policy.limits large_signal portfolio r)
unfolding evaluate verdict size_verdict reduce_or_refuse observe_daily_pnl check_market_liquidity
    check_daily_loss check_total_exposure check_category_exposure check_open_position_count
    check_entry_price_band check_same_condition check_same_event check_position_size_cap
evaluate-reduce_example = evaluate-reduce (pos 0) large_signal portfolio policy refl

evaluate_all-raises_example :
    All
      (λ d. d ≡ type_error)
      (evaluate_all
        (record { now = pos 0; signal = signal; portfolio = losing_portfolio }
          ∷ record { now = pos 10000; signal = signal; portfolio = portfolio }
          ∷ [])
        policy)
evaluate_all-raises_example =
    evaluate_all-raises (record { now = pos 0; signal = signal; portfolio = losing_portfolio })
      (record { now = pos 10000; signal = signal; portfolio = portfolio } ∷ []) policy refl

evaluate_no_hedge_example :
    (evaluate
      (pos 0)
      signal
      (record portfolio { positions = no_position ∷ [] })
      (register_market "election" "yes" "no" none policy)).0
    ≡ (if (observed
          (pos 0)
          (record portfolio { positions = no_position ∷ [] })
          policy).kill_switch.engaged
        then type_error
        else decided reject)
evaluate_no_hedge_example =
    evaluate_no_hedge (pos 0) signal (record portfolio { positions = no_position ∷ [] }) policy
      "election" "yes" "no" none [] [] no_position (cc) refl (omega arith) refl (inr refl) refl

-- Half of a size, when it is positive, is at most the size.
half-Throttles : Throttles (pos 5000)
half-Throttles (pos n) h = ground arith
half-Throttles (negsuc n) h = ground arith

fresh_policy-IsSettled : IsSettled policy
fresh_policy-IsSettled = record { none_pending = λ c. refl }

-- The order for 25 units, which is what half of 2 % of a thousand dollars buys at 0.40.
abbrev sized_trade : TradeDecision ℤ
sized_trade = record {
  ts = 0;
  strategy = "core";
  token_id = "yes";
  side = Side.buy;
  order_type = OrderType.gtc;
  price = some (pos 4000);
  size = pos 250000;
  paired_token = none;
  paired_price = none;
  paired_side = none;
}

gate-Sized_example : Sized policy.limits signal portfolio sized_trade
unfolding gate size used_size_pct sized_decision evaluate verdict size_verdict observe_daily_pnl
    check_market_liquidity check_daily_loss check_total_exposure check_category_exposure
    check_open_position_count check_entry_price_band check_same_condition check_same_event
    check_position_size_cap
gate-Sized_example =
    gate-Sized (pos 0) signal portfolio policy sized_trade half-Throttles fresh_policy-IsSettled
      refl

gate_all-IsSettled_example :
    IsSettled
      (gate_all (record { now = pos 0; signal = large_signal; portfolio = portfolio } ∷ []) policy)
gate_all-IsSettled_example =
    gate_all-IsSettled (record { now = pos 0; signal = large_signal; portfolio = portfolio } ∷ [])
      policy half-Throttles fresh_policy-IsSettled

-- A probability of 0.60 at a price of 0.40, quarter Kelly, under a cap of 5 %.
