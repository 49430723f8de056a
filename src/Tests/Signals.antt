-- ===== src/Tests/Signals.antt =====
-- Merging, marking and valuing on concrete data.
use poly_meridian.Prelude.{◌≡◌, refl, true, none, some, [], ◌∷◌, string_eq}
use poly_meridian.Prelude.Dict.{get, values}
use poly_meridian.Num.{◌≤?◌, sum}
use poly_meridian.Num.Fixed.{ℤ, pos, fixed, fixed_quantize, fixed_convert, fixed-Exact}
use poly_meridian.Domain.{Action, AggregatedSignal}
use poly_meridian.Aggregator.{
  StrategySignal, Helpers, SignalAggregator, aggregate, aggregate_all, tally_all, winner,
}
use poly_meridian.Aggregator.Bounds.{aggregate_bounds}
use poly_meridian.Aggregator.Disagreement.{aggregate_both_sides}
use poly_meridian.Portfolio.Ledger.{Ledger, PositionState, intraday}
use poly_meridian.Portfolio.Pnl.{mark_all, mid_of, category_exposure_usd, total_exposure_usd}
use poly_meridian.Portfolio.Pnl.Marks.{marked, mark_all_marks}
use poly_meridian.Portfolio.Pnl.Snapshot.{category_exposure-total}
use poly_meridian.Domain.{Side}
use poly_meridian.Num.Fixed.{negsuc}
use poly_meridian.Tests.{book}

-- A rationale is the price and the size that a strategy proposes.
abbrev pub helpers : Helpers (ℤ × ℤ) ℤ ℤ
helpers = record {
  price_helper = λ name. some (λ r. r.0);
  size_helper = λ name. some (λ r bankroll limit. r.1);
  partner = λ r. none;
}

abbrev pub yes_signal : StrategySignal (ℤ × ℤ) ℤ
yes_signal = record {
  ts = 0;
  strategy = "stat_quant.momentum";
  condition_id = "election";
  token_id = "yes";
  edge = pos 400;
  conviction = pos 3000;
  suggested_action = Action.buy_yes;
  rationale = (pos 4000, pos 400);
}

abbrev no_signal : StrategySignal (ℤ × ℤ) ℤ
no_signal = record yes_signal {
  strategy = "sentiment";
  token_id = "no";
  suggested_action = Action.buy_no;
}

abbrev pub aggregator : SignalAggregator ℤ
aggregator = record {
  conflict_threshold = pos 500;
  max_size_pct = pos 500;
  consensus_boost = pos 1500;
  cross_disagreement_blocks = true;
}

-- What one signal and a second one by another strategy merge into.
abbrev merged : AggregatedSignal ℤ ℤ
merged = record {
  ts = 7;
  condition_id = "election";
  token_id = "yes";
  direction = Action.buy_yes;
  edge = pos 400;
  conviction = pos 7500;
  size_pct = pos 500;
  proposed_price = some (pos 4000);
  category = none;
  market_liquidity_usd = none;
  contributors = "stat_quant.momentum" ∷ "sentiment" ∷ [];
  paired_token = none;
  paired_price = none;
  paired_side = none;
}

aggregate_bounds_example : ((pos 7500 ≤? pos 10000) ≡ true) × ((pos 500 ≤? pos 500) ≡ true)
unfolding aggregate aggregate_all tally_all winner
aggregate_bounds_example =
    aggregate_bounds helpers 7 aggregator none (pos 10000000)
      (yes_signal ∷ record yes_signal { strategy = "sentiment" } ∷ []) merged refl refl

aggregate_both_sides_example :
    aggregate helpers 7 aggregator none (pos 10000000) (yes_signal ∷ no_signal ∷ []) ≡ none
aggregate_both_sides_example =
    aggregate_both_sides helpers 7 aggregator none (pos 10000000) (yes_signal ∷ no_signal ∷ []) refl
      refl refl

-- Ten units bought at 0.35.
abbrev pub held : PositionState ℤ ℤ
held = record {
  token_id = "yes";
  qty = pos 100000;
  avg_cost = pos 3500;
  realized_pnl = pos 0;
  last_mark = pos 3500;
  last_updated = 0;
  fees_paid = pos 0;
  entry_strategy = some "sentiment";
  horizon = some intraday;
  claimed_p_long = none;
  claimed_confidence = none;
  claimed_base_rate = none;
}

abbrev pub ledger : Ledger ℤ ℤ
ledger = record {
  cash = pos 10000000;
  entries = [];
  positions_by_token = ("yes", held) ∷ ("other", record held { token_id = "other" }) ∷ [];
  starting_cash = pos 10000000;
}

mark_all_marks_example :
    get "yes" (mark_all (("yes", book) ∷ []) 9 ledger).positions_by_token
    ≡ marked (mid_of (("yes", book) ∷ []) "yes") 9 (get "yes" ledger.positions_by_token)
mark_all_marks_example = mark_all_marks (("yes", book) ∷ []) 9 ledger "yes" (refl, (refl, tt))

category_exposure-total_example :
    sum (values (category_exposure_usd (("yes", "Politics") ∷ []) ledger))
    ≡ total_exposure_usd ledger
category_exposure-total_example =
    category_exposure-total fixed-Exact (("yes", "Politics") ∷ []) ledger

-- The log of a purchase and of a sale at a gain on the same day.
abbrev logged : Ledger ℤ ℤ
logged = record ledger {
  entries =
      record {
        ts = 1000000;
        order_id = "a";
        strategy = "sentiment";
        token_id = "yes";
        side = Side.buy;
        qty = pos 100000;
        price = pos 3500;
        notional = negsuc 349999999;
        fee = pos 0;
      }
      ∷ record {
        ts = 2000000;
        order_id = "b";
        strategy = "exit";
        token_id = "yes";
        side = Side.sell;
        qty = negsuc 49999;
        price = pos 4500;
        notional = pos 225000000;
        fee = pos 0;
      }
      ∷ [];
}
