-- ===== src/Tests.antt =====
-- Data for the tests: a signal, a portfolio, a policy, a book and an executor, over decimals with
-- four places (`pos 10000` is one).
use Prim.Native.Nat.{◌/◌}
use poly_meridian.Prelude.{ℕ, Bool, true, false, Option, none, some, List, [], ◌∷◌}
use poly_meridian.Prelude.Dict.{Dict}
use poly_meridian.Num.{Num}
use poly_meridian.Num.Fixed.{ℤ, pos, negsuc, fixed, sub_ℕ}
use poly_meridian.Domain.{
  AggregatedSignal, PortfolioSnapshot, Position, TradeDecision, Action, Side, OrderType,
  OrderStatus, Clock, Order,
}
use poly_meridian.Risk.KillSwitch.{KillSwitch, new, default_config}
use poly_meridian.Risk.Limits.{default_limits}
use poly_meridian.Risk.Policy.{DefaultRiskPolicy}
use poly_meridian.Book.{LocalBook}
use poly_meridian.Execution.Fees.{default_fees}
use poly_meridian.Execution.Paper.{PaperExecutor}
mod Risk
mod Trading
mod State
mod Signals
mod Tick
mod Live
mod Backtest
mod Strategies

instance abbrev pub fixed_clock : Clock ℤ
fixed_clock = record { seconds_between = λ a b. sub_ℕ (a / 100) (b / 100) }

-- A signal to buy "yes" at 0.40 with 2 % of the bankroll.
abbrev pub signal : AggregatedSignal ℤ ℤ
signal = record {
  ts = 0;
  condition_id = "election";
  token_id = "yes";
  direction = Action.buy_yes;
  edge = pos 500;
  conviction = pos 8000;
  size_pct = pos 200;
  proposed_price = some (pos 4000);
  category = some "Politics";
  market_liquidity_usd = some (pos 500000000);
  contributors = "fundamentals" ∷ [];
  paired_token = none;
  paired_price = none;
  paired_side = none;
}

-- The same signal with 6 % of the bankroll, over the cap of 5 %.
abbrev pub large_signal : AggregatedSignal ℤ ℤ
large_signal = record signal { size_pct = pos 600 }

abbrev pub portfolio : PortfolioSnapshot ℤ ℤ
portfolio = record {
  ts = 0;
  nav_usd = pos 10000000;
  cash_usd = pos 10000000;
  positions = [];
  daily_pnl_pct = pos 0;
  total_exposure_pct = pos 1000;
  category_exposure_pct = ("Politics", pos 500) ∷ [];
  open_position_count = 0;
}

-- A position in the other token of the market.
abbrev pub no_position : Position ℤ
no_position = record {
  token_id = "no";
  qty = pos 100000;
  avg_cost = pos 6000;
  last_mark = pos 6000;
  last_updated = 0;
}

-- A day at -6 %.
abbrev pub losing_portfolio : PortfolioSnapshot ℤ ℤ
losing_portfolio = record portfolio { daily_pnl_pct = negsuc 599 }

abbrev pub policy : DefaultRiskPolicy ℤ
policy = record {
  strategy_name = "core";
  limits = default_limits;
  kill_switch = new default_config;
  reduced_size_pct = [];
  slippage_drift_bps = some (pos 3000000);
  drift_alarm_bps = pos 2000000;
  drift_size_multiplier = pos 5000;
  token_to_condition = [];
  token_to_event = [];
  condition_to_event = [];
  book_lookup = none;
}

-- Bids at 0.38 and 0.39, asks at 0.42 and 0.41, ten units each.
abbrev pub book : LocalBook ℤ
book = record {
  token_id = "yes";
  bids = (pos 3800, pos 100000) ∷ (pos 3900, pos 100000) ∷ [];
  asks = (pos 4200, pos 100000) ∷ (pos 4100, pos 100000) ∷ [];
}

-- A purchase of fifteen units at 0.42.
abbrev pub trade : TradeDecision ℤ
trade = record {
  ts = 0;
  strategy = "fundamentals";
  token_id = "yes";
  side = Side.buy;
  order_type = OrderType.gtc;
  price = some (pos 4200);
  size = pos 150000;
  paired_token = none;
  paired_price = none;
  paired_side = none;
}

abbrev pub executor : PaperExecutor ℤ ℤ
executor = record {
  books = ("yes", book) ∷ [];
  orders = [];
  resting = [];
  maker_timeout_sec = pos 300000;
  fees = default_fees;
  us_mode = false;
  token_category = ("yes", "Politics") ∷ [];
  has_slippage_monitor = true;
  has_on_fill = true;
  calls = [];
}
