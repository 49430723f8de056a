-- ===== src/Tests/Strategies.antt =====
-- Strategies, their bookkeeping and the calibration window on concrete data.
use poly_meridian.Prelude.{
  ◌≡◌, ◌↔◌, refl, true, false, none, some, [], ◌∷◌, String, List, length, last, string_eq, arith,
}
use poly_meridian.Prelude.Chain.{◌>>=◌, require}
use poly_meridian.Num.{Maths}
use poly_meridian.Num.Fixed.{ℤ, pos, fixed, fixed_convert}
use poly_meridian.Domain.{Action}
use poly_meridian.Book.{LocalBook, best_ask}
use poly_meridian.Features.{
  NewsSignal, latest, momentum, time_to_resolution_hours, aggregate_signals,
}
use poly_meridian.Aggregator.{StrategySignal}
use poly_meridian.Strategies.StatQuant.{
  StatQuantStrategy, StatQuantConfig, candidates, momentum_signal, mean_reversion_signal,
  vol_breakout_signal, time_decay_signal, bet, strongest, strongest_from, with_momentum,
}
use poly_meridian.Strategies.StatQuant
use poly_meridian.Strategies.StatQuant.Sound.{IsBuyable, IsStrongest, evaluate-IsBuyable}
use poly_meridian.Strategies.Arbitrage.{ArbitrageStrategy}
use poly_meridian.Strategies.Arbitrage
use poly_meridian.Strategies.Arbitrage.Gap.{HasGap, BuysBoth, evaluate-HasGap}
use poly_meridian.Strategies.Sentiment.{SentimentStrategy, judge}
use poly_meridian.Strategies.Sentiment
use poly_meridian.Strategies.SmartMoney.{SmartMoneyStrategy, WalletFlow, Cluster}
use poly_meridian.Strategies.SmartMoney
use poly_meridian.Strategies.SmartMoney.Filters.{Follows, evaluate-Follows}
use poly_meridian.Strategies.Fundamentals.{FundamentalsStrategy, resolved}
use poly_meridian.Strategies.Fundamentals
use poly_meridian.Fundamentals.Calibration.{Settlement, Row, new_store, restore, record_settlement}
use poly_meridian.Fundamentals.Calibration.Restart.{record_all, insert_all, restore-record_all}
use poly_meridian.Fundamentals.Calibration.Table.{fetch_calibration_entries}
use mathlib.Core.List.{reverse}
use poly_meridian.Tests.{book, fixed_clock}
use poly_meridian.Tests.Tick.{market}
use poly_meridian.Tests.Signals.{held}

-- Asks at 0.41 for "yes" and 0.50 for "no".
abbrev no_book : LocalBook ℤ
no_book = record book { token_id = "no"; asks = (pos 5000, pos 80000) ∷ []; bids = [] }

abbrev pub maths : Maths ℤ
maths = record { sqrt = λ x. x; power = λ x y. x; log = λ x. x; exp = λ x. x; infinity = pos 0 }

-- A price that rises from 0.30 to 0.42 over three ticks.
abbrev stat_quant : StatQuantStrategy ℤ ℤ
stat_quant = record {
  enabled = true;
  config = record {
    mr_zscore_threshold = pos 20000;
    mr_min_window = 10;
    mr_max_size_pct = pos 200;
    mr_min_conviction = pos 6000;
    mo_lookback = 3;
    mo_return_threshold = pos 500;
    mo_min_volume = pos 0;
    mo_max_size_pct = pos 200;
    mo_min_conviction = pos 6500;
    vb_low_vol_threshold = pos 50;
    vb_breakout_multiplier = pos 20000;
    vb_max_size_pct = pos 200;
    vb_min_conviction = pos 7000;
    td_horizon_hours_max = pos 240000;
    td_price_deviation_threshold = pos 1000;
    td_max_size_pct = pos 150;
    td_min_conviction = pos 6000;
  };
  history = ("yes", record { capacity = 60; prices = pos 3000 ∷ pos 3600 ∷ pos 4200 ∷ [] }) ∷ [];
  volume_1h = [];
  books = ("yes", book) ∷ [];
}

abbrev trend_signal : StrategySignal (StatQuant.Rationale ℤ) ℤ
trend_signal =
    StatQuant.signal_of 7 market (with_momentum (pos 4000)) Action.buy_yes (pos 4100) (pos 10000)
      (pos 1500) (pos 200)

evaluate-IsBuyable_example :
    IsBuyable stat_quant.books market trend_signal
    × IsStrongest (candidates maths 7 market stat_quant) trend_signal
unfolding StatQuant.evaluate candidates momentum_signal mean_reversion_signal vol_breakout_signal
    time_decay_signal bet strongest strongest_from momentum latest best_ask time_to_resolution_hours
    ◌>>=◌ require
evaluate-IsBuyable_example = evaluate-IsBuyable maths 7 market stat_quant trend_signal refl

abbrev arbitrage : ArbitrageStrategy ℤ ℤ
arbitrage = record {
  enabled = true;
  imbalance_threshold = pos 150;
  conviction_default = pos 9500;
  min_edge_after_fees_bps = pos 300000;
  max_size_pct = pos 400;
  default_taker_fee_bps = pos 1800000;
  books = ("yes", book) ∷ ("no", no_book) ∷ [];
  pairs = [];
}

abbrev gap_signal : StrategySignal (Arbitrage.Rationale ℤ) ℤ
gap_signal = Arbitrage.signal_of 7 market arbitrage (pos 4100, pos 100000) (pos 5000, pos 80000)

evaluate-HasGap_example : (Arbitrage.evaluate 7 market arbitrage ≡ some gap_signal) ↔ (
    (yes_top : ℤ × ℤ) × (no_top : ℤ × ℤ) × HasGap market arbitrage yes_top no_top
    × BuysBoth 7 market arbitrage yes_top no_top gap_signal)
evaluate-HasGap_example = evaluate-HasGap 7 market arbitrage gap_signal

abbrev news : List (NewsSignal ℤ)
news = record { sentiment = pos 9000; impact = pos 8000; direction = "YES" } ∷ []

abbrev sentiment : SentimentStrategy ℤ ℤ
sentiment = record {
  enabled = true;
  window_sec = 1800;
  impact_threshold = pos 6000;
  min_signals = 1;
  max_size_pct = pos 300;
  books = ("yes", book) ∷ [];
  recent_signals = ("election", news) ∷ [];
}

abbrev news_signal : StrategySignal (Sentiment.Rationale ℤ) ℤ
news_signal = Sentiment.signal_of 7 market sentiment (aggregate_signals news) (pos 4100)

abbrev flow_of : String → WalletFlow ℤ
flow_of w = record {
  wallet = w;
  direction = "YES";
  net_usd = pos 80000000;
  last_update = 1000000;
  tier = 1;
}

abbrev smart_money : SmartMoneyStrategy ℤ ℤ
smart_money = record {
  enabled = true;
  tier1_min_cluster = 2;
  tier2_min_cluster = 2;
  tier3_auto_trade = false;
  min_net_usd_per_wallet = pos 50000000;
  latency_decay_sec = 1800;
  freshness_max_sec = 86400;
  max_size_pct_tier1 = pos 200;
  max_size_pct_tier2 = pos 100;
  max_size_pct_tier3 = pos 50;
  books = ("yes", book) ∷ [];
  cluster_state =
      (
        "election",
        record {
          condition_id = "election";
          yes_flows = flow_of "a" ∷ flow_of "b" ∷ [];
          no_flows = [];
          last_update = 1000000;
        },
      )
      ∷ [];
  wallet_tier = [];
  wallet_drawdown = [];
  wallet_hedge_flag = [];
}

abbrev same : String → String
same s = s

abbrev cluster_signal : StrategySignal (SmartMoney.Rationale ℤ) ℤ
cluster_signal =
    SmartMoney.signal_of 2000000 market smart_money
      (record { on_yes = true; tier = 1; flows = flow_of "a" ∷ flow_of "b" ∷ [] }) (pos 4100)

evaluate-Follows_example : Follows same 2000000 market smart_money cluster_signal
unfolding SmartMoney.evaluate SmartMoney.chosen_cluster SmartMoney.pick_best_cluster
    SmartMoney.distinct_wallets SmartMoney.bucket_wallets SmartMoney.filter_eligible ◌>>=◌ require
    best_ask
evaluate-Follows_example = evaluate-Follows same 2000000 market smart_money cluster_signal refl

abbrev fundamentals : FundamentalsStrategy ℤ ℤ
fundamentals = record {
  enabled = true;
  min_edge = pos 500;
  min_confidence = pos 5000;
  max_size_pct = pos 250;
  enabled_categories = "Politics" ∷ [];
  resolvers =
      ("Politics", λ m c. resolved (some (record { p_yes = pos 6000; confidence = pos 7000 })))
      ∷ [];
  llm_resolver = none;
  books = ("yes", book) ∷ [];
  context = record {
    now = 0;
    current_market_p = none;
    news_summary = none;
    smart_money_direction = none;
  };
  news_summaries = [];
  sm_directions = [];
}

abbrev estimate_signal : StrategySignal (Fundamentals.Rationale ℤ) ℤ
estimate_signal =
    Fundamentals.signal_of 7 market fundamentals
      (record { p_yes = pos 6000; confidence = pos 7000 }) (pos 4100) (pos 4100)

-- A prediction of 0.70 on a position, which comes true.
abbrev settlement : Settlement ℤ ℤ
settlement = record {
  token_id = "yes";
  settle_price = pos 10000;
  pos = record held { claimed_p_long = some (pos 7000); claimed_confidence = some (pos 6000) };
  ts = 9;
}

-- The same a tick later.
abbrev later : Settlement ℤ ℤ
later = record settlement { ts = 10 }

restore-record_all_example :
    let s = record_all (settlement ∷ later ∷ []) (new_store 1 true) in
    let rows : List (Row ℤ) =
      fetch_calibration_entries {D = ℤ} reverse 2 (insert_all s.written []) in
    let (count, fresh) = restore 11 rows (new_store 1 true) in
    (fresh.entries ≡ s.entries) × (count ≡ length (last 2 s.written))
unfolding record_all record_settlement insert_all
restore-record_all_example =
    restore-record_all reverse 1 2 11 (settlement ∷ later ∷ []) (λ rows h. refl) (λ x. refl)
      (omega arith) ((omega arith, tt), (tt, tt))
