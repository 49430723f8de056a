-- ===== src/Strategies/Sentiment.antt =====
-- src/poly_meridian/strategies/sentiment.py: `SentimentStrategy`, on the recent news of a market.
-- Counters of refused signals are left out; the time of a call is an argument.
use poly_meridian.Prelude.{
  ℕ, ◌≡◌, Bool, true, false, not, Option, none, some, List, [], String, if◌then◌else◌, get_or,
  length, ltb, ◌==◌, string_eq,
}
use poly_meridian.Prelude.Chain.{◌>>=◌, require}
use poly_meridian.Prelude.Dict.{Dict, get, insert}
use poly_meridian.Num.{
  Num, Convert, Quantize, to_float, to_decimal, ◌+◌, ◌-◌, ◌*◌, ◌<?◌, ◌≤?◌, lit, max, min, abs,
}
use poly_meridian.Domain.{Datetime, Action, Market}
use poly_meridian.Book.{LocalBook}
use poly_meridian.Features.{
  NewsSignal, SentimentAggregate, aggregate_signals, winning_direction, ask_of,
}
use poly_meridian.Aggregator.{StrategySignal}
use poly_meridian.Risk.Kelly.{sized_kelly}
pub mod News

pub record SentimentStrategy (F D : Type 0) : Type 0 where
  pub enabled : Bool
  pub window_sec : ℕ
  pub impact_threshold : F
  pub min_signals : ℕ
  pub max_size_pct : F
  pub books : Dict String (LocalBook D)
  pub recent_signals : Dict String (List (NewsSignal F))

pub record Rationale (F : Type 0) : Type 0 where
  pub window_sec : ℕ
  pub n_signals : ℕ
  pub sentiment_avg : F
  pub impact_max : F
  pub direction : String
  pub best_ask : F
  pub our_p_long : F
  pub market_p_long : F

module _ {F D : Type 0} where
  unfoldable pub attach_book : String → LocalBook D → SentimentStrategy F D → SentimentStrategy F D
  attach_book token book s = record s { books = insert token book s.books }

  unfoldable pub attach_recent_signals :
      String → List (NewsSignal F) → SentimentStrategy F D → SentimentStrategy F D
  attach_recent_signals condition_id signals s = record s {
    recent_signals = insert condition_id signals s.recent_signals;
  }

  -- The recent news of a market, which may be none.
  abbrev pub news_of : SentimentStrategy F D → Market D → List (NewsSignal F)
  news_of s m = get_or (get m.condition_id s.recent_signals) []

-- The side that the news favours.
abbrev pub side_action : String → Action
side_action direction = if direction == "YES" then Action.buy_yes else Action.buy_no

abbrev pub side_token : {D : Type 0} → String → Market D → String
side_token direction m = if direction == "YES" then m.yes_token_id else m.no_token_id

module _ {F : Type 0} ⦃nf : Num F⦄ where
  abbrev pub conviction_of : SentimentAggregate F → F
  conviction_of a = max (lit 0 0) (min (lit 1 0) (a.impact_max * abs a.sentiment_avg))

module _ {F D : Type 0} ⦃nf : Num F⦄ ⦃cv : Convert F D⦄ where
  abbrev pub our_p_long : SentimentAggregate F → D → F
  our_p_long a price =
      max (lit 1 2)
        (min (lit 99 2) (to_float price + lit 5 1 * conviction_of a * abs a.sentiment_avg))

  abbrev pub edge_of : SentimentAggregate F → D → F
  edge_of a price = our_p_long a price - to_float price

  abbrev pub signal_of :
      Datetime
      → Market D
      → SentimentStrategy F D
      → SentimentAggregate F
      → D
      → StrategySignal (Rationale F) F
  signal_of now m s a price = record {
    ts = now;
    strategy = "sentiment";
    condition_id = m.condition_id;
    token_id = side_token (winning_direction a) m;
    edge = edge_of a price;
    conviction = conviction_of a;
    suggested_action = side_action (winning_direction a);
    rationale = record {
      window_sec = s.window_sec;
      n_signals = a.n_signals;
      sentiment_avg = a.sentiment_avg;
      impact_max = a.impact_max;
      direction = winning_direction a;
      best_ask = to_float price;
      our_p_long = our_p_long a price;
      market_p_long = to_float price;
    };
  }

module _ {F D : Type 0} ⦃nf : Num F⦄ ⦃nd : Num D⦄ ⦃cv : Convert F D⦄ where
  -- What follows once the news is aggregated.
  unfoldable pub judge :
      Datetime
      → Market D
      → SentimentStrategy F D
      → SentimentAggregate F
      → Option (StrategySignal (Rationale F) F)
  judge now m s a = do
    _ ← require (not (a.impact_max <? s.impact_threshold))
    _ ← require (not (winning_direction a == "NEUTRAL"))
    _ ← require (not (conviction_of a ≤? lit 0 0))
    price ← ask_of s.books (side_token (winning_direction a) m)
    _ ← require (not (edge_of a price ≤? lit 0 0))
    some (signal_of now m s a price)

  unfoldable pub evaluate :
      Datetime → Market D → SentimentStrategy F D → Option (StrategySignal (Rationale F) F)
  unfolding judge
  evaluate now m s = do
    _ ← require s.enabled
    _ ← require (not (ltb (length (news_of s m)) s.min_signals))
    judge now m s (aggregate_signals (news_of s m))

-- The aggregator's helpers.
abbrev pub proposed_price : {F D : Type 0} ⦃cv : Convert F D⦄ → Rationale F → D
proposed_price r = to_decimal r.best_ask

module _ {F D : Type 0} ⦃nf : Num F⦄ ⦃nd : Num D⦄ ⦃qd : Quantize D⦄ ⦃cv : Convert F D⦄ where
  abbrev pub proposed_size_pct : Rationale F → D → F → F
  proposed_size_pct r bankroll_usd max_size_pct =
      (sized_kelly r.our_p_long r.market_p_long bankroll_usd (lit 25 2) max_size_pct).f_used
