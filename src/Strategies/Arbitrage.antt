-- ===== src/Strategies/Arbitrage.antt =====
-- src/poly_meridian/strategies/arbitrage.py: `ArbitrageStrategy`, on the two asks of a market.
-- Counters of refused signals are left out; the time of a call is an argument.
use poly_meridian.Prelude.{
  ◌≡◌, Bool, true, false, not, ◌||◌, Option, none, some, String, if◌then◌else◌, string_eq,
}
use poly_meridian.Prelude.Chain.{◌>>=◌, require}
use poly_meridian.Prelude.Dict.{Dict, get, insert}
use poly_meridian.Num.{Num, Convert, to_float, to_decimal, ◌+◌, ◌-◌, ◌*◌, ◌/◌, ◌<?◌, ◌≤?◌, lit, min}
use poly_meridian.Domain.{Datetime, Action, Market}
use poly_meridian.Book.{LocalBook, best_ask}
use poly_meridian.Aggregator.{StrategySignal}
pub mod Gap

pub record ArbitrageStrategy (F D : Type 0) : Type 0 where
  pub enabled : Bool
  pub imbalance_threshold : F
  pub conviction_default : F
  pub min_edge_after_fees_bps : F
  pub max_size_pct : F
  pub default_taker_fee_bps : F
  pub books : Dict String (LocalBook D)
  pub pairs : Dict String (String × String)

pub record Rationale (F : Type 0) : Type 0 where
  pub yes_ask : F
  pub no_ask : F
  pub total_ask : F
  pub raw_edge : F
  pub net_edge_bps : F
  pub depth_min_units : F
  pub partner_token : String

module _ {F D : Type 0} where
  unfoldable pub attach_book : String → LocalBook D → ArbitrageStrategy F D → ArbitrageStrategy F D
  attach_book token book s = record s { books = insert token book s.books }

  unfoldable pub register_pair :
      String → String → String → ArbitrageStrategy F D → ArbitrageStrategy F D
  register_pair condition_id yes_token no_token s = record s {
    pairs = insert condition_id (yes_token, no_token) s.pairs;
  }

module _ {D : Type 0} ⦃nd : Num D⦄ where
  -- The best ask of a token's book, with its size.
  abbrev pub top_ask : Dict String (LocalBook D) → String → Option (D × D)
  top_ask books token = elim (get token books) [ none ↦ none | some b ↦ best_ask b ]

module _ {F D : Type 0} ⦃nf : Num F⦄ ⦃nd : Num D⦄ ⦃cv : Convert F D⦄ where
  -- What buying both sides saves against the dollar that one of them pays.
  abbrev pub raw_edge : D × D → D × D → F
  raw_edge yes_top no_top = lit 1 0 - to_float (yes_top.0 + no_top.0)

  -- The same in basis points, less the taker fees of both legs.
  abbrev pub net_edge_bps : F → D × D → D × D → F
  net_edge_bps taker_fee_bps yes_top no_top =
      raw_edge yes_top no_top * lit 10000 0 - taker_fee_bps * lit 2 0

  abbrev pub signal_of :
      Datetime → Market D → ArbitrageStrategy F D → D × D → D × D → StrategySignal (Rationale F) F
  signal_of now m s yes_top no_top = record {
    ts = now;
    strategy = "arbitrage";
    condition_id = m.condition_id;
    token_id = m.yes_token_id;
    edge = raw_edge yes_top no_top;
    conviction = s.conviction_default;
    suggested_action = Action.buy_yes;
    rationale = record {
      yes_ask = to_float yes_top.0;
      no_ask = to_float no_top.0;
      total_ask = to_float (yes_top.0 + no_top.0);
      raw_edge = raw_edge yes_top no_top;
      net_edge_bps = net_edge_bps s.default_taker_fee_bps yes_top no_top;
      depth_min_units = to_float (min yes_top.1 no_top.1);
      partner_token = m.no_token_id;
    };
  }

  unfoldable pub evaluate :
      Datetime → Market D → ArbitrageStrategy F D → Option (StrategySignal (Rationale F) F)
  evaluate now m s = do
    _ ← require s.enabled
    yes_top ← top_ask s.books m.yes_token_id
    no_top ← top_ask s.books m.no_token_id
    _ ← require (not (raw_edge yes_top no_top <? s.imbalance_threshold))
    _ ←
        require
          (not (net_edge_bps s.default_taker_fee_bps yes_top no_top <? s.min_edge_after_fees_bps))
    some (signal_of now m s yes_top no_top)

  -- The aggregator's helpers.
  abbrev pub proposed_price : Rationale F → D
  proposed_price r = to_decimal r.yes_ask

  unfoldable pub proposed_size_pct : Rationale F → D → F → F
  proposed_size_pct r bankroll_usd max_size_pct =
      if r.depth_min_units ≤? lit 0 0 || r.yes_ask ≤? lit 0 0
      then lit 0 0
      else min max_size_pct (
          if lit 0 0 <? bankroll_usd
          then r.depth_min_units * r.yes_ask / to_float bankroll_usd
          else lit 0 0)
