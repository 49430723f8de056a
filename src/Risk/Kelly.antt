-- ===== src/Risk/Kelly.antt =====
-- src/poly_meridian/risk/kelly.py and src/poly_meridian/risk/trade_metrics.py: sizes and payoffs
-- of a bet at a market price.
use poly_meridian.Prelude.{
  ◌≡◌, refl, Bool, true, false, not, ◌&&◌, ◌||◌, Option, none, some, if◌then◌else◌,
}
use poly_meridian.Num.{
  Num, Convert, Quantize, quantize, to_decimal, ◌+◌, ◌-◌, ◌*◌, ◌/◌, ◌<?◌, ◌≤?◌, lit, min, max,
  num_eq,
}
use poly_meridian.Prelude.{◌==◌}
pub mod Bounds

pub record KellyResult (F D : Type 0) : Type 0 where
  pub f_star : F
  pub f_used : F
  pub size_usd : D
  pub edge : F
  pub expected_value : F

pub record TradeMetrics (F : Type 0) : Type 0 where
  pub entry_price : F
  pub size_units : F
  pub notional_usd : F
  pub max_loss_usd : F
  pub max_gain_usd : F
  pub risk_reward_ratio : F
  pub our_prob : F
  pub expected_pnl_usd : F
  pub ev_per_dollar : F

module _ {F : Type 0} ⦃nf : Num F⦄ where
  abbrev pub zero_float : F
  zero_float = lit 0 0

  abbrev pub one_float : F
  one_float = lit 1 0

  -- `0.0 < market_price < 1.0` and `0.0 <= p <= 1.0`
  abbrev pub is_price : F → Bool
  is_price m = zero_float <? m && m <? one_float

  abbrev pub is_probability : F → Bool
  is_probability p = zero_float ≤? p && p ≤? one_float

  pub kelly_fraction : F → F → F
  kelly_fraction p market_price =
      if not (is_price market_price)
      then lit 0 0
      else if not (is_probability p)
      then lit 0 0
      else if p ≤? market_price
      then lit 0 0
      else let b = (lit 1 0 - market_price) / market_price in
        let q = lit 1 0 - p in max (lit 0 0) ((b * p - q) / b)

  pub compute_trade_metrics : Option F → F → F → Option (TradeMetrics F)
  compute_trade_metrics none size_units edge = none
  compute_trade_metrics (some p) size_units edge =
      if p ≤? lit 0 0 || lit 1 0 ≤? p
      then none
      else let size = max (lit 0 0) size_units in
        if size == lit 0 0
        then none
        else some (record {
          entry_price = p;
          size_units = size;
          notional_usd = p * size;
          max_loss_usd = p * size;
          max_gain_usd = (lit 1 0 - p) * size;
          risk_reward_ratio = if lit 0 0 <? p then (lit 1 0 - p) / p else lit 0 0;
          our_prob = max (lit 0 0) (min (lit 1 0) (p + edge));
          expected_pnl_usd = edge * size;
          ev_per_dollar = if lit 0 0 <? p then edge / p else lit 0 0;
        })

module _ {F D : Type 0} ⦃nf : Num F⦄ ⦃nd : Num D⦄ ⦃qd : Quantize D⦄ ⦃cv : Convert F D⦄ where
  -- The arguments are p, market_price, bankroll_usd, kelly_fraction_multiplier and hard_cap_pct.
  pub sized_kelly : F → F → D → F → F → KellyResult F D
  unfolding kelly_fraction
  sized_kelly p market_price bankroll_usd multiplier hard_cap_pct =
      let f_star = kelly_fraction p market_price in
      let f_used = max (lit 0 0) (min (f_star * multiplier) hard_cap_pct) in
      let valid = is_probability p && is_price market_price in
      record {
        f_star = f_star;
        f_used = f_used;
        size_usd = quantize 2 (bankroll_usd * to_decimal f_used);
        edge = if valid then p - market_price else lit 0 0;
        expected_value =
            if valid then p * (lit 1 0 - market_price) - (lit 1 0 - p) * market_price else lit 0 0;
      }
