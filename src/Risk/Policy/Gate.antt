-- ===== src/Risk/Policy/Gate.antt =====
-- The gate: what an approved, a reduced and a refused signal satisfy.
use poly_meridian.Prelude.{
  ◌<◌, ◌≡◌, ◌⊎◌, inl, inr, Bool, true, false, not, Option, none, some, arith, count, Option-cases,
  if◌then◌else◌, string_eq,
}
use poly_meridian.Prelude.Dict.{get}
use poly_meridian.Num.{Num, Convert, ◌<?◌, ◌≤?◌, lit, neg}
use poly_meridian.Domain.{AggregatedSignal, PortfolioSnapshot, Action, buy_yes, buy_no}
use poly_meridian.Risk.Limits.{
  check_market_liquidity, check_daily_loss, check_open_position_count, check_entry_price_band,
  check_same_condition, check_same_event, is_held_in,
}
use poly_meridian.Risk.Limits.Checks.{
  liquidity_iff, daily_loss_iff, open_count_iff, PriceFits, price_band_iff, same_condition_iff,
  EventFits, same_event_iff,
}
use poly_meridian.Risk.Policy.{
  DefaultRiskPolicy, Evaluation, type_error, decided, reject, first_reason, hard_blocks, is_buy,
  is_invalid_price, check_spread_via_lookup, size_verdict, verdict, settle,
}

buys_of : (a : Action) → is_buy a ≡ true → (a ≡ buy_yes) ⊎ (a ≡ buy_no)
buys_of a h = ground arith

positive_of :
    {D : Type 0} ⦃nd : Num D⦄ (o : Option D) (price : D)
    → o ≡ some price
    → is_invalid_price o ≡ false
    → (lit 0 0 <? price) ≡ true
positive_of ⦃nd⦄ o price e h = ground (arith, nd.le_not_lt price (lit 0 0))

module _ {F : Type 0} where
  -- How `evaluate` ends for a signal that is stopped: an engaged switch makes it raise.
  abbrev pub refusal : DefaultRiskPolicy F → Evaluation
  refusal p = if p.kill_switch.engaged then type_error else decided reject

module _ {F D : Type 0} ⦃nf : Num F⦄ ⦃nd : Num D⦄ ⦃cv : Convert F D⦄ where
  -- What the policy asks of any signal that it lets pass, whatever its size.
  pub record Admissible (p : DefaultRiskPolicy F) (s : AggregatedSignal F D)
      (port : PortfolioSnapshot F D) : Type 0 where
    pub switch_clear : p.kill_switch.engaged ≡ false
    pub buys : (s.direction ≡ buy_yes) ⊎ (s.direction ≡ buy_no)
    pub price : D
    pub priced : s.proposed_price ≡ some price
    pub price_positive : (lit 0 0 <? price) ≡ true
    pub price_fits : PriceFits s p.limits price
    pub loss_fits : (neg p.limits.daily_max_loss_pct ≤? port.daily_pnl_pct) ≡ true
    pub count_fits : port.open_position_count < p.limits.max_open_positions
    pub liquidity : F
    pub liquidity_known : s.market_liquidity_usd ≡ some liquidity
    pub liquidity_fits : (p.limits.min_market_liquidity_usd ≤? liquidity) ≡ true
    pub spread_fits : check_spread_via_lookup p s ≡ none
    pub condition_fits :
        count (is_held_in F p.token_to_condition s.condition_id) port.positions
        < p.limits.max_positions_per_condition
    pub event_fits :
        EventFits port p.limits p.token_to_event (get s.condition_id p.condition_to_event)

  -- The guards of `evaluate` before the sizes, and the tests that they make.
  pub passes : DefaultRiskPolicy F → AggregatedSignal F D → PortfolioSnapshot F D → Bool
  passes p s port =
      if p.kill_switch.engaged
      then false
      else if not (is_buy s.direction)
      then false
      else if is_invalid_price s.proposed_price
      then false
      else elim (first_reason (hard_blocks p s port)) [ some _ ↦ false | none ↦ true ]

  pub verdict-passes :
      (p : DefaultRiskPolicy F) (s : AggregatedSignal F D) (port : PortfolioSnapshot F D)
      → passes p s port ≡ true
      → verdict p s port ≡ size_verdict p.limits s port
  unfolding passes verdict
  verdict-passes p s port h = ground arith

  pub verdict_blocked :
      (p : DefaultRiskPolicy F) (s : AggregatedSignal F D) (port : PortfolioSnapshot F D)
      → passes p s port ≡ false
      → (settle s.condition_id p (verdict p s port)) ≡ (refusal p, p)
  unfolding passes verdict
  verdict_blocked p s port h = ground arith

  -- The tests that a signal has passed, one by one.
  guards :
      (p : DefaultRiskPolicy F) (s : AggregatedSignal F D) (port : PortfolioSnapshot F D)
      → passes p s port ≡ true
      → (p.kill_switch.engaged ≡ false)
        × (is_buy s.direction ≡ true)
        × (is_invalid_price s.proposed_price ≡ false)
        × (check_daily_loss port p.limits ≡ none)
        × (check_open_position_count port p.limits ≡ none)
        × (check_market_liquidity s p.limits ≡ none)
        × (check_entry_price_band s p.limits ≡ none)
        × (check_spread_via_lookup p s ≡ none)
        × (check_same_condition s port p.limits p.token_to_condition ≡ none)
        × (check_same_event s port p.limits p.token_to_event
              (get s.condition_id p.condition_to_event)
            ≡ none)
  unfolding passes
  guards p s port h = ground arith

  pub passes-Admissible :
      (p : DefaultRiskPolicy F) (s : AggregatedSignal F D) (port : PortfolioSnapshot F D)
      → passes p s port ≡ true
      → Admissible p s port
  passes-Admissible p s port h = elim (Option-cases s.proposed_price) [
    | inl missing ↦ absurd (ground (arith, guards p s port h))
    | inr (price, e) ↦
        (let g = guards p s port h in
          let liquid = (liquidity_iff s p.limits).0 g.5 in
          record {
            switch_clear = g.0;
            buys = buys_of s.direction g.1;
            price = price;
            priced = e;
            price_positive = positive_of s.proposed_price price e g.2;
            price_fits = (price_band_iff s p.limits price e).0 g.6;
            loss_fits = (daily_loss_iff port p.limits).0 g.3;
            count_fits = (open_count_iff port p.limits).0 g.4;
            liquidity = liquid.0;
            liquidity_known = liquid.1;
            liquidity_fits = liquid.2;
            spread_fits = g.7;
            condition_fits = (same_condition_iff s port p.limits p.token_to_condition).0 g.8;
            event_fits =
                (same_event_iff s port p.limits p.token_to_event
                    (get s.condition_id p.condition_to_event)).0
                  g.9;
          })
  ]

  pub Admissible-passes :
      (p : DefaultRiskPolicy F) (s : AggregatedSignal F D) (port : PortfolioSnapshot F D)
      → Admissible p s port
      → passes p s port ≡ true
  unfolding passes
  Admissible-passes p s port a =
      let liquid =
        (liquidity_iff s p.limits).1 (a.liquidity, a.liquidity_known, a.liquidity_fits) in
      let loss = (daily_loss_iff port p.limits).1 a.loss_fits in
      let room = (open_count_iff port p.limits).1 a.count_fits in
      let band = (price_band_iff s p.limits a.price a.priced).1 a.price_fits in
      let condition =
        (same_condition_iff s port p.limits p.token_to_condition).1 a.condition_fits in
      let event =
        (same_event_iff s port p.limits p.token_to_event
            (get s.condition_id p.condition_to_event)).1
          a.event_fits in
      ground (arith, liquid, loss, room, band, condition, event, nd.le_not_lt a.price (lit 0 0))
