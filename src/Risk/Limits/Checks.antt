-- ===== src/Risk/Limits/Checks.antt =====
-- What it means that a check passes: the numbers that it has compared.
use poly_meridian.Prelude.{
  ◌<◌, ◌≡◌, refl, ◌↔◌, true, false, Option, none, some, String, arith, count, if◌then◌else◌,
}
use poly_meridian.Prelude.Dict.{Dict}
use poly_meridian.Num.{Num, Convert, to_float, ◌+◌, ◌<?◌, ◌≤?◌, lit, neg, min}
use poly_meridian.Num.Order.{le_refl, min_le_left, min_le_right, le_trans}
use poly_meridian.Domain.{AggregatedSignal, PortfolioSnapshot}
use poly_meridian.Risk.Limits.{
  RiskLimits, check_market_liquidity, check_daily_loss, check_total_exposure,
  check_category_exposure, check_open_position_count, check_entry_price_band, check_same_condition,
  check_same_event, check_position_size_cap, is_held_in, category_exposure, size_headroom,
  headroom_total, headroom_cat, reduce_size_if_breached,
}

module _ {F : Type 0} ⦃nf : Num F⦄ where
  reduced_value :
      (size room : F) {r : F}
      → ◌≡◌ {A = Option F}
          (if size ≤? room then none else if lit 0 0 <? room then some room else some (lit 0 0))
          (some r)
      → (r ≤? lit 0 0) ≡ false
      → (r ≡ room) × ((room <? size) ≡ true)
  reduced_value size room {r} e h =
      ground (arith, le_refl {A = F} (lit 0 0), nf.le_not_lt size room)

module _ {F D : Type 0} ⦃nf : Num F⦄ where
  pub liquidity_iff :
      (s : AggregatedSignal F D) (l : RiskLimits F)
      → (check_market_liquidity s l ≡ none) ↔ (
          (usd : F) × (s.market_liquidity_usd ≡ some usd)
          × ((l.min_market_liquidity_usd ≤? usd) ≡ true))
  unfolding check_market_liquidity
  liquidity_iff s l = (
    λ h. there s.market_liquidity_usd refl h,
    λ h. ground (arith, nf.le_not_lt l.min_market_liquidity_usd h.0),
  )
    where
      there :
          (o : Option F)
          → s.market_liquidity_usd ≡ o
          → check_market_liquidity s l ≡ none
          → (usd : F) × (o ≡ some usd) × ((l.min_market_liquidity_usd ≤? usd) ≡ true)
      there none e h = absurd (ground arith)
      there (some usd) e h =
          (usd, refl, ground (arith, nf.le_not_lt l.min_market_liquidity_usd usd))

  pub daily_loss_iff :
      (p : PortfolioSnapshot F D) (l : RiskLimits F)
      → (check_daily_loss p l ≡ none) ↔ ((neg l.daily_max_loss_pct ≤? p.daily_pnl_pct) ≡ true)
  unfolding check_daily_loss
  daily_loss_iff p l = ground (arith, nf.le_not_lt (neg l.daily_max_loss_pct) p.daily_pnl_pct)

  pub open_count_iff :
      (p : PortfolioSnapshot F D) (l : RiskLimits F)
      → (check_open_position_count p l ≡ none) ↔ (p.open_position_count < l.max_open_positions)
  unfolding check_open_position_count
  open_count_iff p l = ground arith

  pub total_iff :
      (s : AggregatedSignal F D) (p : PortfolioSnapshot F D) (l : RiskLimits F)
      → (check_total_exposure s p l ≡ none)
        ↔ (((p.total_exposure_pct + s.size_pct) ≤? l.max_total_exposure_pct) ≡ true)
  unfolding check_total_exposure
  total_iff s p l =
      ground (arith, nf.le_not_lt (p.total_exposure_pct + s.size_pct) l.max_total_exposure_pct)

  -- The bound of a signal's category, if it has one.
  abbrev pub CategoryFits : AggregatedSignal F D → PortfolioSnapshot F D → RiskLimits F → Type 0
  CategoryFits s p l =
      (c : String)
      → s.category ≡ some c
      → ((category_exposure p c + s.size_pct) ≤? l.max_exposure_per_category_pct) ≡ true

  pub category_iff :
      (s : AggregatedSignal F D) (p : PortfolioSnapshot F D) (l : RiskLimits F)
      → (check_category_exposure s p l ≡ none) ↔ CategoryFits s p l
  unfolding check_category_exposure
  category_iff s p l = (
    λ h c e.
        ground (
          arith,
          nf.le_not_lt (category_exposure p c + s.size_pct) l.max_exposure_per_category_pct,
        ),
    λ h. back s.category refl h,
  )
    where
      back :
          (o : Option String)
          → s.category ≡ o
          → CategoryFits s p l
          → check_category_exposure s p l ≡ none
      back none e h = ground arith
      back (some c) e h = ground (
        arith,
        h c e,
        nf.le_not_lt (category_exposure p c + s.size_pct) l.max_exposure_per_category_pct,
      )

  pub size_cap_iff :
      (s : AggregatedSignal F D) (l : RiskLimits F)
      → (check_position_size_cap s l ≡ none)
        ↔ ((s.size_pct ≤? l.max_position_pct_of_bankroll) ≡ true)
  unfolding check_position_size_cap
  size_cap_iff s l = ground (arith, nf.le_not_lt s.size_pct l.max_position_pct_of_bankroll)

  -- A positive reduction is smaller than what was asked, and within each of the three headrooms.
  pub reduction_bounds :
      (s : AggregatedSignal F D) (p : PortfolioSnapshot F D) (l : RiskLimits F) {r : F}
      → reduce_size_if_breached s p l ≡ some r
      → (r ≤? lit 0 0) ≡ false
      → ((r <? s.size_pct) ≡ true)
        × ((r ≤? l.max_position_pct_of_bankroll) ≡ true)
        × ((r ≤? headroom_total p l) ≡ true)
        × ((r ≤? headroom_cat s p l) ≡ true)
  unfolding reduce_size_if_breached
  reduction_bounds s p l {r} e h =
      let (same, below) = reduced_value s.size_pct (size_headroom s p l) e h in
      let both =
        min_le_left (min (headroom_total p l) (headroom_cat s p l))
          l.max_position_pct_of_bankroll in
      rw same (
        below,
        min_le_right (min (headroom_total p l) (headroom_cat s p l)) l.max_position_pct_of_bankroll,
        le_trans {A = F} (size_headroom s p l) (min (headroom_total p l) (headroom_cat s p l))
            (headroom_total p l) both (min_le_left (headroom_total p l) (headroom_cat s p l)),
        le_trans {A = F} (size_headroom s p l) (min (headroom_total p l) (headroom_cat s p l))
            (headroom_cat s p l) both (min_le_right (headroom_total p l) (headroom_cat s p l)),
      )

module _ {F D : Type 0} ⦃nf : Num F⦄ ⦃cv : Convert F D⦄ where
  abbrev pub PriceFits : AggregatedSignal F D → RiskLimits F → D → Type 0
  PriceFits s l price =
      let p : F = to_float price in
      ((l.min_entry_price ≤? p) ≡ true) × ((p ≤? l.max_entry_price) ≡ true)

  pub price_band_iff :
      (s : AggregatedSignal F D) (l : RiskLimits F) (price : D)
      → s.proposed_price ≡ some price
      → (check_entry_price_band s l ≡ none) ↔ PriceFits s l price
  unfolding check_entry_price_band
  price_band_iff s l price e = ground (
    arith,
    nf.le_not_lt l.min_entry_price (cv.to_float price),
    nf.le_not_lt (cv.to_float price) l.max_entry_price,
  )

  pub same_condition_iff :
      (s : AggregatedSignal F D) (p : PortfolioSnapshot F D) (l : RiskLimits F)
      (m : Dict String String)
      → (check_same_condition s p l m ≡ none)
        ↔ (count (is_held_in F m s.condition_id) p.positions < l.max_positions_per_condition)
  unfolding check_same_condition
  same_condition_iff s p l m = ground arith

  -- The bound of a signal's event, if it is known.
  abbrev pub EventFits :
      PortfolioSnapshot F D → RiskLimits F → Dict String String → Option String → Type 0
  EventFits p l m none = Unit
  EventFits p l m (some event) =
      count (is_held_in F m event) p.positions < l.max_positions_per_event

  pub same_event_iff :
      (s : AggregatedSignal F D) (p : PortfolioSnapshot F D) (l : RiskLimits F)
      (m : Dict String String) (event : Option String)
      → (check_same_event s p l m event ≡ none) ↔ EventFits p l m event
  unfolding check_same_event
  same_event_iff s p l m none = (λ h. tt, λ h. refl)
  same_event_iff s p l m (some event) = ground arith
