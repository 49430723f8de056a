-- ===== src/Risk/Limits.antt =====
-- src/poly_meridian/risk/limits.py: each check returns none (pass) or the reason of a block.
-- A reason carries the values that the source formats into its text.
pub mod Checks
use poly_meridian.Prelude.{
  ℕ, suc, ◌≡◌, refl, Bool, true, false, not, ◌&&◌, Option, none, some, List, [], ◌∷◌, String, leb,
  count, if◌then◌else◌, get_or, is_none, ◌==◌, string_eq,
}
use poly_meridian.Prelude.Dict.{Dict, get}
use poly_meridian.Num.{Num, Convert, to_float, ◌+◌, ◌-◌, ◌/◌, ◌<?◌, ◌≤?◌, lit, neg, min, max}
use poly_meridian.Domain.{AggregatedSignal, PortfolioSnapshot, Position}

pub record RiskLimits (F : Type 0) : Type 0 where
  pub kelly_fraction : F
  pub max_position_pct_of_bankroll : F
  pub max_exposure_per_category_pct : F
  pub max_total_exposure_pct : F
  pub daily_max_loss_pct : F
  pub weekly_max_loss_pct : F
  pub max_concentration_single_event_pct : F
  pub max_open_positions : ℕ
  pub min_market_liquidity_usd : F
  pub max_position_pct_of_market_volume : F
  pub max_resolution_days : Option F
  pub min_resolution_days : Option F
  pub max_positions_per_condition : ℕ
  pub max_positions_per_event : ℕ
  pub min_entry_price : F
  pub max_entry_price : F
  pub max_spread_fraction_of_mid : F

pub data Reason (F : Type 0) : Type 0 where
  non_buy_direction missing_or_invalid_proposed_price : Reason F
  liquidity_unknown : Reason F
  liquidity_below_min : F → F → Reason F
  daily_loss_breached : F → F → Reason F
  total_exposure_breached : F → F → Reason F
  category_exposure_breached : String → F → F → Reason F
  max_open_positions_reached : ℕ → ℕ → Reason F
  price_below_floor : F → F → Reason F
  price_above_ceiling : F → F → Reason F
  spread_too_wide : F → F → Reason F
  same_condition_open : String → ℕ → ℕ → Reason F
  same_event_cap : String → ℕ → ℕ → Reason F
  position_size_too_large : F → F → Reason F

module _ {F : Type 0} ⦃nf : Num F⦄ where
  abbrev pub default_limits : RiskLimits F
  default_limits = record {
    kelly_fraction = lit 25 2;
    max_position_pct_of_bankroll = lit 5 2;
    max_exposure_per_category_pct = lit 30 2;
    max_total_exposure_pct = lit 80 2;
    daily_max_loss_pct = lit 5 2;
    weekly_max_loss_pct = lit 10 2;
    max_concentration_single_event_pct = lit 10 2;
    max_open_positions = 50;
    min_market_liquidity_usd = lit 10000 0;
    max_position_pct_of_market_volume = lit 5 2;
    max_resolution_days = some (lit 45 0);
    min_resolution_days = some (lit 5 1);
    max_positions_per_condition = 1;
    max_positions_per_event = 2;
    min_entry_price = lit 1 2;
    max_entry_price = lit 99 2;
    max_spread_fraction_of_mid = lit 25 2;
  }

-- The checks that read one float at a time.
module _ {F D : Type 0} ⦃nf : Num F⦄ where
  unfoldable pub check_market_liquidity : AggregatedSignal F D → RiskLimits F → Option (Reason F)
  check_market_liquidity s l = elim s.market_liquidity_usd [
    | none ↦ some liquidity_unknown
    | some usd ↦
        (if usd <? l.min_market_liquidity_usd
          then some (liquidity_below_min usd l.min_market_liquidity_usd)
          else none)
  ]

  unfoldable pub check_daily_loss : PortfolioSnapshot F D → RiskLimits F → Option (Reason F)
  check_daily_loss p l =
      if p.daily_pnl_pct <? neg l.daily_max_loss_pct
      then some (daily_loss_breached p.daily_pnl_pct l.daily_max_loss_pct)
      else none

  unfoldable pub check_total_exposure :
      AggregatedSignal F D → PortfolioSnapshot F D → RiskLimits F → Option (Reason F)
  check_total_exposure s p l =
      let projected = p.total_exposure_pct + s.size_pct in
      if l.max_total_exposure_pct <? projected
      then some (total_exposure_breached projected l.max_total_exposure_pct)
      else none

  -- `portfolio.category_exposure_pct.get(category, 0.0)`
  abbrev pub category_exposure : PortfolioSnapshot F D → String → F
  category_exposure p c = get_or (get c p.category_exposure_pct) (lit 0 0)

  unfoldable pub check_category_exposure :
      AggregatedSignal F D → PortfolioSnapshot F D → RiskLimits F → Option (Reason F)
  check_category_exposure s p l = elim s.category [
    | none ↦ none
    | some c ↦
        (let projected = category_exposure p c + s.size_pct in
          if l.max_exposure_per_category_pct <? projected
          then some (category_exposure_breached c projected l.max_exposure_per_category_pct)
          else none)
  ]

  unfoldable pub check_open_position_count :
      PortfolioSnapshot F D → RiskLimits F → Option (Reason F)
  check_open_position_count p l =
      if leb l.max_open_positions p.open_position_count
      then some (max_open_positions_reached p.open_position_count l.max_open_positions)
      else none

  unfoldable pub check_book_spread :
      AggregatedSignal F D → RiskLimits F → Option F → Option F → Option (Reason F)
  check_book_spread s l none _ = none
  check_book_spread s l (some bid) none = none
  check_book_spread s l (some bid) (some ask) =
      if bid ≤? lit 0 0
      then none
      else if ask ≤? lit 0 0
      then none
      else let mid = (bid + ask) / lit 2 0 in
        if mid ≤? lit 0 0
        then none
        else let spread = ask - bid in
          if spread ≤? lit 0 0
          then none
          else if l.max_spread_fraction_of_mid <? spread / mid
          then some (spread_too_wide (spread / mid) l.max_spread_fraction_of_mid)
          else none

  unfoldable pub check_position_size_cap : AggregatedSignal F D → RiskLimits F → Option (Reason F)
  check_position_size_cap s l =
      if l.max_position_pct_of_bankroll <? s.size_pct
      then some (position_size_too_large s.size_pct l.max_position_pct_of_bankroll)
      else none

  abbrev pub headroom_total : PortfolioSnapshot F D → RiskLimits F → F
  headroom_total p l = max (lit 0 0) (l.max_total_exposure_pct - p.total_exposure_pct)

  abbrev pub headroom_cat : AggregatedSignal F D → PortfolioSnapshot F D → RiskLimits F → F
  headroom_cat s p l = elim s.category [
    | none ↦ l.max_total_exposure_pct
    | some c ↦ max (lit 0 0) (l.max_exposure_per_category_pct - category_exposure p c)
  ]

  -- `min(headroom_total, headroom_cat, headroom_size_cap)`
  abbrev pub size_headroom : AggregatedSignal F D → PortfolioSnapshot F D → RiskLimits F → F
  size_headroom s p l =
      min (min (headroom_total p l) (headroom_cat s p l)) l.max_position_pct_of_bankroll

  unfoldable pub reduce_size_if_breached :
      AggregatedSignal F D → PortfolioSnapshot F D → RiskLimits F → Option F
  reduce_size_if_breached s p l =
      let cap = size_headroom s p l in
      if s.size_pct ≤? cap then none else if lit 0 0 <? cap then some cap else some (lit 0 0)

module _ (F : Type 0) {D : Type 0} ⦃nf : Num F⦄ ⦃cv : Convert F D⦄ where
  -- A held position whose token is known to belong to the group. An empty id is no group.
  abbrev pub is_held_in : Dict String String → String → Position D → Bool
  is_held_in groups g pos =
      let qty : F = to_float pos.qty in
      not (qty ≤? lit 0 0)
      && elim (get pos.token_id groups) [ none ↦ false | some h ↦ not (h == "") && h == g ]

module _ {F D : Type 0} ⦃nf : Num F⦄ ⦃cv : Convert F D⦄ where
  unfoldable pub check_entry_price_band : AggregatedSignal F D → RiskLimits F → Option (Reason F)
  check_entry_price_band s l = elim s.proposed_price [
    | none ↦ none
    | some price ↦
        (let p : F = to_float price in
          if p <? l.min_entry_price
          then some (price_below_floor p l.min_entry_price)
          else if l.max_entry_price <? p
          then some (price_above_ceiling p l.max_entry_price)
          else none)
  ]

  unfoldable pub check_same_condition :
      AggregatedSignal F D
      → PortfolioSnapshot F D
      → RiskLimits F
      → Dict String String
      → Option (Reason F)
  check_same_condition s p l token_to_condition =
      let same = count (is_held_in F token_to_condition s.condition_id) p.positions in
      if leb l.max_positions_per_condition same
      then some (same_condition_open s.condition_id same l.max_positions_per_condition)
      else none

  unfoldable pub check_same_event :
      AggregatedSignal F D
      → PortfolioSnapshot F D
      → RiskLimits F
      → Dict String String
      → Option String
      → Option (Reason F)
  check_same_event s p l token_to_event none = none
  check_same_event s p l token_to_event (some event) =
      let same = count (is_held_in F token_to_event event) p.positions in
      if leb l.max_positions_per_event same
      then some (same_event_cap event same l.max_positions_per_event)
      else none
