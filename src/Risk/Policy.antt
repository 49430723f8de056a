-- ===== src/Risk/Policy.antt =====
-- src/poly_meridian/risk/policy.py: `DefaultRiskPolicy`, the gate that every aggregated signal
-- passes. The book lookup is a callable that the pipeline injects, so it is a field; an exception
-- of it is the value `raised`. Log calls are left out.
pub mod Gate
pub mod Decisions
pub mod Switch
pub mod Condition
use poly_meridian.Prelude.{
  ℕ, ◌≡◌, refl, Bool, true, false, not, ◌&&◌, ◌||◌, Option, none, some, List, [], ◌∷◌, String,
  if◌then◌else◌, get_or, ◌==◌, string_eq, is_some,
}
use poly_meridian.Prelude.Dict.{Dict, get, insert, remove}
use poly_meridian.Num.{
  Num, Convert, Quantize, to_float, to_decimal, quantize, ◌*◌, ◌/◌, ◌<?◌, ◌≤?◌, lit, min,
}
use poly_meridian.Domain.{
  Datetime, AggregatedSignal, PortfolioSnapshot, TradeDecision, Side, OrderType, Action,
}
use poly_meridian.Risk.KillSwitch.{KillSwitch, observe_daily_pnl}
use poly_meridian.Risk.Limits.{
  RiskLimits, Reason, non_buy_direction, missing_or_invalid_proposed_price, check_market_liquidity,
  check_daily_loss, check_total_exposure, check_category_exposure, check_open_position_count,
  check_book_spread, check_entry_price_band, check_same_condition, check_same_event,
  check_position_size_cap, reduce_size_if_breached,
}

pub data RiskDecision : Type 0 where
  approve reject reduce : RiskDecision

-- How `evaluate` ends: with a decision, or with a `TypeError` where `_reject` is given its reason both
-- by position and by keyword.
pub data Evaluation : Type 0 where
  type_error : Evaluation
  decided : RiskDecision → Evaluation

-- What a call of the injected lookup does.
pub data Lookup (F : Type 0) : Type 0 where
  raised : Lookup F
  returned : Option (F × F) → Lookup F

pub record DefaultRiskPolicy (F : Type 0) : Type 0 where
  pub strategy_name : String
  pub limits : RiskLimits F
  pub kill_switch : KillSwitch F
  pub reduced_size_pct : Dict String F
  pub slippage_drift_bps : Option F
  pub drift_alarm_bps : F
  pub drift_size_multiplier : F
  pub token_to_condition : Dict String String
  pub token_to_event : Dict String String
  pub condition_to_event : Dict String String
  pub book_lookup : Option (String → Lookup F)

-- `for reason in reasons: if reason: return ...`
abbrev pub first_reason : {A : Type 0} → List (Option A) → Option A
first_reason [] = none
first_reason (none ∷ rs) = first_reason rs
first_reason (some r ∷ rs) = some r

abbrev pub is_buy : Action → Bool
is_buy Action.buy_yes = true
is_buy Action.buy_no = true
is_buy _ = false

-- The outcome of `evaluate` with what it logs or stores.
pub data Verdict (F : Type 0) : Type 0 where
  failed : Verdict F
  approved : Verdict F
  refused : Reason F → Verdict F
  reduced_to : F → Verdict F

module _ {F : Type 0} ⦃nf : Num F⦄ where
  unfoldable pub new_policy : String → RiskLimits F → KillSwitch F → DefaultRiskPolicy F
  new_policy name limits switch = record {
    strategy_name = name;
    limits = limits;
    kill_switch = switch;
    reduced_size_pct = [];
    slippage_drift_bps = none;
    drift_alarm_bps = lit 200 0;
    drift_size_multiplier = lit 5 1;
    token_to_condition = [];
    token_to_event = [];
    condition_to_event = [];
    book_lookup = none;
  }

module _ {F : Type 0} where
  unfoldable pub set_book_lookup : (String → Lookup F) → DefaultRiskPolicy F → DefaultRiskPolicy F
  set_book_lookup fn p = record p { book_lookup = some fn }

  -- `if event_id:` is false for none and for the empty text.
  unfoldable pub register_market :
      String → String → String → Option String → DefaultRiskPolicy F → DefaultRiskPolicy F
  register_market condition yes_token no_token event_id p =
      let conditions =
        insert no_token condition (insert yes_token condition p.token_to_condition) in
      elim event_id [
        | none ↦ record p { token_to_condition = conditions }
        | some event ↦
            (if event == "" then record p { token_to_condition = conditions } else record p {
              token_to_condition = conditions;
              token_to_event = insert no_token event (insert yes_token event p.token_to_event);
              condition_to_event = insert condition event p.condition_to_event;
            })
      ]

  unfoldable pub update_slippage_drift : Option F → DefaultRiskPolicy F → DefaultRiskPolicy F
  update_slippage_drift drift_bps p = record p { slippage_drift_bps = drift_bps }

module _ {F : Type 0} where
  -- How the call ends, and the policy with the reduced size stored.
  abbrev pub settle : String → DefaultRiskPolicy F → Verdict F → Evaluation × DefaultRiskPolicy F
  settle condition p failed = (type_error, p)
  settle condition p approved = (decided approve, p)
  settle condition p (refused _) = (decided reject, p)
  settle condition p (reduced_to pct) =
      (decided reduce, record p { reduced_size_pct = insert condition pct p.reduced_size_pct })

module _ {F D : Type 0} ⦃nf : Num F⦄ where
  abbrev check_spread_result : AggregatedSignal F D → RiskLimits F → Lookup F → Option (Reason F)
  check_spread_result s l raised = none
  check_spread_result s l (returned none) = none
  check_spread_result s l (returned (some (bid, ask))) = check_book_spread s l (some bid) (some ask)

  abbrev pub check_spread_via_lookup :
      DefaultRiskPolicy F → AggregatedSignal F D → Option (Reason F)
  check_spread_via_lookup p s = elim p.book_lookup [
    | none ↦ none
    | some look ↦ check_spread_result s p.limits (look s.token_id)
  ]

module _ {D : Type 0} ⦃nd : Num D⦄ where
  -- `proposed_price is None or proposed_price <= 0`
  abbrev pub is_invalid_price : Option D → Bool
  is_invalid_price none = true
  is_invalid_price (some price) = price ≤? lit 0 0

module _ {F D : Type 0} ⦃nf : Num F⦄ ⦃nd : Num D⦄ ⦃cv : Convert F D⦄ where
  -- The tuple of hard blocks, in its order.
  abbrev pub hard_blocks :
      DefaultRiskPolicy F → AggregatedSignal F D → PortfolioSnapshot F D → List (Option (Reason F))
  hard_blocks p s port =
      check_daily_loss port p.limits
      ∷ check_open_position_count port p.limits
      ∷ check_market_liquidity s p.limits
      ∷ check_entry_price_band s p.limits
      ∷ check_spread_via_lookup p s
      ∷ check_same_condition s port p.limits p.token_to_condition
      ∷ check_same_event s port p.limits p.token_to_event (get s.condition_id p.condition_to_event)
      ∷ []

  -- A breach of an exposure limit: reduce into the headroom, or refuse.
  unfoldable pub reduce_or_refuse :
      RiskLimits F → AggregatedSignal F D → PortfolioSnapshot F D → Reason F → Verdict F
  reduce_or_refuse l s port why = elim (reduce_size_if_breached s port l) [
    | none ↦ refused why
    | some pct ↦ (if pct ≤? lit 0 0 then refused why else reduced_to pct)
  ]

  -- The part of `evaluate` behind the hard blocks.
  unfoldable pub size_verdict :
      RiskLimits F → AggregatedSignal F D → PortfolioSnapshot F D → Verdict F
  unfolding reduce_or_refuse
  size_verdict l s port =
      let by_exposure : Verdict F =
        elim (first_reason
          (check_total_exposure s port l ∷ check_category_exposure s port l ∷ [])) [
            | some why ↦ reduce_or_refuse l s port why
            | none ↦ elim (check_position_size_cap s l) [
              | some _ ↦ reduced_to l.max_position_pct_of_bankroll
              | none ↦ approved
            ]
          ] in
      elim (check_position_size_cap s l) [
        | none ↦ by_exposure
        | some why ↦
            (if l.max_position_pct_of_bankroll * lit 15 1 <? s.size_pct
              then refused why
              else by_exposure)
      ]

  -- `evaluate` once the day's P&L has been observed.
  unfoldable pub verdict :
      DefaultRiskPolicy F → AggregatedSignal F D → PortfolioSnapshot F D → Verdict F
  unfolding size_verdict
  verdict p s port =
      if p.kill_switch.engaged
      then failed
      else if not (is_buy s.direction)
      then refused non_buy_direction
      else if is_invalid_price s.proposed_price
      then refused missing_or_invalid_proposed_price
      else elim (first_reason (hard_blocks p s port)) [
        | some why ↦ refused why
        | none ↦ size_verdict p.limits s port
      ]

  -- The policy once the kill switch has seen the day's P&L.
  abbrev pub observed : F → PortfolioSnapshot F D → DefaultRiskPolicy F → DefaultRiskPolicy F
  observed now port p = record p {
    kill_switch = observe_daily_pnl now port.daily_pnl_pct p.kill_switch;
  }

  unfoldable pub evaluate :
      F
      → AggregatedSignal F D
      → PortfolioSnapshot F D
      → DefaultRiskPolicy F
      → Evaluation × DefaultRiskPolicy F
  unfolding verdict observe_daily_pnl
  evaluate now s port p =
      settle s.condition_id (observed now port p) (verdict (observed now port p) s port)

module _ {F D : Type 0} ⦃nf : Num F⦄ ⦃nd : Num D⦄ ⦃qd : Quantize D⦄ ⦃cv : Convert F D⦄ where
  -- The fraction of the bankroll that `size` uses, after the caps.
  unfoldable pub used_size_pct : DefaultRiskPolicy F → AggregatedSignal F D → F
  used_size_pct p s =
      let asked = get_or (get s.condition_id p.reduced_size_pct) s.size_pct in
      let capped = min asked p.limits.max_position_pct_of_bankroll in
      elim p.slippage_drift_bps [
        | none ↦ capped
        | some drift ↦
            (if p.drift_alarm_bps <? drift then capped * p.drift_size_multiplier else capped)
      ]

  abbrev decision_of : DefaultRiskPolicy F → AggregatedSignal F D → D → D → TradeDecision D
  decision_of p s price units = record {
    ts = s.ts;
    strategy = p.strategy_name;
    token_id = s.token_id;
    side = Side.buy;
    order_type = OrderType.gtc;
    price = some price;
    size = units;
    paired_token = s.paired_token;
    paired_price = s.paired_price;
    paired_side = elim s.paired_side [ none ↦ none | some _ ↦ some Side.buy ];
  }

  -- The order for a fraction of the bankroll at a price; none if it rounds to nothing.
  unfoldable pub sized_decision :
      DefaultRiskPolicy F
      → AggregatedSignal F D
      → PortfolioSnapshot F D
      → D
      → F
      → Option (TradeDecision D)
  sized_decision p s port price size_pct =
      if size_pct ≤? lit 0 0
      then none
      else let size_usd = quantize 2 (port.nav_usd * to_decimal size_pct) in
        if size_usd ≤? lit 1 2
        then none
        else let size_units = quantize 2 (size_usd / price) in
          if size_units ≤? lit 0 0 then none else some (decision_of p s price size_units)

  unfoldable pub size :
      AggregatedSignal F D
      → PortfolioSnapshot F D
      → DefaultRiskPolicy F
      → Option (TradeDecision D) × DefaultRiskPolicy F
  unfolding used_size_pct sized_decision
  size s port p = elim s.proposed_price [
    | none ↦ (none, p)
    | some price ↦
        (if price ≤? lit 0 0 then (none, p) else (
          sized_decision p s port price (used_size_pct p s),
          record p { reduced_size_pct = remove s.condition_id p.reduced_size_pct },
        ))
  ]
