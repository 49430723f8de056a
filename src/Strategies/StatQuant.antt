-- ===== src/Strategies/StatQuant.antt =====
-- src/poly_meridian/strategies/stat_quant.py: `StatQuantStrategy`, four rules on the price history.
-- Counters of refused signals are left out; the time of a call is an argument.
use Prim.Native.Nat.{◌/◌ as ◌/ℕ◌}
use poly_meridian.Prelude.{
  ℕ, ◌≡◌, Bool, true, false, not, ◌&&◌, ◌||◌, Option, none, some, List, [], ◌∷◌, ◌++◌, String,
  if◌then◌else◌, get_or, length, last, take, drop, ltb, ◌==◌, string_eq, nat_eq,
}
use poly_meridian.Prelude.Chain.{◌>>=◌, require}
use poly_meridian.Prelude.Dict.{Dict, get, insert}
use poly_meridian.Num.{
  Num, Maths, Convert, Quantize, to_float, to_decimal, ◌+◌, ◌-◌, ◌*◌, ◌/◌, ◌<?◌, ◌≤?◌, lit, max,
  min, abs, num_eq,
}
use poly_meridian.Domain.{Datetime, Clock, Action, Market}
use poly_meridian.Book.{LocalBook, mid}
use poly_meridian.Features.{
  ask_of, RollingPriceWindow, push, momentum, rolling_volatility, rolling_zscore,
  time_to_resolution_hours,
}
use poly_meridian.Aggregator.{StrategySignal}
use poly_meridian.Risk.Kelly.{sized_kelly}
pub mod Sound

-- The settings of one rule: its threshold, window or factor, cap and floor.
pub record StatQuantConfig (F : Type 0) : Type 0 where
  pub mr_zscore_threshold : F
  pub mr_min_window : ℕ
  pub mr_max_size_pct : F
  pub mr_min_conviction : F
  pub mo_lookback : ℕ
  pub mo_return_threshold : F
  pub mo_min_volume : F
  pub mo_max_size_pct : F
  pub mo_min_conviction : F
  pub vb_low_vol_threshold : F
  pub vb_breakout_multiplier : F
  pub vb_max_size_pct : F
  pub vb_min_conviction : F
  pub td_horizon_hours_max : F
  pub td_price_deviation_threshold : F
  pub td_max_size_pct : F
  pub td_min_conviction : F

pub record StatQuantStrategy (F D : Type 0) : Type 0 where
  pub enabled : Bool
  pub config : StatQuantConfig F
  pub history : Dict String (RollingPriceWindow F)
  pub volume_1h : Dict String F
  pub books : Dict String (LocalBook D)

-- The rule of a signal, with what it measured.
pub data Sub (F : Type 0) : Type 0 where
  mean_reversion : F → Sub F
  with_momentum : F → Sub F
  vol_breakout : F → F → Sub F
  time_decay : F → F → Sub F

pub record Rationale (F : Type 0) : Type 0 where
  pub sub : Sub F
  pub best_ask : F
  pub max_size_pct : F
  pub our_p_long : F
  pub market_p_long : F

abbrev pub larger : ℕ → ℕ → ℕ
larger a b = if ltb a b then b else a

-- `xs[-n:]`, which is the whole list for zero.
abbrev pub tail_of : {A : Type 0} → ℕ → List A → List A
tail_of n xs = if n == 0 then xs else last n xs

abbrev pub name_of : {F : Type 0} → Sub F → String
name_of (mean_reversion z) = "stat_quant.mean_reversion"
name_of (with_momentum r) = "stat_quant.momentum"
name_of (vol_breakout p r) = "stat_quant.vol_breakout"
name_of (time_decay h p) = "stat_quant.time_decay"

abbrev pub token_of : {D : Type 0} → Action → Market D → String
token_of Action.buy_yes m = m.yes_token_id
token_of _ m = m.no_token_id

module _ {F D : Type 0} where
  abbrev pub capacity : StatQuantStrategy F D → ℕ
  capacity s = larger (larger s.config.mr_min_window s.config.mo_lookback) 60

  unfoldable pub attach_book : String → LocalBook D → StatQuantStrategy F D → StatQuantStrategy F D
  attach_book token book s = record s { books = insert token book s.books }

  unfoldable pub push_price : String → F → StatQuantStrategy F D → StatQuantStrategy F D
  push_price token price s =
      let w = get_or (get token s.history) (record { capacity = capacity s; prices = [] }) in
      record s { history = insert token (push price w) s.history }

  unfoldable pub set_volume : String → F → StatQuantStrategy F D → StatQuantStrategy F D
  set_volume token volume_1h s = record s { volume_1h = insert token volume_1h s.volume_1h }

module _ {D : Type 0} ⦃nd : Num D⦄ where
  abbrev pub mid_of_token : Dict String (LocalBook D) → String → Option D
  mid_of_token books token = elim (get token books) [ none ↦ none | some b ↦ mid b ]

module _ {F : Type 0} ⦃nf : Num F⦄ where
  -- The side that a price far from one half leans to.
  abbrev pub leaning : F → F → Option Action
  leaning threshold yes_p =
      if lit 5 1 + threshold <? yes_p
      then some Action.buy_yes
      else if yes_p <? lit 5 1 - threshold
      then some Action.buy_no
      else none

  -- With the sign of a return: up buys "yes".
  abbrev pub trend_action : F → Action
  trend_action ret = if lit 0 0 <? ret then Action.buy_yes else Action.buy_no

module _ {F D : Type 0} ⦃nf : Num F⦄ ⦃cv : Convert F D⦄ where
  abbrev pub signal_of :
      Datetime → Market D → Sub F → Action → D → F → F → F → StrategySignal (Rationale F) F
  signal_of now m sub action price conviction edge cap = record {
    ts = now;
    strategy = name_of sub;
    condition_id = m.condition_id;
    token_id = token_of action m;
    edge = edge;
    conviction = conviction;
    suggested_action = action;
    rationale = record {
      sub = sub;
      best_ask = to_float price;
      max_size_pct = cap;
      our_p_long = max (lit 1 2) (min (lit 99 2) (to_float price + edge));
      market_p_long = to_float price;
    };
  }

module _ {F D : Type 0} ⦃nf : Num F⦄ ⦃nd : Num D⦄ ⦃cv : Convert F D⦄ where
  -- How each rule ends: the side's best ask, the floor of the conviction and the signal.
  unfoldable pub bet :
      Datetime
      → Market D
      → Dict String (LocalBook D)
      → Sub F
      → Action
      → F
      → F
      → F
      → F
      → Option (StrategySignal (Rationale F) F)
  bet now m books sub action conviction floor edge cap = do
    price ← ask_of books (token_of action m)
    _ ← require (not (conviction <? floor))
    some (signal_of now m sub action price conviction edge cap)

  unfoldable pub time_decay_signal :
      ⦃ck : Clock F⦄
      → Datetime
      → Market D
      → StatQuantStrategy F D
      → Option (StrategySignal (Rationale F) F)
  time_decay_signal now m s = do
    hours ← time_to_resolution_hours now m.end_date_iso
    _ ← require (not (hours ≤? lit 0 0 || s.config.td_horizon_hours_max <? hours))
    yes_mid ← mid_of_token s.books m.yes_token_id
    no_mid ← mid_of_token s.books m.no_token_id
    action ← leaning s.config.td_price_deviation_threshold (to_float yes_mid)
    bet now m s.books (time_decay hours (to_float yes_mid)) action
        (min (lit 1 0) (lit 4 1 + lit 6 1 * (lit 1 0 - hours / s.config.td_horizon_hours_max)))
        s.config.td_min_conviction (min (lit 20 2) (abs (to_float yes_mid - lit 5 1) * lit 1 0))
        s.config.td_max_size_pct

  unfoldable pub momentum_signal :
      Datetime → Market D → StatQuantStrategy F D → Option (StrategySignal (Rationale F) F)
  momentum_signal now m s = do
    w ← get m.yes_token_id s.history
    _ ← require (not (ltb (length w.prices) s.config.mo_lookback))
    ret ← momentum (tail_of s.config.mo_lookback w.prices)
    _ ← require (not (abs ret <? s.config.mo_return_threshold))
    _ ← require (not (get_or (get m.yes_token_id s.volume_1h) (lit 0 0) <? s.config.mo_min_volume))
    bet now m s.books (with_momentum ret) (trend_action ret)
        (min (lit 1 0) (abs ret / (s.config.mo_return_threshold * lit 4 0)))
        s.config.mo_min_conviction (min (lit 15 2) (abs ret * lit 1 0)) s.config.mo_max_size_pct

module _ {F D : Type 0} ⦃nf : Num F⦄ ⦃nd : Num D⦄ ⦃cv : Convert F D⦄ (maths : Maths F) where
  unfoldable pub mean_reversion_signal :
      Datetime → Market D → StatQuantStrategy F D → Option (StrategySignal (Rationale F) F)
  mean_reversion_signal now m s = do
    w ← get m.yes_token_id s.history
    _ ← require (not (ltb (length w.prices) s.config.mr_min_window))
    z ← rolling_zscore maths w.prices
    _ ← require (not (abs z <? s.config.mr_zscore_threshold))
    bet now m s.books (mean_reversion z) (if lit 0 0 <? z then Action.buy_no else Action.buy_yes)
        (min (lit 1 0) (abs z / (s.config.mr_zscore_threshold * lit 2 0)))
        s.config.mr_min_conviction (min (lit 20 2) (abs z * lit 5 2)) s.config.mr_max_size_pct

  -- The part of the breakout rule on the two halves of the window.
  abbrev pub breakout_of :
      Datetime
      → Market D
      → StatQuantStrategy F D
      → F
      → F
      → F
      → Option (StrategySignal (Rationale F) F)
  breakout_of now m s prior_vol recent_vol ret = do
    _ ← require (not (prior_vol == lit 0 0 || s.config.vb_low_vol_threshold <? prior_vol))
    _ ← require (not (recent_vol <? prior_vol * s.config.vb_breakout_multiplier))
    _ ← require (not (abs ret <? lit 1 2))
    bet now m s.books (vol_breakout prior_vol recent_vol) (trend_action ret)
        (min (lit 1 0) (recent_vol / (prior_vol * s.config.vb_breakout_multiplier)))
        s.config.vb_min_conviction (min (lit 10 2) (abs ret)) s.config.vb_max_size_pct

  unfoldable pub vol_breakout_signal :
      Datetime → Market D → StatQuantStrategy F D → Option (StrategySignal (Rationale F) F)
  vol_breakout_signal now m s = do
    w ← get m.yes_token_id s.history
    _ ← require (not (ltb (length w.prices) (capacity s)))
    breakout_of now m s
        (get_or (rolling_volatility maths (take (length w.prices /ℕ 2) w.prices)) (lit 0 0))
        (get_or (rolling_volatility maths (drop (length w.prices /ℕ 2) w.prices)) (lit 0 0))
        (get_or (momentum (drop (length w.prices /ℕ 2) w.prices)) (lit 0 0))

module _ {R F : Type 0} ⦃nf : Num F⦄ where
  abbrev pub with_candidate :
      Option (StrategySignal R F) → List (StrategySignal R F) → List (StrategySignal R F)
  with_candidate none cs = cs
  with_candidate (some c) cs = c ∷ cs

  -- `max(candidates, key=lambda s: s.conviction)`: the first of the strongest.
  unfoldable pub strongest_from :
      StrategySignal R F → List (StrategySignal R F) → StrategySignal R F
  strongest_from g [] = g
  strongest_from g (c ∷ cs) =
      if g.conviction <? c.conviction then strongest_from c cs else strongest_from g cs

  unfoldable pub strongest : List (StrategySignal R F) → Option (StrategySignal R F)
  unfolding strongest_from
  strongest [] = none
  strongest (c ∷ cs) = some (strongest_from c cs)

module _ {F D : Type 0} ⦃nf : Num F⦄ ⦃nd : Num D⦄ ⦃cv : Convert F D⦄ ⦃ck : Clock F⦄
    (maths : Maths F) where
  unfoldable pub candidates :
      Datetime → Market D → StatQuantStrategy F D → List (StrategySignal (Rationale F) F)
  unfolding mean_reversion_signal momentum_signal vol_breakout_signal time_decay_signal
  candidates now m s = with_candidate (mean_reversion_signal maths now m s) (
      with_candidate (momentum_signal now m s) (
        with_candidate (vol_breakout_signal maths now m s)
          (with_candidate (time_decay_signal now m s) [])))

  unfoldable pub evaluate :
      Datetime → Market D → StatQuantStrategy F D → Option (StrategySignal (Rationale F) F)
  unfolding candidates strongest
  evaluate now m s = if s.enabled then strongest (candidates now m s) else none

-- The aggregator's helpers.
abbrev pub proposed_price : {F D : Type 0} ⦃cv : Convert F D⦄ → Rationale F → D
proposed_price r = to_decimal r.best_ask

module _ {F D : Type 0} ⦃nf : Num F⦄ ⦃nd : Num D⦄ ⦃qd : Quantize D⦄ ⦃cv : Convert F D⦄ where
  abbrev pub proposed_size_pct : Rationale F → D → F → F
  proposed_size_pct r bankroll_usd max_size_pct =
      (sized_kelly r.our_p_long r.market_p_long bankroll_usd (lit 25 2)
        (min max_size_pct r.max_size_pct)).f_used
