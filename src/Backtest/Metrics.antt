-- ===== src/Backtest/Metrics.antt =====
-- src/poly_meridian/backtest/metrics.py: performance metrics of an equity curve. `math.sqrt`, the
-- power of floats and infinity are an interface.
use poly_meridian.Prelude.{
  ℕ, suc, ◌≡◌, refl, Bool, true, false, not, ◌&&◌, ◌||◌, Option, none, some, List, [], ◌∷◌, ◌++◌,
  map, filter, length, if◌then◌else◌, ltb, ◌==◌,
}
use poly_meridian.Num.{Num, Maths, ◌+◌, ◌*◌, ◌/◌, ◌<?◌, ◌≤?◌, lit, neg, max, sum, num_eq}
use Prim.Native.Nat.{◌-◌}
pub mod Drawdown
pub mod Gate

pub record PerformanceMetrics (F : Type 0) : Type 0 where
  pub total_return : F
  pub cagr : F
  pub volatility_annual : F
  pub sharpe : F
  pub sortino : F
  pub calmar : F
  pub max_drawdown : F
  pub win_rate : F
  pub profit_factor : F
  pub expectancy_usd : F
  pub trade_count : ℕ

-- A reason of `meets_live_gate`, with the value that its text shows.
pub data Failure (F : Type 0) : Type 0 where
  low_sharpe high_drawdown low_win_rate : F → Failure F
  few_trades : ℕ → Failure F

module _ {F : Type 0} ⦃nf : Num F⦄ where
  abbrev pub count_of : {A : Type 0} → List A → F
  count_of xs = lit (length xs) 0

  abbrev pub last_of : F → List F → F
  last_of x [] = x
  last_of x (y ∷ ys) = last_of y ys

  unfoldable pub trading_periods_per_year : F → F
  trading_periods_per_year period_sec = lit 31536000 0 / max period_sec (lit 1 0)

  unfoldable pub total_return : List F → F
  total_return [] = lit 0 0
  total_return (x ∷ []) = lit 0 0
  total_return (x ∷ y ∷ ys) = if x == lit 0 0 then lit 0 0 else nf.sub (last_of y ys) x / x

  unfoldable pub returns_from_equity : List F → List F
  returns_from_equity [] = []
  returns_from_equity (x ∷ []) = []
  returns_from_equity (x ∷ y ∷ ys) =
      let rest = returns_from_equity (y ∷ ys) in
      (if x == lit 0 0 then lit 0 0 else nf.sub y x / x) ∷ rest

  abbrev pub mean : List F → F
  mean xs = sum xs / count_of xs

  -- The loop of `max_drawdown`.
  unfoldable pub drawdown_from : F → F → List F → F
  drawdown_from peak max_dd [] = max_dd
  drawdown_from peak max_dd (v ∷ vs) =
      let top = max peak v in
      drawdown_from top (if lit 0 0 <? top then max max_dd (nf.sub top v / top) else max_dd) vs

  unfoldable pub max_drawdown : List F → F
  unfolding drawdown_from
  max_drawdown [] = lit 0 0
  max_drawdown (x ∷ xs) = drawdown_from x (lit 0 0) xs

  abbrev pub is_gain : F → Bool
  is_gain p = lit 0 0 <? p

  abbrev pub is_loss : F → Bool
  is_loss p = p <? lit 0 0

  -- `periods` of a year, and the annual rate without risk, which is zero.
  abbrev pub excess : List F → F → F
  excess returns periods = nf.sub (mean returns) (lit 0 0 / periods)

module _ {F : Type 0} ⦃nf : Num F⦄ (maths : Maths F) where
  unfoldable pub cagr : List F → F → F
  cagr [] duration_sec = lit 0 0
  cagr (x ∷ []) duration_sec = lit 0 0
  cagr (x ∷ y ∷ ys) duration_sec =
      if x ≤? lit 0 0 || duration_sec ≤? lit 0 0
      then lit 0 0
      else let years = duration_sec / lit 31536000 0 in
        if years ≤? lit 0 0
        then lit 0 0
        else nf.sub (maths.power (last_of y ys / x) (lit 1 0 / years)) (lit 1 0)

  unfoldable pub volatility : List F → F
  volatility returns =
      if ltb (length returns) 2
      then lit 0 0
      else let m = mean returns in
        maths.sqrt (
          sum (map (λ (r : F). maths.power (nf.sub r m) (lit 2 0)) returns)
          / lit (length returns - 1) 0)

  unfoldable pub sharpe_ratio : List F → F → F
  unfolding volatility
  sharpe_ratio returns periods_per_year =
      if ltb (length returns) 2
      then lit 0 0
      else let sd = volatility returns in
        if sd == lit 0 0
        then lit 0 0
        else excess returns periods_per_year / sd * maths.sqrt periods_per_year

  unfoldable pub sortino_ratio : List F → F → F
  sortino_ratio returns periods_per_year =
      if ltb (length returns) 2 then lit 0 0 else elim (filter is_loss returns) [
        | [] ↦ (if lit 0 0 <? mean returns then maths.infinity else lit 0 0)
        | d ∷ ds ↦
            (let dd = maths.sqrt (sum (map (λ (r : F). r * r) (d ∷ ds)) / count_of returns) in
              if dd == lit 0 0
              then lit 0 0
              else excess returns periods_per_year / dd * maths.sqrt periods_per_year)
      ]

  unfoldable pub calmar_ratio : F → F → F
  calmar_ratio cagr_value max_dd =
      if max_dd == lit 0 0
      then (if lit 0 0 <? cagr_value then maths.infinity else lit 0 0)
      else cagr_value / max_dd

  -- Win rate, profit factor and expectancy.
  unfoldable pub trade_stats : List F → F × F × F
  trade_stats [] = (lit 0 0, lit 0 0, lit 0 0)
  trade_stats (p ∷ ps) =
      let wins = filter is_gain (p ∷ ps) in
      let profit = sum wins in
      let loss = neg (sum (filter is_loss (p ∷ ps))) in
      (
        count_of wins / count_of (p ∷ ps),
        if lit 0 0 <? loss
            then profit / loss
            else if lit 0 0 <? profit
            then maths.infinity
            else lit 0 0,
        mean (p ∷ ps),
      )

  unfoldable pub compute_all : List F → List F → F → F → PerformanceMetrics F
  unfolding cagr sharpe_ratio sortino_ratio calmar_ratio trade_stats max_drawdown
  compute_all equity_curve trade_pnls duration_sec period_sec =
      let rets = returns_from_equity equity_curve in
      let ppy = trading_periods_per_year period_sec in
      let growth = cagr equity_curve duration_sec in
      let mdd = max_drawdown equity_curve in
      let (win_rate, factor, expectancy) = trade_stats trade_pnls in
      record {
        total_return = total_return equity_curve;
        cagr = growth;
        volatility_annual = volatility rets * maths.sqrt ppy;
        sharpe = sharpe_ratio rets ppy;
        sortino = sortino_ratio rets ppy;
        calmar = calmar_ratio growth mdd;
        max_drawdown = mdd;
        win_rate = win_rate;
        profit_factor = factor;
        expectancy_usd = expectancy;
        trade_count = length trade_pnls;
      }

module _ {F : Type 0} ⦃nf : Num F⦄ where
  abbrev pub add_if : Bool → Failure F → List (Failure F) → List (Failure F)
  add_if true f fs = f ∷ fs
  add_if false f fs = fs

  abbrev pub no_failures : List (Failure F) → Bool
  no_failures [] = true
  no_failures (_ ∷ _) = false

  unfoldable pub gate_failures : PerformanceMetrics F → List (Failure F)
  gate_failures m = add_if (m.sharpe ≤? lit 15 1) (low_sharpe m.sharpe) (
      add_if (lit 25 2 ≤? m.max_drawdown) (high_drawdown m.max_drawdown) (
        add_if (m.win_rate ≤? lit 52 2) (low_win_rate m.win_rate)
          (add_if (ltb m.trade_count 200) (few_trades m.trade_count) [])))

  unfoldable pub meets_live_gate : PerformanceMetrics F → Bool × List (Failure F)
  unfolding gate_failures
  meets_live_gate m = (no_failures (gate_failures m), gate_failures m)
