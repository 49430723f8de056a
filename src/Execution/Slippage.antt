-- ===== src/Execution/Slippage.antt =====
-- src/poly_meridian/execution/slippage_model.py (the model and its regression) and
-- src/poly_meridian/execution/slippage_monitor.py (`SlippageMonitor`). `math` is an interface.
use poly_meridian.Prelude.{
  ℕ, ◌≡◌, Bool, true, false, not, ◌&&◌, ◌||◌, Option, none, some, List, [], ◌∷◌, ◌++◌, map, filter,
  String, if◌then◌else◌, length, last, ltb,
}
use poly_meridian.Num.{Num, Maths, Convert, to_float, ◌+◌, ◌-◌, ◌*◌, ◌/◌, ◌<?◌, ◌≤?◌, lit, max, sum}
use poly_meridian.Domain.{Datetime}
use poly_meridian.Book.{LocalBook, depth_within}
use poly_meridian.Execution.Walk.{slippage_from_fill}
pub mod Buffer

pub record SlippageFit (F : Type 0) : Type 0 where
  pub a : F
  pub b : F
  pub n_samples : ℕ
  pub rmse_bps : F

pub record SlippageObservation (F : Type 0) : Type 0 where
  pub ts : Datetime
  pub token_id : String
  pub size : F
  pub depth : F
  pub expected_price : F
  pub realized_vwap : F
  pub slippage_bps : F

pub record SlippageMonitor (F : Type 0) : Type 0 where
  pub buffer_size : ℕ
  pub obs : List (SlippageObservation F)

module _ {F : Type 0} ⦃nf : Num F⦄ (maths : Maths F) where
  -- `a * (size / depth) ** b`
  abbrev pub model : F → F → F → F → F
  model a b size depth = a * maths.power (size / depth) b

  unfoldable pub estimate_bps : SlippageFit F → F → F → F
  estimate_bps fit size depth =
      if depth ≤? lit 0 0 then maths.infinity else model fit.a fit.b size depth

module _ {F D : Type 0} ⦃nf : Num F⦄ ⦃nd : Num D⦄ ⦃cv : Convert F D⦄ (maths : Maths F) where
  -- A buyer takes from the asks.
  unfoldable pub estimate_slippage_bps : LocalBook D → Bool → D → F → F → D → F
  estimate_slippage_bps book is_buy size a b pct_from_mid =
      let depth = depth_within (not is_buy) pct_from_mid book in
      if depth ≤? lit 0 0
      then maths.infinity
      else a * maths.power (to_float size / to_float depth) b

module _ {F : Type 0} ⦃nf : Num F⦄ where
  -- An observation that the regression can use.
  abbrev pub is_usable : SlippageObservation F → Bool
  is_usable o = (lit 0 0 <? o.slippage_bps) && (lit 0 0 <? o.size) && (lit 0 0 <? o.depth)

  abbrev pub average : List F → F
  average xs = sum xs / lit (length xs) 0

  -- `SlippageMonitor.record_fill`
  unfoldable pub record_fill :
      Datetime → String → F → F → F → F → SlippageMonitor F → SlippageMonitor F
  record_fill now token size depth expected_price realized_vwap m =
      if size ≤? lit 0 0 || expected_price ≤? lit 0 0 || realized_vwap ≤? lit 0 0
      then m
      else record m {
        obs = last m.buffer_size (
            m.obs
            ++ record {
              ts = now;
              token_id = token;
              size = size;
              depth = max (lit 0 0) depth;
              expected_price = expected_price;
              realized_vwap = realized_vwap;
              slippage_bps = slippage_from_fill expected_price realized_vwap;
            }
              ∷ []);
      }

module _ {F : Type 0} ⦃nf : Num F⦄ (maths : Maths F) where
  -- The logarithms of the points whose ratio is positive.
  unfoldable pub points_of : List (SlippageObservation F) → List (F × F)
  points_of [] = []
  points_of (o ∷ os) =
      let rest = points_of os in
      if is_usable o && (lit 0 0 <? o.size / o.depth)
      then (maths.log (o.size / o.depth), maths.log o.slippage_bps) ∷ rest
      else rest

  abbrev pub squared_errors : F → F → List (SlippageObservation F) → F
  squared_errors a b os = sum (
      map
        (λ (o : SlippageObservation F).
          maths.power (model maths a b o.size o.depth - o.slippage_bps) (lit 2 0))
        os)

  -- The line through the points, and its error over the usable observations.
  unfoldable pub fit_from_fills : List (SlippageObservation F) → Option (SlippageFit F)
  unfolding points_of
  fit_from_fills os =
      let points = points_of os in
      let n : F = lit (length points) 0 in
      let mean_x = average (map (λ (p : F × F). p.0) points) in
      let mean_y = average (map (λ (p : F × F). p.1) points) in
      let num = sum (map (λ (p : F × F). (p.0 - mean_x) * (p.1 - mean_y)) points) in
      let den = sum (map (λ (p : F × F). maths.power (p.0 - mean_x) (lit 2 0)) points) in
      let b = num / den in
      let a = maths.exp (mean_y - b * mean_x) in
      if ltb (length points) 10
      then none
      else if den ≤? lit 0 0
      then none
      else some (record {
        a = a;
        b = b;
        n_samples = length points;
        rmse_bps = maths.sqrt (squared_errors a b (filter is_usable os) / n);
      })

  abbrev pub latest_fit : SlippageMonitor F → Option (SlippageFit F)
  latest_fit m = fit_from_fills m.obs

  -- How far the default model, 50 and 1.2, is from what was observed.
  unfoldable pub drift_bps : SlippageMonitor F → Option F
  drift_bps m =
      let usable = filter is_usable m.obs in
      if ltb (length usable) 10
      then none
      else some (maths.sqrt (squared_errors (lit 50 0) (lit 12 1) usable / lit (length usable) 0))
