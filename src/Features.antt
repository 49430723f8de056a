-- ===== src/Features.antt =====
-- src/poly_meridian/features: what the strategies compute from prices, books, news and dates.
-- `math.sqrt` and the power of floats are an interface; an average of no numbers is guarded.
use poly_meridian.Prelude.{
  ℕ, true, false, Option, none, some, List, [], ◌∷◌, ◌++◌, map, String, if◌then◌else◌, get_or,
  length, last, ltb, ◌==◌, string_eq,
}
use poly_meridian.Prelude.Dict.{Dict, get, insert}
use poly_meridian.Num.{
  Num, Maths, Convert, to_float, ◌+◌, ◌-◌, ◌*◌, ◌/◌, ◌<?◌, ◌≤?◌, lit, max, min, sum, num_eq,
}
use poly_meridian.Domain.{Datetime, Clock}
use poly_meridian.Book.{LocalBook, best_bid, best_ask, mid, depth_within}

-- `RollingPriceWindow`
pub record RollingPriceWindow (F : Type 0) : Type 0 where
  pub capacity : ℕ
  pub prices : List F

module _ {F : Type 0} where
  unfoldable pub push : F → RollingPriceWindow F → RollingPriceWindow F
  push price w = record w { prices = last w.capacity (w.prices ++ price ∷ []) }

  unfoldable pub latest : List F → Option F
  latest [] = none
  latest (p ∷ []) = some p
  latest (p ∷ q ∷ ps) = latest (q ∷ ps)

module _ {F : Type 0} ⦃nf : Num F⦄ where
  abbrev pub average : List F → F
  average ps = sum ps / lit (length ps) 0

  unfoldable pub momentum : List F → Option F
  unfolding latest
  momentum [] = none
  momentum (p ∷ ps) = elim (latest ps) [
    | none ↦ none
    | some q ↦ (if p == lit 0 0 then none else some ((q - p) / p))
  ]

module _ {F : Type 0} ⦃nf : Num F⦄ (maths : Maths F) where
  unfoldable pub rolling_volatility : List F → Option F
  rolling_volatility ps =
      if ltb (length ps) 2
      then none
      else let mean = average ps in
        some (maths.sqrt (average (map (λ (p : F). maths.power (p - mean) (lit 2 0)) ps)))

  unfoldable pub rolling_zscore : List F → Option F
  unfolding rolling_volatility
  rolling_zscore ps =
      if ltb (length ps) 2
      then none
      else let sd = get_or (rolling_volatility ps) (lit 0 0) in
        if sd == lit 0 0
        then some (lit 0 0)
        else elim (latest ps) [ none ↦ none | some p ↦ some ((p - average ps) / sd) ]

-- `aggregate_signals`: a row is its sentiment, impact and direction.
pub record NewsSignal (F : Type 0) : Type 0 where
  pub sentiment : F
  pub impact : F
  pub direction : String

pub record SentimentAggregate (F : Type 0) : Type 0 where
  pub n_signals : ℕ
  pub sentiment_avg : F
  pub impact_max : F
  pub direction_score : Dict String F

-- The variables of its loop.
pub record NewsSums (F : Type 0) : Type 0 where
  pub weighted_sum : F
  pub weight_total : F
  pub top_impact : F
  pub score : Dict String F

module _ {F : Type 0} ⦃nf : Num F⦄ where
  unfoldable pub add_news : List (NewsSignal F) → NewsSums F → NewsSums F
  add_news [] t = t
  add_news (r ∷ rs) t = add_news rs (record {
    weighted_sum = t.weighted_sum + r.sentiment * r.impact;
    weight_total = t.weight_total + r.impact;
    top_impact = max t.top_impact r.impact;
    score = insert r.direction (get_or (get r.direction t.score) (lit 0 0) + r.impact) t.score;
  })

  unfoldable pub aggregate_signals : List (NewsSignal F) → SentimentAggregate F
  unfolding add_news
  aggregate_signals rows =
      let t = add_news rows (record {
        weighted_sum = lit 0 0;
        weight_total = lit 0 0;
        top_impact = lit 0 0;
        score = [];
      }) in
      record {
        n_signals = length rows;
        sentiment_avg =
            if lit 0 0 <? t.weight_total then t.weighted_sum / t.weight_total else lit 0 0;
        impact_max = t.top_impact;
        direction_score = t.score;
      }

  -- `max(d, key=...)` keeps the first of the largest.
  abbrev pub best_key : String → F → Dict String F → String
  best_key k x [] = k
  best_key k x ((j, y) ∷ d) = if x <? y then best_key j y d else best_key k x d

  abbrev pub winning_direction : SentimentAggregate F → String
  winning_direction a = elim a.direction_score [ [] ↦ "NEUTRAL" | e ∷ d ↦ best_key e.0 e.1 d ]

module _ {F : Type 0} ⦃nf : Num F⦄ ⦃ck : Clock F⦄ where
  unfoldable pub time_to_resolution_hours : Datetime → Option Datetime → Option F
  time_to_resolution_hours now none = none
  time_to_resolution_hours now (some end_date) = some (ck.seconds_between end_date now / lit 3600 0)

  unfoldable pub time_decay_factor : Datetime → Option Datetime → F → F
  unfolding time_to_resolution_hours
  time_decay_factor now end_date horizon_hours = elim (time_to_resolution_hours now end_date) [
    | none ↦ lit 1 0
    | some h ↦
        (if h ≤? lit 0 0
          then lit 1 0
          else max (lit 0 0) (lit 1 0 - min (lit 1 0) (h / horizon_hours)))
  ]

  unfoldable pub log_time_to_resolution : Maths F → Datetime → Option Datetime → Option F
  unfolding time_to_resolution_hours
  log_time_to_resolution maths now end_date = elim (time_to_resolution_hours now end_date) [
    | none ↦ none
    | some h ↦ (if h ≤? lit 0 0 then none else some (maths.log (h + lit 1 0)))
  ]

module _ {F D : Type 0} ⦃nf : Num F⦄ ⦃nd : Num D⦄ ⦃cv : Convert F D⦄ where
  unfoldable pub mid_price : LocalBook D → Option F
  mid_price b = elim (mid b) [ none ↦ none | some m ↦ some (to_float m) ]

  unfoldable pub spread : LocalBook D → Option F
  spread b = elim (best_bid b) [
    | none ↦ none
    | some bid ↦ elim (best_ask b) [ none ↦ none | some ask ↦ some (to_float (ask.0 - bid.0)) ]
  ]

  unfoldable pub microprice : LocalBook D → Option F
  microprice b = elim (best_bid b) [
    | none ↦ none
    | some bid ↦ elim (best_ask b) [
      | none ↦ none
      | some ask ↦
          (let total = bid.1 + ask.1 in
            if total == lit 0 0
            then none
            else some (to_float ((bid.0 * ask.1 + ask.0 * bid.1) / total)))
    ]
  ]

  unfoldable pub depth_imbalance : LocalBook D → D → Option F
  depth_imbalance b pct =
      let bid = depth_within true pct b in
      let ask = depth_within false pct b in
      let total = bid + ask in
      if total == lit 0 0 then none else some (to_float ((bid - ask) / total))

module _ {D : Type 0} ⦃nd : Num D⦄ where
  -- The best ask of a token that has a book.
  abbrev pub ask_of : Dict String (LocalBook D) → String → Option D
  ask_of books token = elim (get token books) [
    | none ↦ none
    | some b ↦ elim (best_ask b) [ none ↦ none | some e ↦ some e.0 ]
  ]
