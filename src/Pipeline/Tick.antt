-- ===== src/Pipeline/Tick.antt =====
-- src/poly_meridian/pipeline.py: `Pipeline` over the paper executor. A strategy is what it does
-- when it is evaluated; the books that strategies hold are the pipeline's own, so attaching them
-- is left out. `now` is the datetime and `wall` the value of time.time() during the tick.
-- Dashboard pushes, metrics and persistence are left out.
use poly_meridian.Prelude.{
  ℕ, ◌≡◌, refl, Bool, true, false, not, ◌&&◌, Option, none, some, List, [], ◌∷◌, ◌++◌, String,
  if◌then◌else◌, get_or, filter, length, ◌==◌, string_eq, is_some,
}
use poly_meridian.Prelude.Dict.{Dict, get, insert}
use poly_meridian.Num.{Num, Convert, Quantize, to_float, ◌+◌, ◌/◌, ◌<?◌, ◌≤?◌, lit}
use poly_meridian.Domain.{
  Datetime, Clock, Market, AggregatedSignal, PortfolioSnapshot, TradeDecision,
}
use poly_meridian.Domain
use poly_meridian.Book.{LocalBook, best_bid, best_ask}
use poly_meridian.Risk.Limits.{RiskLimits}
use poly_meridian.Risk.Policy.{DefaultRiskPolicy, Lookup, returned}
use poly_meridian.Risk.Policy
use poly_meridian.Portfolio.Ledger.{Ledger, PositionState, Fill, apply_fill, get_position}
use poly_meridian.Portfolio.Pnl.{mark_all, snapshot, nav_usd}
use poly_meridian.Execution.Paper.{PaperExecutor, Call, record_fill, on_fill}
use poly_meridian.Execution.Paper
use poly_meridian.Execution.Router.{Outcome, accepted, raised, route}
use poly_meridian.Execution.Router.Paper.{paper}
use poly_meridian.Aggregator.{StrategySignal, Helpers, SignalAggregator, aggregate}
use poly_meridian.Pipeline.{errored, stopped, passed, gate}
pub mod Loss
pub mod Log

-- What a strategy's `evaluate` does on a market.
pub data Emission (R F : Type 0) : Type 0 where
  failed : Emission R F
  emitted : Option (StrategySignal R F) → Emission R F

pub record Strategy (R F D : Type 0) : Type 0 where
  pub enabled : Bool
  pub evaluate : Market D → Emission R F

-- The probability that a fundamentals rationale claims, with its confidence and base rate.
pub record Claim (F : Type 0) : Type 0 where
  pub p_long : F
  pub confidence : F
  pub base_rate : Option F

pub record Pipeline (R F D : Type 0) : Type 0 where
  pub books : Dict String (LocalBook D)
  pub token_to_category : Dict String String
  pub pairs : Dict String (String × String)
  pub strategies : List (Strategy R F D)
  pub aggregator : SignalAggregator F
  pub ledger : Ledger F D
  pub risk : DefaultRiskPolicy F
  pub executor : PaperExecutor F D

module _ {F D : Type 0} ⦃nd : Num D⦄ ⦃cv : Convert F D⦄ where
  unfoldable pub lookup_bid_ask : Dict String (LocalBook D) → String → Option (F × F)
  lookup_bid_ask books token = elim (get token books) [
    | none ↦ none
    | some b ↦ elim (best_bid b) [
      | none ↦ none
      | some bid ↦ elim (best_ask b) [
        | none ↦ none
        | some ask ↦ some (to_float bid.0, to_float ask.0)
      ]
    ]
  ]

module _ {R F D : Type 0} where
  unfoldable pub attach_book : String → LocalBook D → Pipeline R F D → Pipeline R F D
  attach_book token book p = record p {
    books = insert token book p.books;
    executor = elim (get token p.token_to_category) [
      | none ↦ Paper.attach_book token book p.executor
      | some cat ↦ Paper.attach_category token (some cat) (Paper.attach_book token book p.executor)
    ];
  }

  -- The category of a market for both of its tokens, if it has one that is not empty.
  abbrev pub with_category : Market D → String → Pipeline R F D → Pipeline R F D
  with_category m cat p = if cat == "" then p else record p {
    token_to_category = insert m.no_token_id cat (insert m.yes_token_id cat p.token_to_category);
    executor =
        Paper.attach_category m.no_token_id (some cat)
          (Paper.attach_category m.yes_token_id (some cat) p.executor);
  }

  unfoldable pub register_market : Market D → Pipeline R F D → Pipeline R F D
  register_market m p =
      let registered : Pipeline R F D = record p {
        pairs = insert m.condition_id (m.yes_token_id, m.no_token_id) p.pairs;
        risk = Policy.register_market m.condition_id m.yes_token_id m.no_token_id m.event_id p.risk;
      } in
      elim m.category [ none ↦ registered | some cat ↦ with_category m cat registered ]

  -- The signals of the enabled strategies; one that raises is skipped.
  unfoldable pub signals_of : Market D → List (Strategy R F D) → List (StrategySignal R F)
  signals_of m [] = []
  signals_of m (s ∷ ss) =
      let rest = signals_of m ss in
      if s.enabled
      then elim (s.evaluate m) [
        | failed ↦ rest
        | emitted o ↦ elim o [ none ↦ rest | some g ↦ g ∷ rest ]
      ]
      else rest

module _ {F : Type 0} ⦃nf : Num F⦄ ⦃ck : Clock F⦄ where
  -- `(end - now).total_seconds() / 86_400.0`
  abbrev pub days_left : Datetime → Datetime → F
  days_left end_date now = ck.seconds_between end_date now / lit 86400 0

module _ {F D : Type 0} ⦃nf : Num F⦄ ⦃ck : Clock F⦄ where
  -- The resolution-window gate.
  unfoldable pub in_window : RiskLimits F → Datetime → Market D → Bool
  in_window l now m = elim m.end_date_iso [
    | none ↦ true
    | some end_date ↦
        (not (elim l.max_resolution_days [ none ↦ false | some d ↦ d <? days_left end_date now ])
          && not
              (elim l.min_resolution_days [ none ↦ false | some d ↦ days_left end_date now <? d ]))
  ]

module _ {D : Type 0} where
  abbrev pub fill_of : Domain.Order D → D → D → D → Datetime → Fill D
  fill_of o qty price fee now = record {
    ts = get_or o.ts_filled now;
    order = o;
    filled_qty = qty;
    fill_price = price;
    fee = fee;
  }

module _ {F D : Type 0} ⦃nd : Num D⦄ ⦃qd : Quantize D⦄ where
  -- `on_fill` for each fill that the executor reports.
  unfoldable pub book_fills : Datetime → List (Call F D) → Ledger F D → Ledger F D
  book_fills now [] l = l
  book_fills now (record_fill t s d e v ∷ cs) l = book_fills now cs l
  book_fills now (on_fill o qty vwap fee ∷ cs) l =
      book_fills now cs (apply_fill (fill_of o qty vwap fee now) l).1

module _ {R F : Type 0} where
  -- The claim of the first fundamentals signal that has one.
  unfoldable pub claim_of : (R → Option (Claim F)) → List (StrategySignal R F) → Option (Claim F)
  claim_of claim [] = none
  claim_of claim (s ∷ ss) =
      let rest = claim_of claim ss in
      if s.strategy == "fundamentals"
      then elim (claim s.rationale) [ none ↦ rest | some c ↦ some c ]
      else rest

module _ {F D : Type 0} ⦃nd : Num D⦄ where
  abbrev pub claimed : Claim F → PositionState F D → PositionState F D
  claimed c p = record p {
    claimed_p_long = some c.p_long;
    claimed_confidence = some c.confidence;
    claimed_base_rate = elim c.base_rate [ none ↦ p.claimed_base_rate | some b ↦ some b ];
  }

  -- The claim is stamped on the open position of the order's token.
  unfoldable pub stamp_claim : Option (Claim F) → String → Ledger F D → Ledger F D
  stamp_claim none token l = l
  stamp_claim (some c) token l = elim (get_position token l) [
    | none ↦ l
    | some p ↦ record l { positions_by_token = insert token (claimed c p) l.positions_by_token }
  ]

module _ {R F D : Type 0} ⦃nf : Num F⦄ ⦃nd : Num D⦄ ⦃cv : Convert F D⦄ where
  -- The policy reads the pipeline's books, which are looked up when it asks.
  abbrev pub wired : Pipeline R F D → DefaultRiskPolicy F
  wired p = Policy.set_book_lookup (λ t. returned (lookup_bid_ask p.books t)) p.risk

  -- The portfolio that the risk policy is shown.
  abbrev pub tick_snapshot : Datetime → Pipeline R F D → PortfolioSnapshot F D
  tick_snapshot now p = snapshot p.token_to_category none now p.ledger

-- How a tick ends.
pub data TickEnd (D : Type 0) : Type 0 where
  skipped : TickEnd D
  placed : Domain.Order D → TickEnd D
  aborted : TickEnd D

module _ {R F D : Type 0} ⦃nf : Num F⦄ ⦃nd : Num D⦄ ⦃qd : Quantize D⦄ ⦃cv : Convert F D⦄
    (h : Helpers R F D) (claim : R → Option (Claim F)) (new_id : PaperExecutor F D → String)
    (first : Bool) where
  -- The trade is routed, its fills are booked, and the claim is stamped.
  unfoldable pub place :
      Datetime
      → List (StrategySignal R F)
      → TradeDecision D
      → Pipeline R F D
      → TickEnd D × Pipeline R F D
  place now signals d p =
      let quiet : PaperExecutor F D = record p.executor { calls = [] } in
      let (out, x) = route (paper new_id now) first d quiet in
      let booked : Ledger F D = book_fills now x.calls p.ledger in
      elim out [
        | raised ↦ (aborted, record p { executor = x; ledger = booked })
        | accepted o ↦ (
          placed o,
          record p {
            executor = x;
            ledger = stamp_claim (claim_of claim signals) o.token_id booked;
          },
        )
      ]

  -- What follows the merge of the signals.
  unfoldable pub act :
      F
      → Datetime
      → List (StrategySignal R F)
      → AggregatedSignal F D
      → Pipeline R F D
      → TickEnd D × Pipeline R F D
  unfolding place
  act wall now signals agg p =
      let (trade, risk) = gate wall agg (tick_snapshot now p) (wired p) in
      elim trade [
        | errored ↦ (aborted, record p { risk = risk })
        | stopped ↦ (skipped, record p { risk = risk })
        | passed d ↦ place now signals d (record p { risk = risk })
      ]

  -- What follows the evaluation of the strategies.
  unfoldable pub trade_on :
      F
      → Datetime
      → Market D
      → List (StrategySignal R F)
      → Pipeline R F D
      → TickEnd D × Pipeline R F D
  unfolding act
  trade_on wall now m [] p = (skipped, p)
  trade_on wall now m (s ∷ ss) p =
      let fresh : Pipeline R F D = record p { ledger = mark_all p.books now p.ledger } in
      elim (aggregate h now p.aggregator (some m) (fresh.ledger.cash + lit 1 0) (s ∷ ss)) [
        | none ↦ (skipped, fresh)
        | some agg ↦ act wall now (s ∷ ss) agg fresh
      ]

  unfoldable pub tick :
      ⦃ck : Clock F⦄ → F → Datetime → Market D → Pipeline R F D → TickEnd D × Pipeline R F D
  unfolding trade_on signals_of in_window
  tick wall now m p =
      if in_window p.risk.limits now m
      then trade_on wall now m (signals_of m p.strategies) p
      else (skipped, p)
