-- ===== src/Pipeline/Tick/Log.antt =====
-- The ledger of the pipeline against its log, over ticks.
use poly_meridian.Prelude.{
  ◌≡◌, Bool, Option, none, some, List, [], ◌∷◌, String, arith, Bool-cases, Option-cases, inl, inr,
  string_eq,
}
use poly_meridian.Prelude.Dict.{Dict, get, get-insert}
use poly_meridian.Num.{Num, Convert, Quantize, ◌+◌, lit, num_eq}
use poly_meridian.Domain.{Datetime, Clock, Market, AggregatedSignal, TradeDecision}
use poly_meridian.Book.{LocalBook}
use poly_meridian.Portfolio.Ledger.{
  Ledger, PositionState, get_position, mark, apply_fill, positions,
}
use poly_meridian.Portfolio.Ledger.History.{Agrees, step, fill-Agrees, mark-Agrees}
use poly_meridian.Portfolio.Pnl.{mark_each, mark_all, mid_of}
use poly_meridian.Execution.Paper.{PaperExecutor, Call, record_fill, on_fill}
use poly_meridian.Execution.Router.{Outcome, route, accepted, raised}
use poly_meridian.Execution.Router.Paper.{paper}
use poly_meridian.Risk.Policy.{DefaultRiskPolicy}
use poly_meridian.Aggregator.{StrategySignal, Helpers, aggregate}
use poly_meridian.Pipeline.{Passage, errored, stopped, passed, gate}
use poly_meridian.Pipeline.Tick.{
  Pipeline, Claim, TickEnd, skipped, placed, aborted, book_fills, stamp_claim, claimed, claim_of,
  act, place, trade_on, tick, tick_snapshot, wired, in_window, signals_of,
}
use poly_meridian.Pipeline.Tick

module _ {F D : Type 0} ⦃nd : Num D⦄ ⦃qd : Quantize D⦄ where
  mark_each-Agrees :
      (books : Dict String (LocalBook D)) (ts : Datetime) (ps : List (PositionState F D))
      (l : Ledger F D)
      → Agrees l
      → Agrees (mark_each books ts ps l)
  unfolding mark_each step
  mark_each-Agrees books ts [] l a = a
  mark_each-Agrees books ts (p ∷ ps) l a = elim (Option-cases (mid_of books p.token_id)) [
    | inl no_mid ↦ rw (no_mid, mark_each) (mark_each-Agrees books ts ps l a)
    | inr (m, known) ↦
        rw (known, mark_each)
          (mark_each-Agrees books ts ps (mark p.token_id m ts l) (mark-Agrees p.token_id m ts l a))
  ]

  book_fills-Agrees :
      (now : Datetime) (cs : List (Call F D)) (l : Ledger F D)
      → Agrees l
      → Agrees (book_fills now cs l)
  unfolding book_fills step
  book_fills-Agrees now [] l a = a
  book_fills-Agrees now (record_fill t s d e v ∷ cs) l a = book_fills-Agrees now cs l a
  book_fills-Agrees now (on_fill o qty vwap fee ∷ cs) l a =
      book_fills-Agrees now cs (apply_fill (Tick.fill_of o qty vwap fee now) l).1
        (fill-Agrees (Tick.fill_of o qty vwap fee now) l a)

  get_position_lem :
      (token : String) (l : Ledger F D) (p : PositionState F D)
      → get_position token l ≡ some p
      → get token l.positions_by_token ≡ some p
  unfolding get_position
  get_position_lem token l p e = ground arith

  stamp_claim-Agrees :
      (c : Option (Claim F)) (token : String) (l : Ledger F D)
      → Agrees l
      → Agrees (stamp_claim c token l)
  unfolding stamp_claim
  stamp_claim-Agrees none token l a = a
  stamp_claim-Agrees (some c) token l a = elim (Option-cases (get_position token l)) [
    | inl missing ↦ rw (missing, stamp_claim) a
    | inr (p, known) ↦
        rw (known, stamp_claim)
          (record {
            cash_agrees = a.cash_agrees;
            qty_agrees = λ t.
                let there = get_position_lem token l p known in
                ground (
                  arith,
                  a.qty_agrees t,
                  get-insert token t (claimed c p) l.positions_by_token,
                  string_eq.beq_iff token t,
                );
          })
  ]

module _ {R F D : Type 0} ⦃nf : Num F⦄ ⦃nd : Num D⦄ ⦃qd : Quantize D⦄ ⦃cv : Convert F D⦄
    (h : Helpers R F D) (claim : R → Option (Claim F)) (new_id : PaperExecutor F D → String)
    (first : Bool) where
  place-Agrees :
      (now : Datetime) (signals : List (StrategySignal R F)) (d : TradeDecision D)
      (p : Pipeline R F D)
      → Agrees p.ledger
      → Agrees (place h claim new_id first now signals d p).1.ledger
  unfolding place
  place-Agrees now signals d p a =
      go (route (paper new_id now) first d (record p.executor { calls = [] }))
    where
      go :
          (r : Outcome D × PaperExecutor F D)
          → (let (out, x) = r in
              let booked : Ledger F D = book_fills now x.calls p.ledger in
              Agrees
                (elim out as (λ _. TickEnd D × Pipeline R F D) [
                  | raised ↦ (aborted, record p { executor = x; ledger = booked })
                  | accepted o ↦ (
                    placed o,
                    record p {
                      executor = x;
                      ledger = stamp_claim (claim_of claim signals) o.token_id booked;
                    },
                  )
                ]).1.ledger)
      go (accepted o, x) =
          stamp_claim-Agrees (claim_of claim signals) o.token_id (book_fills now x.calls p.ledger)
            (book_fills-Agrees now x.calls p.ledger a)
      go (raised, x) = book_fills-Agrees now x.calls p.ledger a

  act-Agrees :
      (wall : F) (now : Datetime) (signals : List (StrategySignal R F)) (agg : AggregatedSignal F D)
      (p : Pipeline R F D)
      → Agrees p.ledger
      → Agrees (act h claim new_id first wall now signals agg p).1.ledger
  unfolding act
  act-Agrees wall now signals agg p a = go (gate wall agg (tick_snapshot now p) (wired p))
    where
      go :
          (e : Passage D × DefaultRiskPolicy F)
          → (let (trade, risk) = e in
              Agrees
                (elim trade as (λ _. TickEnd D × Pipeline R F D) [
                  | errored ↦ (aborted, record p { risk = risk })
                  | stopped ↦ (skipped, record p { risk = risk })
                  | passed d ↦ place h claim new_id first now signals d (record p { risk = risk })
                ]).1.ledger)
      go (errored, risk) = a
      go (stopped, risk) = a
      go (passed d, risk) = place-Agrees now signals d (record p { risk = risk }) a

  trade_on-Agrees :
      (wall : F) (now : Datetime) (m : Market D) (ss : List (StrategySignal R F))
      (p : Pipeline R F D)
      → Agrees p.ledger
      → Agrees (trade_on h claim new_id first wall now m ss p).1.ledger
  unfolding trade_on mark_all
  trade_on-Agrees wall now m [] p a = a
  trade_on-Agrees wall now m (s ∷ ss) p a =
      let fresh : Pipeline R F D = record p { ledger = mark_all p.books now p.ledger } in
      let b = mark_each-Agrees p.books now (positions p.ledger) p.ledger a in
      elim (Option-cases
        (aggregate h now p.aggregator (some m) (fresh.ledger.cash + lit 1 0) (s ∷ ss))) [
          | inl nothing ↦ rw (nothing, trade_on) b
          | inr (agg, merged) ↦ rw (merged, trade_on) (act-Agrees wall now (s ∷ ss) agg fresh b)
        ]

  -- A tick keeps the ledger and its log in agreement, however it ends: the cash is the starting
  -- cash with the notionals of the log, and the quantities held are the sums of the log's.
  pub tick-Agrees :
      ⦃ck : Clock F⦄ (wall : F) (now : Datetime) (m : Market D) (p : Pipeline R F D)
      → Agrees p.ledger
      → Agrees (tick h claim new_id first wall now m p).1.ledger
  unfolding tick
  tick-Agrees wall now m p a = elim (Bool-cases (in_window p.risk.limits now m)) [
    | inl inside ↦ rw inside (trade_on-Agrees wall now m (signals_of m p.strategies) p a)
    | inr outside ↦ rw outside a
  ]
