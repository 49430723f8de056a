-- ===== src/Pipeline/Tick/Loss.antt =====
-- The daily loss as `Pipeline.tick` sees it: the snapshot that it builds has no start-of-day value.
use poly_meridian.Prelude.{
  ◌≡◌, refl, ap, ◌∙◌, Bool, false, Option, some, List, [], ◌∷◌, String, arith, Bool-cases,
  Option-cases, inl, inr, string_eq,
}
use poly_meridian.Num.{Num, Convert, Quantize, ◌+◌, ◌<?◌, lit, neg}
use poly_meridian.Domain.{
  Datetime, Clock, Market, AggregatedSignal, PortfolioSnapshot, TradeDecision,
}
use poly_meridian.Risk.KillSwitch.{KillSwitch, observe_daily_pnl}
use poly_meridian.Risk.Policy.{
  DefaultRiskPolicy, Evaluation, type_error, decided, approve, reject, reduce, Verdict, evaluate,
  verdict, observed, settle, size, set_book_lookup,
}
use poly_meridian.Portfolio.Pnl.{mark_all, snapshot, daily_pnl_pct}
use poly_meridian.Execution.Paper.{PaperExecutor}
use poly_meridian.Aggregator.{StrategySignal, Helpers, aggregate}
use poly_meridian.Pipeline.{Passage, errored, stopped, passed, gate, after_decision}
use poly_meridian.Pipeline.Tick.{
  Pipeline, Claim, TickEnd, skipped, aborted, act, place, trade_on, tick, tick_snapshot, wired,
  in_window, signals_of,
}

module _ {F : Type 0} where
  settle-kill_switch :
      (c : String) (p : DefaultRiskPolicy F) (v : Verdict F)
      → (settle c p v).1.kill_switch ≡ p.kill_switch
  settle-kill_switch c p v = ground arith

module _ {F D : Type 0} ⦃nf : Num F⦄ ⦃nd : Num D⦄ ⦃qd : Quantize D⦄ ⦃cv : Convert F D⦄ where
  observe_zero :
      (wall : F) (k : KillSwitch F) (port : PortfolioSnapshot F D)
      → port.daily_pnl_pct ≡ lit 0 0
      → (lit 0 0 <? neg k.config.daily_loss_trigger_pct) ≡ false
      → observe_daily_pnl wall port.daily_pnl_pct k ≡ k
  unfolding observe_daily_pnl
  observe_zero wall k port zero h = ground arith

  size-kill_switch :
      (s : AggregatedSignal F D) (port : PortfolioSnapshot F D) (p : DefaultRiskPolicy F)
      → (size s port p).1.kill_switch ≡ p.kill_switch
  unfolding size
  size-kill_switch s port p = ground arith

  after_decision-kill_switch :
      (s : AggregatedSignal F D) (port : PortfolioSnapshot F D)
      (e : Evaluation × DefaultRiskPolicy F)
      → (after_decision s port e).1.kill_switch ≡ e.1.kill_switch
  after_decision-kill_switch s port (type_error, p) = refl
  after_decision-kill_switch s port (decided approve, p) = size-kill_switch s port p
  after_decision-kill_switch s port (decided reject, p) = refl
  after_decision-kill_switch s port (decided reduce, p) = size-kill_switch s port p

  gate-kill_switch :
      (wall : F) (s : AggregatedSignal F D) (port : PortfolioSnapshot F D) (p : DefaultRiskPolicy F)
      → port.daily_pnl_pct ≡ lit 0 0
      → (lit 0 0 <? neg p.kill_switch.config.daily_loss_trigger_pct) ≡ false
      → (gate wall s port p).1.kill_switch ≡ p.kill_switch
  unfolding gate evaluate
  gate-kill_switch wall s port p zero h =
      after_decision-kill_switch s port (evaluate wall s port p)
      ∙ settle-kill_switch s.condition_id (observed wall port p)
          (verdict (observed wall port p) s port)
      ∙ observe_zero wall p.kill_switch port zero h

module _ {R F D : Type 0} ⦃nf : Num F⦄ ⦃nd : Num D⦄ ⦃qd : Quantize D⦄ ⦃cv : Convert F D⦄
    (h : Helpers R F D) (claim : R → Option (Claim F)) (new_id : PaperExecutor F D → String)
    (first : Bool) where
  place-risk :
      (now : Datetime) (signals : List (StrategySignal R F)) (d : TradeDecision D)
      (p : Pipeline R F D)
      → (place h claim new_id first now signals d p).1.risk ≡ p.risk
  unfolding place
  place-risk now signals d p = ground arith

  act-kill_switch :
      (wall : F) (now : Datetime) (signals : List (StrategySignal R F)) (agg : AggregatedSignal F D)
      (p : Pipeline R F D)
      → (lit 0 0 <? neg p.risk.kill_switch.config.daily_loss_trigger_pct) ≡ false
      → (act h claim new_id first wall now signals agg p).1.risk.kill_switch ≡ p.risk.kill_switch
  unfolding act snapshot daily_pnl_pct set_book_lookup
  act-kill_switch wall now signals agg p k =
      go (gate wall agg (tick_snapshot now p) (wired p))
        (gate-kill_switch wall agg (tick_snapshot now p) (wired p) refl k)
    where
      go :
          (e : Passage D × DefaultRiskPolicy F)
          → e.1.kill_switch ≡ p.risk.kill_switch
          → (let (trade, risk) = e in
              ◌≡◌ {A = KillSwitch F}
                (elim trade as (λ _. TickEnd D × Pipeline R F D) [
                  | errored ↦ (aborted, record p { risk = risk })
                  | stopped ↦ (skipped, record p { risk = risk })
                  | passed d ↦ place h claim new_id first now signals d (record p { risk = risk })
                ]).1.risk.kill_switch
                p.risk.kill_switch)
      go (errored, risk) e = e
      go (stopped, risk) e = e
      go (passed d, risk) e =
          ap (λ (r : DefaultRiskPolicy F). r.kill_switch)
            (place-risk now signals d (record p { risk = risk }))
          ∙ e

  trade_on-kill_switch :
      (wall : F) (now : Datetime) (m : Market D) (ss : List (StrategySignal R F))
      (p : Pipeline R F D)
      → (lit 0 0 <? neg p.risk.kill_switch.config.daily_loss_trigger_pct) ≡ false
      → (trade_on h claim new_id first wall now m ss p).1.risk.kill_switch ≡ p.risk.kill_switch
  unfolding trade_on
  trade_on-kill_switch wall now m [] p k = refl
  trade_on-kill_switch wall now m (s ∷ ss) p k =
      let fresh : Pipeline R F D = record p { ledger = mark_all p.books now p.ledger } in
      elim (Option-cases
        (aggregate h now p.aggregator (some m) (fresh.ledger.cash + lit 1 0) (s ∷ ss))) [
          | inl nothing ↦ rw (nothing, trade_on) refl
          | inr (agg, merged) ↦
              rw (merged, trade_on) (act-kill_switch wall now (s ∷ ss) agg fresh k)
        ]

  -- When the loss threshold, minus the trigger, is not positive, no tick of the pipeline changes
  -- the kill switch, whatever the ledger has lost since the day began.
  pub tick-kill_switch :
      ⦃ck : Clock F⦄ (wall : F) (now : Datetime) (m : Market D) (p : Pipeline R F D)
      → (lit 0 0 <? neg p.risk.kill_switch.config.daily_loss_trigger_pct) ≡ false
      → (tick h claim new_id first wall now m p).1.risk.kill_switch ≡ p.risk.kill_switch
  unfolding tick
  tick-kill_switch wall now m p k = elim (Bool-cases (in_window p.risk.limits now m)) [
    | inl inside ↦ rw inside (trade_on-kill_switch wall now m (signals_of m p.strategies) p k)
    | inr outside ↦ rw outside refl
  ]
