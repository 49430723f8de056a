-- ===== src/Pipeline/Sizing.antt =====
-- src/poly_meridian/pipeline.py with DefaultRiskPolicy: the trade that leaves the gate and the
-- policy that is left.
use poly_meridian.Prelude.{
  ◌≡◌, ◌≢◌, ◌∙◌, ap, Bool-cases, Option, false, inl, inr, true, some, List, [], ◌∷◌, arith,
  string_eq, get_or,
}
use poly_meridian.Prelude.Dict.{get, get-remove, remove}
use poly_meridian.Num.{Num, Convert, Quantize, ◌<?◌, lit}
use poly_meridian.Num.Order.{le_trans}
use poly_meridian.Domain.{AggregatedSignal, PortfolioSnapshot, TradeDecision}
use poly_meridian.Risk.Policy.{
  DefaultRiskPolicy, Evaluation, evaluate, observed, size, used_size_pct, sized_decision,
}
use poly_meridian.Risk.Policy.Decisions.{evaluate-reduce, evaluate-approve_iff}
use poly_meridian.Risk.Policy.Gate.{Admissible}
use poly_meridian.Risk.Policy.Switch.{Request}
use poly_meridian.Pipeline.{passed, passage_of, gate, after_decision}
use poly_meridian.Pipeline.Fractions.{
  used_size_bounds, reduce-cases, admits, IsSettled, Throttles, Sized, sized_lem, evaluate_frame,
  stored-le,
}

module _ {D : Type 0} where
  passed_lem :
      (o : Option (TradeDecision D)) {d : TradeDecision D} → passage_of o ≡ passed d → o ≡ some d
  passed_lem o h = ground arith

module _ {F D : Type 0} ⦃nf : Num F⦄ ⦃nd : Num D⦄ ⦃qd : Quantize D⦄ ⦃cv : Convert F D⦄ where
  after_reject :
      (s : AggregatedSignal F D) (port : PortfolioSnapshot F D)
      (e : Evaluation × DefaultRiskPolicy F)
      → admits e.0 ≡ false
      → ((after_decision s port e).1 ≡ e.1)
        × ((d : TradeDecision D) → (after_decision s port e).0 ≢ passed d)
  after_reject s port e h = ground arith

  after_pass :
      (s : AggregatedSignal F D) (port : PortfolioSnapshot F D)
      (e : Evaluation × DefaultRiskPolicy F)
      → admits e.0 ≡ true
      → after_decision s port e ≡ (passage_of (size s port e.1).0, (size s port e.1).1)
  after_pass s port e h = ground arith

  size_priced :
      (s : AggregatedSignal F D) (port : PortfolioSnapshot F D) (q : DefaultRiskPolicy F)
      (price : D)
      → s.proposed_price ≡ some price
      → (lit 0 0 <? price) ≡ true
      → size s port q ≡ (
        sized_decision q s port price (used_size_pct q s),
        record q { reduced_size_pct = remove s.condition_id q.reduced_size_pct },
      )
  unfolding size
  size_priced s port q price e h = ground (arith, nd.le_not_lt price (lit 0 0))

  gate_reject :
      (now : F) (s : AggregatedSignal F D) (port : PortfolioSnapshot F D) (p : DefaultRiskPolicy F)
      → admits (evaluate now s port p).0 ≡ false
      → ((gate now s port p).1 ≡ (evaluate now s port p).1)
        × ((d : TradeDecision D) → (gate now s port p).0 ≢ passed d)
  unfolding gate
  gate_reject now s port p h = after_reject s port (evaluate now s port p) h

  admitted :
      (now : F) (s : AggregatedSignal F D) (port : PortfolioSnapshot F D) (p : DefaultRiskPolicy F)
      → admits (evaluate now s port p).0 ≡ true
      → Admissible (observed now port p) s port
  admitted now s port p h = elim (reduce-cases (evaluate now s port p).0) [
    | inl e ↦ ((evaluate-approve_iff now s port p).0 (ground arith)).0
    | inr e ↦ (evaluate-reduce now s port p e).0
  ]

  gate_pass :
      (now : F) (s : AggregatedSignal F D) (port : PortfolioSnapshot F D) (p : DefaultRiskPolicy F)
      → (h : admits (evaluate now s port p).0 ≡ true)
      → let q = (evaluate now s port p).1 in
        gate now s port p ≡ (
          passage_of (sized_decision q s port (admitted now s port p h).price (used_size_pct q s)),
          record q { reduced_size_pct = remove s.condition_id q.reduced_size_pct },
        )
  unfolding gate
  gate_pass now s port p h =
      let a = admitted now s port p h in
      after_pass s port (evaluate now s port p) h
      ∙ ap (λ (x : Option (TradeDecision D) × DefaultRiskPolicy F). (passage_of x.0, x.1))
          (size_priced s port (evaluate now s port p).1 a.price a.priced a.price_positive)

  gate-multiplier :
      (now : F) (s : AggregatedSignal F D) (port : PortfolioSnapshot F D) (p : DefaultRiskPolicy F)
      → (gate now s port p).1.drift_size_multiplier ≡ p.drift_size_multiplier
  gate-multiplier now s port p = elim (Bool-cases (admits (evaluate now s port p).0)) [
    | inr e ↦ rw (gate_reject now s port p e).0 (evaluate_frame now s port p).1
    | inl e ↦ rw (gate_pass now s port p e) (evaluate_frame now s port p).1
  ]

  -- The policy after a sequence of signals.
  unfoldable pub gate_all : List (Request F D) → DefaultRiskPolicy F → DefaultRiskPolicy F
  gate_all [] p = p
  gate_all (r ∷ rs) p = gate_all rs (gate r.now r.signal r.portfolio p).1

  gate_outcome :
      (now : F) (s : AggregatedSignal F D) (port : PortfolioSnapshot F D) (p : DefaultRiskPolicy F)
      → Throttles p.drift_size_multiplier
      → IsSettled p
      → IsSettled (gate now s port p).1
        × ((d : TradeDecision D) → (gate now s port p).0 ≡ passed d → Sized p.limits s port d)
  gate_outcome now s port p throttles settled =
      let frame = evaluate_frame now s port p in
      elim (Bool-cases (admits (evaluate now s port p).0)) [
        | inr e ↦ (
          record {
            none_pending = λ c.
                rw ((gate_reject now s port p e).0, frame.2 (λ k. ground arith))
                  (settled.none_pending c);
          },
          λ d h. absurd ((gate_reject now s port p e).1 d h),
        )
        | inl e ↦ rw (gate_pass now s port p e) (
          record {
            none_pending = λ c. rw (frame.3 c) (
                ground
                  (arith, get-remove s.condition_id c p.reduced_size_pct, settled.none_pending c));
          },
          λ d h.
              let q = (evaluate now s port p).1 in
              let a = admitted now s port p e in
              let bounds = used_size_bounds q s (rw frame.1 throttles) in
              rw frame.0 at (
                sized_lem q s port a.price (used_size_pct q s) a.priced
                  (passed_lem (sized_decision q s port a.price (used_size_pct q s)) h)
                  (λ k.
                    le_trans {A = F} (used_size_pct q s)
                      (get_or (get s.condition_id q.reduced_size_pct) s.size_pct) s.size_pct
                      (bounds k).0 (stored-le now s port p settled))
                  (λ k. (bounds k).1)),
        )
      ]

  -- From a settled policy, a trade that leaves the gate is a buy of the signal's token at the
  -- signal's price, for a positive size computed from a positive fraction of the bankroll that is
  -- at most the one asked and at most the position cap. The drift multiplier is taken not to
  -- enlarge a size.
  pub gate-Sized :
      (now : F) (s : AggregatedSignal F D) (port : PortfolioSnapshot F D) (p : DefaultRiskPolicy F)
      (d : TradeDecision D)
      → Throttles p.drift_size_multiplier
      → IsSettled p
      → (gate now s port p).0 ≡ passed d
      → Sized p.limits s port d
  gate-Sized now s port p d throttles settled h =
      (gate_outcome now s port p throttles settled).1 d h

  -- The gate leaves no reduced size behind: from a settled policy, any sequence of signals that
  -- runs through it ends with a settled policy.
  pub gate_all-IsSettled :
      (rs : List (Request F D)) (p : DefaultRiskPolicy F)
      → Throttles p.drift_size_multiplier
      → IsSettled p
      → IsSettled (gate_all rs p)
  unfolding gate_all
  gate_all-IsSettled [] p throttles settled = settled
  gate_all-IsSettled (r ∷ rs) p throttles settled =
      gate_all-IsSettled rs (gate r.now r.signal r.portfolio p).1
        (rw (gate-multiplier r.now r.signal r.portfolio p) throttles)
        (gate_outcome r.now r.signal r.portfolio p throttles settled).0
