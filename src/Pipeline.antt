-- ===== src/Pipeline.antt =====
-- src/poly_meridian/pipeline.py: the part of `Pipeline.tick` from the aggregated signal to the
-- sized trade. A rejected signal stops there; any other goes through `size` at once; when `evaluate`
-- raises, the tick ends with the exception.
use poly_meridian.Prelude.{Option, none, some, ◌≡◌, refl}
use poly_meridian.Num.{Num, Convert, Quantize}
use poly_meridian.Domain.{AggregatedSignal, PortfolioSnapshot, TradeDecision}
use poly_meridian.Risk.Policy.{
  DefaultRiskPolicy, Evaluation, type_error, decided, approve, reject, reduce, evaluate, size,
}
pub mod Fractions
pub mod Sizing
pub mod Tick

-- How a signal leaves the gate: with the exception of `evaluate`, without a trade, or with one.
pub data Passage (D : Type 0) : Type 0 where
  errored stopped : Passage D
  passed : TradeDecision D → Passage D

module _ {D : Type 0} where
  abbrev pub passage_of : Option (TradeDecision D) → Passage D
  passage_of none = stopped
  passage_of (some d) = passed d

module _ {F D : Type 0} ⦃nf : Num F⦄ ⦃nd : Num D⦄ ⦃qd : Quantize D⦄ ⦃cv : Convert F D⦄ where
  abbrev pub after_decision :
      AggregatedSignal F D
      → PortfolioSnapshot F D
      → Evaluation × DefaultRiskPolicy F
      → Passage D × DefaultRiskPolicy F
  after_decision s port (type_error, p) = (errored, p)
  after_decision s port (decided reject, p) = (stopped, p)
  after_decision s port (decided _, p) = let (trade, q) = size s port p in (passage_of trade, q)

  unfoldable pub gate :
      F
      → AggregatedSignal F D
      → PortfolioSnapshot F D
      → DefaultRiskPolicy F
      → Passage D × DefaultRiskPolicy F
  gate now s port p = after_decision s port (evaluate now s port p)
