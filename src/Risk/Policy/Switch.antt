-- ===== src/Risk/Policy/Switch.antt =====
-- DefaultRiskPolicy.evaluate over a sequence of signals, with its kill switch.
use poly_meridian.Prelude.{◌≡◌, refl, true, List, [], ◌∷◌, arith, All}
use poly_meridian.Num.{Num, Convert, ◌<?◌, neg}
use poly_meridian.Domain.{AggregatedSignal, PortfolioSnapshot}
use poly_meridian.Risk.KillSwitch.{observe_daily_pnl}
use poly_meridian.Risk.Policy.{DefaultRiskPolicy, Evaluation, type_error, verdict, evaluate}

-- One call of `evaluate`: its time, signal and portfolio.
pub record Request (F D : Type 0) : Type 0 where
  pub now : F
  pub signal : AggregatedSignal F D
  pub portfolio : PortfolioSnapshot F D

module _ {F D : Type 0} ⦃nf : Num F⦄ ⦃nd : Num D⦄ ⦃cv : Convert F D⦄ where
  -- How the calls end on a sequence of signals, one after the other.
  unfoldable pub evaluate_all : List (Request F D) → DefaultRiskPolicy F → List Evaluation
  evaluate_all [] p = []
  evaluate_all (r ∷ rs) p =
      (evaluate r.now r.signal r.portfolio p).0
      ∷ evaluate_all rs (evaluate r.now r.signal r.portfolio p).1

  evaluate_engaged :
      (now : F) (s : AggregatedSignal F D) (port : PortfolioSnapshot F D) (p : DefaultRiskPolicy F)
      → p.kill_switch.engaged ≡ true
      → evaluate now s port p ≡ (type_error, p)
  unfolding evaluate verdict observe_daily_pnl
  evaluate_engaged now s port p h = ground arith

  evaluate_all-engaged :
      (rs : List (Request F D)) (p : DefaultRiskPolicy F)
      → p.kill_switch.engaged ≡ true
      → All (λ d. d ≡ type_error) (evaluate_all rs p)
  unfolding evaluate_all
  evaluate_all-engaged [] p h = tt
  evaluate_all-engaged (r ∷ rs) p h =
      rw (evaluate_engaged r.now r.signal r.portfolio p h) (refl, evaluate_all-engaged rs p h)

  loss_engages :
      (now : F) (s : AggregatedSignal F D) (port : PortfolioSnapshot F D) (p : DefaultRiskPolicy F)
      → (port.daily_pnl_pct <? neg p.kill_switch.config.daily_loss_trigger_pct) ≡ true
      → ((evaluate now s port p).0 ≡ type_error)
        × ((evaluate now s port p).1.kill_switch.engaged ≡ true)
  unfolding evaluate verdict observe_daily_pnl
  loss_engages now s port p h = ground arith

  -- When the first signal of a sequence comes with a daily loss beyond the trigger, the call on it
  -- and all calls that follow raise a TypeError in place of a rejection, whatever the signals propose
  -- and whatever the later portfolios show.
  pub evaluate_all-raises :
      (r : Request F D) (rs : List (Request F D)) (p : DefaultRiskPolicy F)
      → (r.portfolio.daily_pnl_pct <? neg p.kill_switch.config.daily_loss_trigger_pct) ≡ true
      → All (λ d. d ≡ type_error) (evaluate_all (r ∷ rs) p)
  unfolding evaluate_all
  evaluate_all-raises r rs p h =
      let (now_raised, on) = loss_engages r.now r.signal r.portfolio p h in
      (now_raised, evaluate_all-engaged rs (evaluate r.now r.signal r.portfolio p).1 on)
