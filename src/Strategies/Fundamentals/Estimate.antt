-- ===== src/Strategies/Fundamentals/Estimate.antt =====
-- FundamentalsStrategy.evaluate: the estimate behind a signal.
use poly_meridian.Prelude.{◌≡◌, refl, true, false, some, arith, string_eq, ◌==◌}
use poly_meridian.Prelude.Chain.{Ends, Ends-some, bind-Ends, require-Ends}
use poly_meridian.Num.{Num, Convert, ◌≤?◌, lit, ◌*◌, abs}
use poly_meridian.Num.Order.{min_le_left}
use poly_meridian.Domain.{Datetime, Market}
use poly_meridian.Features.{ask_of}
use poly_meridian.Aggregator.{StrategySignal}
use poly_meridian.Strategies.Fundamentals.{
  FundamentalsStrategy, FundamentalsContext, ProbabilityEstimate, Rationale, is_member, category_of,
  llm_estimate, estimate, context_of, edge_of, side_token, signal_of, judge, evaluate,
}

module _ {F D : Type 0} ⦃nf : Num F⦄ ⦃nd : Num D⦄ ⦃cv : Convert F D⦄ where
  -- A signal rests on an estimate in the market's own context: it is confident enough and far enough
  -- from the ask of "yes", and the side that it favours is bought at that side's best ask.
  pub record RestsOnEstimate (now : Datetime) (m : Market D) (s : FundamentalsStrategy F D)
      (g : StrategySignal (Rationale F) F) : Type 0 where
    pub guess : ProbabilityEstimate F
    pub estimated : estimate m (context_of now m s) s ≡ some guess
    pub confident : (s.min_confidence ≤? guess.confidence) ≡ true
    pub ask : D
    pub yes_offered : ask_of s.books m.yes_token_id ≡ some ask
    pub far : (s.min_edge ≤? abs (edge_of guess ask)) ≡ true
    pub price : D
    pub offered : ask_of s.books (side_token guess ask m) ≡ some price
    pub sent : g ≡ signal_of now m s guess ask price
    pub certain : (g.conviction ≤? lit 1 0) ≡ true

  judge-Ends :
      (now : Datetime) (m : Market D) (s : FundamentalsStrategy F D)
      → Ends (RestsOnEstimate now m s) (judge now m s)
  unfolding judge
  judge-Ends now m s = bind-Ends _ _ (λ e estimated. require-Ends _ _ (λ sure.
      bind-Ends _ _ (λ ask known. require-Ends _ _ (λ gap. bind-Ends _ _ (λ price offered.
        Ends-some (record {
          guess = e;
          estimated = estimated;
          confident = ground (arith, nf.le_not_lt s.min_confidence e.confidence);
          ask = ask;
          yes_offered = known;
          far = ground (arith, nf.le_not_lt s.min_edge (abs (edge_of e ask)));
          price = price;
          offered = offered;
          sent = refl;
          certain = min_le_left {A = F} (lit 1 0) (abs (edge_of e ask) * lit 2 0 * e.confidence);
        }))))))

  -- Every signal rests on such an estimate, with a conviction of at most one.
  pub evaluate-RestsOnEstimate :
      (now : Datetime) (m : Market D) (s : FundamentalsStrategy F D)
      (g : StrategySignal (Rationale F) F)
      → (evaluate now m s).0 ≡ some g
      → RestsOnEstimate now m s g
  unfolding evaluate
  evaluate-RestsOnEstimate now m s g e = (judge-Ends now m s).each g (ground arith)

  -- A category that is not among the enabled ones as they are spelled is left to the language model,
  -- even when it has a resolver of its own.
  pub estimate_unlisted :
      (m : Market D) (c : FundamentalsContext F) (s : FundamentalsStrategy F D)
      → is_member (category_of m) s.enabled_categories ≡ false
      → (category_of m == "Uncategorized") ≡ false
      → estimate m c s ≡ llm_estimate m c s
  unfolding estimate
  estimate_unlisted m c s unlisted known = ground arith
