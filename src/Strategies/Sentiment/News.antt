-- ===== src/Strategies/Sentiment/News.antt =====
-- SentimentStrategy.evaluate: what holds of a signal and of the news behind it.
use poly_meridian.Prelude.{◌≡◌, ◌≢◌, refl, ◌≤◌, true, false, some, length, arith, string_eq}
use poly_meridian.Prelude.Chain.{Ends, Ends-some, bind-Ends, require-Ends}
use poly_meridian.Num.{Num, Convert, ◌<?◌, ◌≤?◌, lit, ◌*◌, abs}
use poly_meridian.Num.Order.{min_le_left}
use poly_meridian.Domain.{Datetime, Market}
use poly_meridian.Features.{aggregate_signals, winning_direction, ask_of, SentimentAggregate}
use poly_meridian.Aggregator.{StrategySignal}
use poly_meridian.Strategies.Sentiment.{
  SentimentStrategy, Rationale, news_of, conviction_of, edge_of, side_token, signal_of, judge,
  evaluate,
}

module _ {F : Type 0} ⦃nf : Num F⦄ where
  conviction_of-le :
      (a : SentimentAggregate F)
      → (conviction_of a ≤? lit 0 0) ≡ false
      → (conviction_of a ≤? lit 1 0) ≡ true
  conviction_of-le a h = ground (
    arith,
    nf.le_not_lt (conviction_of a) (lit 0 0),
    nf.lt_irrefl (lit 0 0),
    min_le_left {A = F} (lit 1 0) (a.impact_max * abs a.sentiment_avg),
  )

module _ {F D : Type 0} ⦃nf : Num F⦄ ⦃nd : Num D⦄ ⦃cv : Convert F D⦄ where
  -- A signal rests on the market's recent news: there is enough of it, its largest impact reaches the
  -- threshold, and it favours the side that is bought at its best ask.
  pub record RestsOnNews (now : Datetime) (m : Market D) (s : SentimentStrategy F D)
      (g : StrategySignal (Rationale F) F) : Type 0 where
    pub enough : s.min_signals ≤ length (news_of s m)
    pub impact : (s.impact_threshold ≤? (aggregate_signals (news_of s m)).impact_max) ≡ true
    pub favours : winning_direction (aggregate_signals (news_of s m)) ≢ "NEUTRAL"
    pub price : D
    pub offered :
        ask_of s.books (side_token (winning_direction (aggregate_signals (news_of s m))) m)
        ≡ some price
    pub sent : g ≡ signal_of now m s (aggregate_signals (news_of s m)) price
    pub convinced : ((lit 0 0 <? g.conviction) ≡ true) × ((g.conviction ≤? lit 1 0) ≡ true)
    pub gains : (lit 0 0 <? g.edge) ≡ true

  -- Every signal rests on the news, with a conviction above zero and at most one, and with an edge
  -- above zero, whichever side it buys.
  pub evaluate-RestsOnNews :
      (now : Datetime) (m : Market D) (s : SentimentStrategy F D)
      (g : StrategySignal (Rationale F) F)
      → evaluate now m s ≡ some g
      → RestsOnNews now m s g
  unfolding evaluate judge
  evaluate-RestsOnNews now m s g e =
      let a = aggregate_signals (news_of s m) in
      let ends : Ends (RestsOnNews now m s) (evaluate now m s) = require-Ends _ _ (λ enabled.
        require-Ends _ _ (λ enough. require-Ends _ _ (λ impact. require-Ends _ _ (λ favours.
          require-Ends _ _ (λ sure. bind-Ends _ _ (λ price offered. require-Ends _ _ (λ gains.
            Ends-some (record {
              enough = ground arith;
              impact = ground (arith, nf.le_not_lt s.impact_threshold a.impact_max);
              favours = ground (arith, string_eq.beq_iff (winning_direction a) "NEUTRAL");
              price = price;
              offered = offered;
              sent = refl;
              convinced = (
                ground (arith, nf.le_not_lt (conviction_of a) (lit 0 0)),
                conviction_of-le a (ground arith),
              );
              gains = ground (arith, nf.le_not_lt (edge_of a price) (lit 0 0));
            })))))))) in
      ends.each g e
