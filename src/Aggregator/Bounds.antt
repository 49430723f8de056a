-- ===== src/Aggregator/Bounds.antt =====
-- SignalAggregator.aggregate: the conviction and the size of the merged signal.
use poly_meridian.Prelude.{
  ℕ, ◌≡◌, inl, inr, true, ◌&&◌, Option, none, some, List, [], ◌∷◌, if◌then◌else◌, filter, string_eq,
  arith, Bool-cases, length,
}
use Prim.Native.Nat.{◌-◌}
use poly_meridian.Num.{Num, Convert, ◌+◌, ◌*◌, ◌≤?◌, ◌<?◌, lit, min, sum}
use poly_meridian.Num.Order.{min_le_left}
use poly_meridian.Domain.{Datetime, Action, Market, AggregatedSignal}
use poly_meridian.Aggregator.{
  StrategySignal, Helpers, SignalAggregator, Tally, action_eq, tally_all, new_tally,
  final_conviction, capped_size, is_proposal, winner, aggregate_all, aggregate, bases_of, disagrees,
  rank, runner_up,
}

module _ {F : Type 0} ⦃nf : Num F⦄ where
  final_conviction-le :
      (a : SignalAggregator F) (n : ℕ) (top : F) → (final_conviction a n top ≤? lit 1 0) ≡ true
  unfolding final_conviction
  final_conviction-le a n top =
      let c = min (lit 1 0) top in
      ground (
        arith,
        min_le_left {A = F} (lit 1 0) top,
        min_le_left {A = F} (lit 1 0) (c + lit (n - 1) 0 * a.consensus_boost),
      )

  capped_size-le :
      (a : SignalAggregator F) (xs : List F)
      → (lit 0 0 ≤? a.max_size_pct) ≡ true
      → (capped_size a xs ≤? a.max_size_pct) ≡ true
  unfolding capped_size
  capped_size-le a [] h = h
  capped_size-le a (x ∷ xs) h = min_le_left {A = F} a.max_size_pct (sum (x ∷ xs))

module _ {R F D : Type 0} ⦃nf : Num F⦄ ⦃nd : Num D⦄ ⦃cv : Convert F D⦄ (h : Helpers R F D) where
  ranked_winner :
      (now : Datetime) (a : SignalAggregator F) (market : Option (Market D))
      (s : StrategySignal R F) (ss : List (StrategySignal R F)) (t : Tally F D)
      (g : AggregatedSignal F D) (ranked : List (Action × F))
      → ◌≡◌ {A = Option (AggregatedSignal F D)}
          (elim ranked [
            | [] ↦ none
            | best ∷ rest ↦
                (if nf.sub best.1 (runner_up rest) <? a.conflict_threshold
                  then none
                  else some (winner h now a market s ss t best.0 best.1))
          ])
          (some g)
      → (d : Action) × (top : F) × (winner h now a market s ss t d top ≡ g)
  ranked_winner now a market s ss t g [] e = cc
  ranked_winner now a market s ss t g ((d, top) ∷ rest) e = (d, top, ground arith)

  aggregate_all-winner :
      (now : Datetime) (a : SignalAggregator F) (market : Option (Market D))
      (s : StrategySignal R F) (ss : List (StrategySignal R F)) (t : Tally F D)
      (g : AggregatedSignal F D)
      → aggregate_all h now a market s ss t ≡ some g
      → (d : Action) × (top : F) × (winner h now a market s ss t d top ≡ g)
  unfolding aggregate_all
  aggregate_all-winner now a market s ss t g e =
      elim (Bool-cases (a.cross_disagreement_blocks && disagrees t)) [
        | inl blocked ↦ absurd (ground arith)
        | inr clear ↦ ranked_winner now a market s ss t g (rank t.score) (ground arith)
      ]

  all_bounds :
      (now : Datetime) (a : SignalAggregator F) (market : Option (Market D))
      (s : StrategySignal R F) (ss : List (StrategySignal R F)) (t : Tally F D)
      (g : AggregatedSignal F D)
      → (lit 0 0 ≤? a.max_size_pct) ≡ true
      → aggregate_all h now a market s ss t ≡ some g
      → ((g.conviction ≤? lit 1 0) ≡ true) × ((g.size_pct ≤? a.max_size_pct) ≡ true)
  unfolding winner
  all_bounds now a market s ss t g cap_ok e =
      let (d, top, is) = aggregate_all-winner now a market s ss t g e in
      rw (← is)
        (final_conviction-le a (length (bases_of d t)) top, capped_size-le a t.size_pcts cap_ok)

  -- A merged signal has a conviction of at most one and a size of at most the cap per position,
  -- when that cap is not negative.
  pub aggregate_bounds :
      (now : Datetime) (a : SignalAggregator F) (market : Option (Market D)) (bankroll : D)
      (ss : List (StrategySignal R F)) (g : AggregatedSignal F D)
      → (lit 0 0 ≤? a.max_size_pct) ≡ true
      → aggregate h now a market bankroll ss ≡ some g
      → ((g.conviction ≤? lit 1 0) ≡ true) × ((g.size_pct ≤? a.max_size_pct) ≡ true)
  unfolding aggregate
  aggregate_bounds now a market bankroll ss g cap_ok e = go (filter is_proposal ss) e
    where
      go :
          (xs : List (StrategySignal R F))
          → ◌≡◌ {A = Option (AggregatedSignal F D)}
              (elim xs [
                | [] ↦ none
                | s ∷ rest ↦
                    aggregate_all h now a market s rest
                      (tally_all h a bankroll (s ∷ rest) new_tally)
              ])
              (some g)
          → ((g.conviction ≤? lit 1 0) ≡ true) × ((g.size_pct ≤? a.max_size_pct) ≡ true)
      go [] k = cc
      go (s ∷ rest) k =
          all_bounds now a market s rest (tally_all h a bankroll (s ∷ rest) new_tally) g cap_ok k
