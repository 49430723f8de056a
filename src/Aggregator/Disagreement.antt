-- ===== src/Aggregator/Disagreement.antt =====
-- SignalAggregator.aggregate on signals in opposite directions.
use poly_meridian.Prelude.{
  ◌≡◌, refl, Bool, true, false, ◌||◌, Option, none, List, [], ◌∷◌, String, get_or, filter, ◌==◌,
  string_eq, arith,
}
use poly_meridian.Prelude.Dict.{Dict, get, get-insert}
use poly_meridian.Num.{Num, Convert}
use poly_meridian.Domain.{Datetime, Action, Market, AggregatedSignal}
use poly_meridian.Aggregator.{
  StrategySignal, Helpers, SignalAggregator, Tally, action_eq, same_action_iff, base_of, set_add,
  add_base, tally_one, tally_all, new_tally, bases_of, is_backed, disagrees, is_proposal,
  aggregate_all, aggregate,
}

module _ {R F : Type 0} where
  -- Some signal suggests an action.
  abbrev pub proposes : Action → List (StrategySignal R F) → Bool
  proposes a [] = false
  proposes a (s ∷ ss) = s.suggested_action == a || proposes a ss

  proposes-filter :
      (a : Action) (ss : List (StrategySignal R F))
      → (a == Action.hold) ≡ false
      → proposes a ss ≡ true
      → proposes a (filter is_proposal ss) ≡ true
  proposes-filter a [] k h = h
  proposes-filter a (s ∷ ss) k h =
      ground (arith, proposes-filter a ss k, same_action_iff s.suggested_action a)

set_add-backed : (b : String) (bs : List String) → is_backed (set_add b bs) ≡ true
set_add-backed b [] = refl
set_add-backed b (c ∷ cs) = ground arith

add_base-backed :
    (a d : Action) (b : String) (bases : Dict Action (List String))
    → is_backed (get_or (get d (add_base a b bases)) [])
      ≡ (a == d || is_backed (get_or (get d bases) []))
add_base-backed a d b bases = ground (
  arith,
  get-insert a d (set_add b (get_or (get a bases) [])) bases,
  set_add-backed b (get_or (get a bases) []),
  same_action_iff a d,
)

module _ {R F D : Type 0} ⦃nf : Num F⦄ (h : Helpers R F D) where
  tally_all-backed :
      (a : SignalAggregator F) (bankroll : D) (ss : List (StrategySignal R F)) (t : Tally F D)
      (d : Action)
      → is_backed (bases_of d (tally_all h a bankroll ss t))
        ≡ (proposes d ss || is_backed (bases_of d t))
  unfolding tally_all
  tally_all-backed a bankroll [] t d = refl
  tally_all-backed a bankroll (s ∷ ss) t d = ground (
    arith,
    tally_all-backed a bankroll ss (tally_one h a bankroll s t) d,
    add_base-backed s.suggested_action d (base_of s.strategy) t.bases_per_direction,
  )

module _ {R F D : Type 0} ⦃nf : Num F⦄ ⦃nd : Num D⦄ ⦃cv : Convert F D⦄ (h : Helpers R F D) where
  tally_disagrees :
      (a : SignalAggregator F) (bankroll : D) (ss : List (StrategySignal R F))
      → proposes Action.buy_yes ss ≡ true
      → proposes Action.buy_no ss ≡ true
      → disagrees (tally_all h a bankroll ss new_tally) ≡ true
  unfolding disagrees
  tally_disagrees a bankroll ss for_yes for_no = ground (
    arith,
    tally_all-backed h a bankroll ss new_tally Action.buy_yes,
    tally_all-backed h a bankroll ss new_tally Action.buy_no,
  )

  all_disagree :
      (now : Datetime) (a : SignalAggregator F) (market : Option (Market D))
      (s : StrategySignal R F) (ss : List (StrategySignal R F)) (t : Tally F D)
      → a.cross_disagreement_blocks ≡ true
      → disagrees t ≡ true
      → aggregate_all h now a market s ss t ≡ none
  unfolding aggregate_all
  all_disagree now a market s ss t blocks k = rw (blocks, k) refl

  -- With the disagreement guard on, signals that buy both sides of a market merge into nothing,
  -- whichever strategies they come from and whatever their convictions.
  pub aggregate_both_sides :
      (now : Datetime) (a : SignalAggregator F) (market : Option (Market D)) (bankroll : D)
      (ss : List (StrategySignal R F))
      → a.cross_disagreement_blocks ≡ true
      → proposes Action.buy_yes ss ≡ true
      → proposes Action.buy_no ss ≡ true
      → aggregate h now a market bankroll ss ≡ none
  unfolding aggregate
  aggregate_both_sides now a market bankroll ss blocks for_yes for_no =
      go (filter is_proposal ss) (proposes-filter Action.buy_yes ss refl for_yes)
        (proposes-filter Action.buy_no ss refl for_no)
    where
      go :
          (xs : List (StrategySignal R F))
          → proposes Action.buy_yes xs ≡ true
          → proposes Action.buy_no xs ≡ true
          → ◌≡◌ {A = Option (AggregatedSignal F D)}
              (elim xs [
                | [] ↦ none
                | s ∷ rest ↦
                    aggregate_all h now a market s rest
                      (tally_all h a bankroll (s ∷ rest) new_tally)
              ])
              none
      go [] y n = refl
      go (s ∷ rest) y n =
          let t : Tally F D = tally_all h a bankroll (s ∷ rest) new_tally in
          all_disagree now a market s rest t blocks (tally_disagrees a bankroll (s ∷ rest) y n)
