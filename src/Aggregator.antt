-- ===== src/Aggregator.antt =====
-- src/poly_meridian/strategies/aggregator.py: `SignalAggregator.aggregate`, which merges the
-- signals of the strategies on one market. What the strategies' helpers read from a rationale is
-- an interface; the current time is an argument. Log calls and metrics are left out.
use Prim.Native.String.{slice}
use text.Mathlib.Text.{find?, starts_with}
use poly_meridian.Prelude.{
  ℕ, ◌≡◌, ◌↔◌, refl, Bool, true, false, not, ◌&&◌, ◌||◌, Option, none, some, List, [], ◌∷◌, ◌++◌,
  String, if◌then◌else◌, get_or, filter, length, Eq, ◌==◌, string_eq, leb, arith,
}
use Prim.Native.Nat.{◌-◌}
use poly_meridian.Prelude.Dict.{Dict, get, insert}
use poly_meridian.Num.{Num, Convert, to_float, ◌+◌, ◌*◌, ◌/◌, ◌<?◌, ◌≤?◌, lit, min, sum, num_eq}
use poly_meridian.Domain.{Datetime, Action, Market, AggregatedSignal}
use poly_meridian.Book.{max_from}
pub mod Bounds
pub mod Disagreement

-- `domain.StrategySignal`, with a rationale of type `R`.
pub record StrategySignal (R F : Type 0) : Type 0 where
  pub ts : Datetime
  pub strategy : String
  pub condition_id : String
  pub token_id : String
  pub edge : F
  pub conviction : F
  pub suggested_action : Action
  pub rationale : R

-- What the aggregator asks of the strategies: the two tables of helpers by base name, and the
-- partner leg of a rationale that names both a token and a price (none if it does not parse).
pub record Helpers (R F D : Type 0) : Type 0 where
  pub price_helper : String → Option (R → D)
  pub size_helper : String → Option (R → D → F → F)
  pub partner : R → Option (String × Option D)

pub record SignalAggregator (F : Type 0) : Type 0 where
  pub conflict_threshold : F
  pub max_size_pct : F
  pub consensus_boost : F
  pub cross_disagreement_blocks : Bool

-- The variables of the loop over the signals.
pub record Tally (F D : Type 0) : Type 0 where
  pub score : Dict Action F
  pub weight : Dict Action F
  pub edge_sum : Dict Action F
  pub prices : List D
  pub size_pcts : List F
  pub contributors : List String
  pub bases_per_direction : Dict Action (List String)
  pub direction_token : Dict Action String

abbrev pub same_action : Action → Action → Bool
same_action Action.buy_yes Action.buy_yes = true
same_action Action.buy_no Action.buy_no = true
same_action Action.sell Action.sell = true
same_action Action.hold Action.hold = true
same_action Action.exit Action.exit = true
same_action _ _ = false

pub same_action_iff : (a b : Action) → (same_action a b ≡ true) ↔ (a ≡ b)
same_action_iff a b = ground arith

instance abbrev pub action_eq : Eq Action
action_eq = record { beq = same_action; beq_iff = same_action_iff }

-- `strategy.split(".", 1)[0]`
unfoldable pub base_of : String → String
base_of strategy = elim (find? strategy ".") [ none ↦ strategy | some i ↦ slice strategy 0 i ]

abbrev pub contains : String → List String → Bool
contains b [] = false
contains b (c ∷ cs) = c == b || contains b cs

-- `set.add`
abbrev pub set_add : String → List String → List String
set_add b bs = if contains b bs then bs else bs ++ b ∷ []

abbrev pub append_some : {A : Type 0} → List A → Option A → List A
append_some xs none = xs
append_some xs (some x) = xs ++ x ∷ []

abbrev pub add_base : Action → String → Dict Action (List String) → Dict Action (List String)
add_base a b d = insert a (set_add b (get_or (get a d) [])) d

abbrev pub set_default : Action → String → Dict Action String → Dict Action String
set_default a token d = elim (get a d) [ none ↦ insert a token d | some _ ↦ d ]

module _ {F : Type 0} ⦃nf : Num F⦄ where
  -- `d[a] += x` of a dict whose missing values are zero.
  abbrev pub add_to : Action → F → Dict Action F → Dict Action F
  add_to a x d = insert a (get_or (get a d) (lit 0 0) + x) d

  -- `sorted(items, key=value, reverse=True)`: stable, greatest first.
  abbrev pub insert_ranked : Action × F → List (Action × F) → List (Action × F)
  insert_ranked e [] = e ∷ []
  insert_ranked e (m ∷ ms) =
      let rest = insert_ranked e ms in if e.1 <? m.1 then m ∷ rest else e ∷ m ∷ ms

  unfoldable pub rank : Dict Action F → List (Action × F)
  rank [] = []
  rank (e ∷ es) = insert_ranked e (rank es)

  -- `ranked[1][1] if len(ranked) > 1 else 0.0`
  abbrev pub runner_up : List (Action × F) → F
  runner_up [] = lit 0 0
  runner_up (e ∷ _) = e.1

  unfoldable pub final_conviction : SignalAggregator F → ℕ → F → F
  final_conviction a n_distinct top =
      let conviction = min (lit 1 0) top in
      if leb 2 n_distinct
      then min (lit 1 0) (conviction + lit (n_distinct - 1) 0 * a.consensus_boost)
      else conviction

  unfoldable pub capped_size : SignalAggregator F → List F → F
  capped_size a [] = lit 0 0
  capped_size a (x ∷ xs) = min a.max_size_pct (sum (x ∷ xs))

module _ {D : Type 0} ⦃nd : Num D⦄ where
  -- `max(prices) if prices else None`
  abbrev pub best_price : List D → Option D
  best_price [] = none
  best_price (p ∷ ps) = some (max_from p ps)

abbrev pub opposite_buy : Action → Action
opposite_buy Action.buy_yes = Action.buy_no
opposite_buy _ = Action.buy_yes

module _ {R F D : Type 0} (h : Helpers R F D) where
  -- The partner leg of the first arbitrage signal that has one.
  unfoldable pub paired_leg : List (StrategySignal R F) → Option (String × Option D × Action)
  paired_leg [] = none
  paired_leg (s ∷ ss) =
      let rest = paired_leg ss in
      if starts_with s.strategy "arbitrage"
      then elim (h.partner s.rationale) [
        | none ↦ rest
        | some leg ↦ some (leg.0, leg.1, opposite_buy s.suggested_action)
      ]
      else rest

module _ {R F D : Type 0} ⦃nf : Num F⦄ (h : Helpers R F D) where
  -- One round of the loop.
  unfoldable pub tally_one : SignalAggregator F → D → StrategySignal R F → Tally F D → Tally F D
  unfolding base_of
  tally_one a bankroll_usd s t =
      let base = base_of s.strategy in
      record {
        score = add_to s.suggested_action s.conviction t.score;
        weight = add_to s.suggested_action s.conviction t.weight;
        edge_sum = add_to s.suggested_action (s.conviction * s.edge) t.edge_sum;
        prices =
            append_some t.prices
              (elim (h.price_helper base) [ none ↦ none | some f ↦ some (f s.rationale) ]);
        size_pcts = append_some t.size_pcts (elim (h.size_helper base) [
          | none ↦ none
          | some f ↦ some (f s.rationale bankroll_usd a.max_size_pct)
        ]);
        contributors = t.contributors ++ s.strategy ∷ [];
        bases_per_direction = add_base s.suggested_action base t.bases_per_direction;
        direction_token = set_default s.suggested_action s.token_id t.direction_token;
      }

  unfoldable pub tally_all :
      SignalAggregator F → D → List (StrategySignal R F) → Tally F D → Tally F D
  unfolding tally_one
  tally_all a bankroll_usd [] t = t
  tally_all a bankroll_usd (s ∷ ss) t = tally_all a bankroll_usd ss (tally_one a bankroll_usd s t)

abbrev pub is_backed : List String → Bool
is_backed [] = false
is_backed (_ ∷ _) = true

module _ {F D : Type 0} where
  abbrev pub new_tally : Tally F D
  new_tally = record {
    score = [];
    weight = [];
    edge_sum = [];
    prices = [];
    size_pcts = [];
    contributors = [];
    bases_per_direction = [];
    direction_token = [];
  }

  abbrev pub bases_of : Action → Tally F D → List String
  bases_of a t = get_or (get a t.bases_per_direction) []

  -- Both directions are bought by some strategy.
  unfoldable pub disagrees : Tally F D → Bool
  disagrees t = is_backed (bases_of Action.buy_yes t) && is_backed (bases_of Action.buy_no t)

module _ {F D : Type 0} ⦃nf : Num F⦄ ⦃nd : Num D⦄ ⦃cv : Convert F D⦄ where
  -- The category and the liquidity of the market; a liquidity of zero counts as unknown.
  abbrev pub liquidity_of : Option (Market D) → Option F
  liquidity_of none = none
  liquidity_of (some m) = elim m.liquidity_usd [
    | none ↦ none
    | some usd ↦ (if usd == lit 0 0 then none else some (to_float usd))
  ]

abbrev pub category_of : {D : Type 0} → Option (Market D) → Option String
category_of none = none
category_of (some m) = m.category

abbrev pub is_proposal : {R F : Type 0} → StrategySignal R F → Bool
is_proposal s = not (s.suggested_action == Action.hold)

module _ {R F D : Type 0} ⦃nf : Num F⦄ ⦃nd : Num D⦄ ⦃cv : Convert F D⦄ (h : Helpers R F D) where
  -- The merged signal in the winning direction.
  unfoldable pub winner :
      Datetime
      → SignalAggregator F
      → Option (Market D)
      → StrategySignal R F
      → List (StrategySignal R F)
      → Tally F D
      → Action
      → F
      → AggregatedSignal F D
  unfolding final_conviction capped_size paired_leg
  winner now a market s ss t direction top =
      let w = get_or (get direction t.weight) (lit 0 0) in
      let leg = paired_leg h (s ∷ ss) in
      record {
        ts = now;
        condition_id = s.condition_id;
        token_id = get_or (get direction t.direction_token) s.token_id;
        direction = direction;
        edge = if lit 0 0 <? w then get_or (get direction t.edge_sum) (lit 0 0) / w else lit 0 0;
        conviction = final_conviction a (length (bases_of direction t)) top;
        size_pct = capped_size a t.size_pcts;
        proposed_price = best_price t.prices;
        category = category_of market;
        market_liquidity_usd = liquidity_of market;
        contributors = t.contributors;
        paired_token = elim leg [ none ↦ none | some l ↦ some l.0 ];
        paired_price = elim leg [ none ↦ none | some l ↦ l.1 ];
        paired_side = elim leg [ none ↦ none | some l ↦ some l.2 ];
      }

  unfoldable pub aggregate_all :
      Datetime
      → SignalAggregator F
      → Option (Market D)
      → StrategySignal R F
      → List (StrategySignal R F)
      → Tally F D
      → Option (AggregatedSignal F D)
  unfolding winner rank disagrees
  aggregate_all now a market s ss t =
      if a.cross_disagreement_blocks && disagrees t then none else elim (rank t.score) [
        | [] ↦ none
        | best ∷ rest ↦
            (if nf.sub best.1 (runner_up rest) <? a.conflict_threshold
              then none
              else some (winner now a market s ss t best.0 best.1))
      ]

  unfoldable pub aggregate :
      Datetime
      → SignalAggregator F
      → Option (Market D)
      → D
      → List (StrategySignal R F)
      → Option (AggregatedSignal F D)
  unfolding aggregate_all tally_all
  aggregate now a market bankroll_usd signals = elim (filter is_proposal signals) [
    | [] ↦ none
    | s ∷ ss ↦ aggregate_all now a market s ss (tally_all h a bankroll_usd (s ∷ ss) new_tally)
  ]
