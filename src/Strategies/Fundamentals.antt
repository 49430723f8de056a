-- ===== src/Strategies/Fundamentals.antt =====
-- src/poly_meridian/strategies/fundamentals.py: `FundamentalsStrategy`. The resolvers of the
-- categories and the language model are arguments; the settings and the log are left out.
use poly_meridian.Prelude.{
  ℕ, ◌≡◌, Bool, true, false, not, ◌&&◌, ◌||◌, Option, none, some, List, [], ◌∷◌, map, String,
  if◌then◌else◌, get_or, ◌==◌, string_eq,
}
use Prim.Native.String.{slice}
use poly_meridian.Prelude.Chain.{◌>>=◌, require}
use poly_meridian.Prelude.Dict.{Dict, get, insert}
use poly_meridian.Num.{
  Num, Convert, Quantize, to_float, to_decimal, ◌-◌, ◌*◌, ◌<?◌, ◌≤?◌, lit, min, abs,
}
use poly_meridian.Domain.{Datetime, Action, Market}
use poly_meridian.Book.{LocalBook}
use poly_meridian.Features.{ask_of}
use poly_meridian.Aggregator.{StrategySignal}
use poly_meridian.Risk.Kelly.{sized_kelly}
pub mod Estimate

-- A resolver's output, without its own rationale.
pub record ProbabilityEstimate (F : Type 0) : Type 0 where
  pub p_yes : F
  pub confidence : F

-- A call of a resolver raises or returns.
pub data Resolution (F : Type 0) : Type 0 where
  failed : Resolution F
  resolved : Option (ProbabilityEstimate F) → Resolution F

-- The part of the context that the strategy fills in.
pub record FundamentalsContext (F : Type 0) : Type 0 where
  pub now : Datetime
  pub current_market_p : Option F
  pub news_summary : Option String
  pub smart_money_direction : Option String

pub record FundamentalsStrategy (F D : Type 0) : Type 0 where
  pub enabled : Bool
  pub min_edge : F
  pub min_confidence : F
  pub max_size_pct : F
  pub enabled_categories : List String
  pub resolvers : Dict String (Market D → FundamentalsContext F → Resolution F)
  pub llm_resolver : Option (Market D → FundamentalsContext F → Resolution F)
  pub books : Dict String (LocalBook D)
  pub context : FundamentalsContext F
  pub news_summaries : Dict String String
  pub sm_directions : Dict String String

pub record Rationale (F : Type 0) : Type 0 where
  pub category : String
  pub our_p_yes : F
  pub market_p_yes : F
  pub resolver_confidence : F
  pub best_ask : F
  pub max_size_pct : F
  pub our_p_long : F
  pub market_p_long : F

-- The categories that the configuration enables, or all four if there are none.
unfoldable pub enabled_of : List (String × Bool) → List String
enabled_of cats = elim (names cats) [
  | [] ↦ "Politics" ∷ "Sports" ∷ "Crypto" ∷ "Macro" ∷ []
  | c ∷ cs ↦ c ∷ cs
]
  where
    names : List (String × Bool) → List String
    names [] = []
    names ((k, on) ∷ cs) = let rest = names cs in if on then k ∷ rest else rest

abbrev pub is_member : String → List String → Bool
is_member x [] = false
is_member x (y ∷ ys) = let rest = is_member x ys in if y == x then true else rest

-- `market.category or "Uncategorized"`
abbrev pub category_of : {D : Type 0} → Market D → String
category_of m = elim m.category [
  | none ↦ "Uncategorized"
  | some c ↦ (if c == "" then "Uncategorized" else c)
]

abbrev pub estimate_of : {F : Type 0} → Resolution F → Option (ProbabilityEstimate F)
estimate_of failed = none
estimate_of (resolved e) = e

module _ {F D : Type 0} where
  unfoldable pub attach_book :
      String → LocalBook D → FundamentalsStrategy F D → FundamentalsStrategy F D
  attach_book token book s = record s { books = insert token book s.books }

  unfoldable pub attach_news_summary :
      String → String → FundamentalsStrategy F D → FundamentalsStrategy F D
  attach_news_summary condition_id summary s =
      if summary == ""
      then s
      else record s { news_summaries = insert condition_id (slice summary 0 600) s.news_summaries }

  unfoldable pub attach_smart_money :
      String → String → FundamentalsStrategy F D → FundamentalsStrategy F D
  attach_smart_money condition_id direction s =
      if direction == ""
      then s
      else record s { sm_directions = insert condition_id direction s.sm_directions }

  -- The resolver of the category, where the category is enabled.
  abbrev pub own_estimate :
      Market D → FundamentalsContext F → FundamentalsStrategy F D → Option (ProbabilityEstimate F)
  own_estimate m c s = elim (get (category_of m) s.resolvers) [
    | none ↦ none
    | some resolve ↦
        (if is_member (category_of m) s.enabled_categories || category_of m == "Uncategorized"
          then estimate_of (resolve m c)
          else none)
  ]

  abbrev pub llm_estimate :
      Market D → FundamentalsContext F → FundamentalsStrategy F D → Option (ProbabilityEstimate F)
  llm_estimate m c s = elim s.llm_resolver [
    | none ↦ none
    | some resolve ↦ estimate_of (resolve m c)
  ]

  -- The language model is asked when the category has no estimate.
  unfoldable pub estimate :
      Market D → FundamentalsContext F → FundamentalsStrategy F D → Option (ProbabilityEstimate F)
  estimate m c s = elim (own_estimate m c s) [ none ↦ llm_estimate m c s | some e ↦ some e ]

module _ {F D : Type 0} ⦃nd : Num D⦄ ⦃cv : Convert F D⦄ where
  -- The context of a market: the price stays as it was where "yes" is not offered.
  unfoldable pub context_of : Datetime → Market D → FundamentalsStrategy F D → FundamentalsContext F
  context_of now m s = record {
    now = now;
    current_market_p = elim (ask_of s.books m.yes_token_id) [
      | none ↦ s.context.current_market_p
      | some p ↦ some (to_float p)
    ];
    news_summary = get m.condition_id s.news_summaries;
    smart_money_direction = get m.condition_id s.sm_directions;
  }

module _ {F D : Type 0} ⦃nf : Num F⦄ ⦃cv : Convert F D⦄ where
  -- How far the estimate is above the ask of "yes".
  abbrev pub edge_of : ProbabilityEstimate F → D → F
  edge_of e ask = e.p_yes - to_float ask

  abbrev pub buys_yes : ProbabilityEstimate F → D → Bool
  buys_yes e ask = lit 0 0 <? edge_of e ask

  abbrev pub side_token : ProbabilityEstimate F → D → Market D → String
  side_token e ask m = if buys_yes e ask then m.yes_token_id else m.no_token_id

  abbrev pub signal_of :
      Datetime
      → Market D
      → FundamentalsStrategy F D
      → ProbabilityEstimate F
      → D
      → D
      → StrategySignal (Rationale F) F
  signal_of now m s e ask price =
      let edge = edge_of e ask in
      let up = buys_yes e ask in
      record {
        ts = now;
        strategy = "fundamentals";
        condition_id = m.condition_id;
        token_id = side_token e ask m;
        edge = abs edge;
        conviction = min (lit 1 0) (abs edge * lit 2 0 * e.confidence);
        suggested_action = if up then Action.buy_yes else Action.buy_no;
        rationale = record {
          category = category_of m;
          our_p_yes = e.p_yes;
          market_p_yes = to_float ask;
          resolver_confidence = e.confidence;
          best_ask = to_float price;
          max_size_pct = s.max_size_pct;
          our_p_long = if up then e.p_yes else lit 1 0 - e.p_yes;
          market_p_long = if up then to_float ask else lit 1 0 - to_float ask;
        };
      }

module _ {F D : Type 0} ⦃nf : Num F⦄ ⦃nd : Num D⦄ ⦃cv : Convert F D⦄ where
  -- The signal of `evaluate`.
  unfoldable pub judge :
      Datetime → Market D → FundamentalsStrategy F D → Option (StrategySignal (Rationale F) F)
  unfolding context_of estimate
  judge now m s = do
    e ← estimate m (context_of now m s) s
    _ ← require (not (e.confidence <? s.min_confidence))
    ask ← ask_of s.books m.yes_token_id
    _ ← require (not (abs (edge_of e ask) <? s.min_edge))
    price ← ask_of s.books (side_token e ask m)
    some (signal_of now m s e ask price)

  -- `evaluate` also keeps the context that it has filled in.
  unfoldable pub evaluate :
      Datetime
      → Market D
      → FundamentalsStrategy F D
      → Option (StrategySignal (Rationale F) F) × FundamentalsStrategy F D
  unfolding judge
  evaluate now m s =
      if s.enabled then (judge now m s, record s { context = context_of now m s }) else (none, s)

-- The aggregator's helpers.
abbrev pub proposed_price : {F D : Type 0} ⦃cv : Convert F D⦄ → Rationale F → D
proposed_price r = to_decimal r.best_ask

module _ {F D : Type 0} ⦃nf : Num F⦄ ⦃nd : Num D⦄ ⦃qd : Quantize D⦄ ⦃cv : Convert F D⦄ where
  abbrev pub proposed_size_pct : Rationale F → D → F → F
  proposed_size_pct r bankroll_usd max_size_pct =
      (sized_kelly r.our_p_long r.market_p_long bankroll_usd (lit 25 2 * r.resolver_confidence)
        (min max_size_pct r.max_size_pct)).f_used
