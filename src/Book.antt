-- ===== src/Book.antt =====
-- src/poly_meridian/ingestion/book.py: the local replica of one token's order book.
-- The messages are taken as decoded: prices and sizes are decimals, a side is one of two labels.
pub mod Levels
use poly_meridian.Prelude.{
  ℕ, ◌≡◌, refl, Bool, true, false, not, Option, none, some, List, [], ◌∷◌, map, String, filter,
  if◌then◌else◌, ◌==◌,
}
use poly_meridian.Prelude.Dict.{Dict, get, insert, remove, keys}
use poly_meridian.Num.{Num, ◌+◌, ◌-◌, ◌*◌, ◌/◌, ◌<?◌, ◌≤?◌, lit, sum, num_eq, min, max}
use poly_meridian.Domain.{Side, buy}

pub record LocalBook (D : Type 0) : Type 0 where
  pub token_id : String
  pub bids : Dict D D
  pub asks : Dict D D

-- One entry of a `book` message.
pub record Level (D : Type 0) : Type 0 where
  pub price : D
  pub size : D

-- One entry of a `price_change` message; `is_bid` is `side in ("BUY", "BID")`.
pub record Change (D : Type 0) : Type 0 where
  pub price : D
  pub size : D
  pub is_bid : Bool

module _ {D : Type 0} ⦃nd : Num D⦄ where
  -- The loop of `apply_snapshot` over one side.
  unfoldable pub load_levels : List (Level D) → Dict D D → Dict D D
  load_levels [] side = side
  load_levels (l ∷ ls) side =
      load_levels ls (if lit 0 0 <? l.size then insert l.price l.size side else side)

  unfoldable pub apply_snapshot : List (Level D) → List (Level D) → LocalBook D → LocalBook D
  unfolding load_levels
  apply_snapshot bids asks b = record b { bids = load_levels bids []; asks = load_levels asks [] }

  unfoldable pub set_level : D → D → Dict D D → Dict D D
  set_level price size side = if size == lit 0 0 then remove price side else insert price size side

  unfoldable pub apply_change : Change D → LocalBook D → LocalBook D
  unfolding set_level
  apply_change c b =
      if c.is_bid
      then record b { bids = set_level c.price c.size b.bids }
      else record b { asks = set_level c.price c.size b.asks }

  unfoldable pub apply_price_change : List (Change D) → LocalBook D → LocalBook D
  unfolding apply_change
  apply_price_change [] b = b
  apply_price_change (c ∷ cs) b = apply_price_change cs (apply_change c b)

  -- Python's `max(d)` and `min(d)` over the keys, of a dict that is not empty.
  abbrev pub max_from : D → List D → D
  max_from m [] = m
  max_from m (p ∷ ps) = max_from (max m p) ps

  abbrev pub min_from : D → List D → D
  min_from m [] = m
  min_from m (p ∷ ps) = min_from (min m p) ps

  -- `(p, side[p])`
  abbrev pub priced : D → Dict D D → Option (D × D)
  priced p side = elim (get p side) [ none ↦ none | some size ↦ some (p, size) ]

  unfoldable pub best_bid : LocalBook D → Option (D × D)
  best_bid b = elim b.bids [ [] ↦ none | e ∷ rest ↦ priced (max_from e.0 (keys rest)) b.bids ]

  unfoldable pub best_ask : LocalBook D → Option (D × D)
  best_ask b = elim b.asks [ [] ↦ none | e ∷ rest ↦ priced (min_from e.0 (keys rest)) b.asks ]

  unfoldable pub mid : LocalBook D → Option D
  unfolding best_bid best_ask
  mid b = elim (best_bid b) [
    | none ↦ none
    | some bid ↦ elim (best_ask b) [ none ↦ none | some ask ↦ some ((bid.0 + ask.0) / lit 2 0) ]
  ]

  -- `is_bid` is `side.lower().startswith("b")`.
  unfoldable pub depth_within : Bool → D → LocalBook D → D
  unfolding mid
  depth_within is_bid pct b = elim (mid b) [
    | none ↦ lit 0 0
    | some m ↦
        (if is_bid
          then sum
              (map (λ (e : D × D). e.1) (filter (λ (e : D × D). m * (lit 1 0 - pct) ≤? e.0) b.bids))
          else sum (
              map (λ (e : D × D). e.1) (filter (λ (e : D × D). e.0 ≤? m * (lit 1 0 + pct)) b.asks)))
  ]
