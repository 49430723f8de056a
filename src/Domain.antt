-- ===== src/Domain.antt =====
-- src/poly_meridian/domain.py: the objects that flow between the components.
-- `F` is Python's float and `D` its Decimal; a datetime is its count of microseconds.
use poly_meridian.Prelude.{ℕ, Bool, true, false, Option, none, some, List, [], ◌∷◌, String}
use poly_meridian.Prelude.Dict.{Dict}
use poly_meridian.Num.{Num, ◌+◌, ◌/◌, lit}

abbrev pub Datetime : Type 0
Datetime = ℕ

-- `(a - b).total_seconds()` is `seconds_between a b`.
pub record Clock (F : Type 0) : Type 0 where
  pub seconds_between : Datetime → Datetime → F

pub data Side : Type 0 where
  buy sell : Side

pub data OrderType : Type 0 where
  gtc gtd fok fak : OrderType

pub data OrderStatus : Type 0 where
  pending live partial filled cancelled rejected : OrderStatus

pub data Action : Type 0 where
  buy_yes buy_no sell hold exit : Action

pub data Mode : Type 0 where
  paper live_conservative live_normal kill : Mode

-- `status in (PENDING, LIVE, PARTIAL)`
abbrev pub is_open : OrderStatus → Bool
is_open OrderStatus.pending = true
is_open OrderStatus.live = true
is_open OrderStatus.partial = true
is_open _ = false

-- `status in (FILLED, CANCELLED, REJECTED)`
abbrev pub is_final : OrderStatus → Bool
is_final OrderStatus.filled = true
is_final OrderStatus.cancelled = true
is_final OrderStatus.rejected = true
is_final _ = false

pub record Market (D : Type 0) : Type 0 where
  pub condition_id : String
  pub question : String
  pub category : Option String
  pub sub_category : Option String
  pub event_id : Option String
  pub yes_token_id : String
  pub no_token_id : String
  pub end_date_iso : Option Datetime
  pub active : Bool
  pub closed : Bool
  pub liquidity_usd : Option D
  pub volume_usd : Option D

pub record OrderBookLevel (D : Type 0) : Type 0 where
  pub price : D
  pub size : D

pub record OrderBook (D : Type 0) : Type 0 where
  pub token_id : String
  pub ts : Datetime
  pub bids : List (OrderBookLevel D)
  pub asks : List (OrderBookLevel D)

pub record AggregatedSignal (F D : Type 0) : Type 0 where
  pub ts : Datetime
  pub condition_id : String
  pub token_id : String
  pub direction : Action
  pub edge : F
  pub conviction : F
  pub size_pct : F
  pub proposed_price : Option D
  pub category : Option String
  pub market_liquidity_usd : Option F
  pub contributors : List String
  pub paired_token : Option String
  pub paired_price : Option D
  pub paired_side : Option Action

pub record TradeDecision (D : Type 0) : Type 0 where
  pub ts : Datetime
  pub strategy : String
  pub token_id : String
  pub side : Side
  pub order_type : OrderType
  pub price : Option D
  pub size : D
  pub paired_token : Option String
  pub paired_price : Option D
  pub paired_side : Option Side

pub record Order (D : Type 0) : Type 0 where
  pub order_id : String
  pub ts_created : Datetime
  pub ts_filled : Option Datetime
  pub strategy : String
  pub token_id : String
  pub side : Side
  pub order_type : OrderType
  pub price : Option D
  pub size : D
  pub filled_size : D
  pub avg_fill_price : Option D
  pub status : OrderStatus
  pub mode : Mode

pub record Position (D : Type 0) : Type 0 where
  pub token_id : String
  pub qty : D
  pub avg_cost : D
  pub last_mark : D
  pub last_updated : Datetime

pub record PortfolioSnapshot (F D : Type 0) : Type 0 where
  pub ts : Datetime
  pub nav_usd : D
  pub cash_usd : D
  pub positions : List (Position D)
  pub daily_pnl_pct : F
  pub total_exposure_pct : F
  pub category_exposure_pct : Dict String F
  pub open_position_count : ℕ

module _ {D : Type 0} ⦃nd : Num D⦄ where
  -- `levels[0].price if levels else None`
  abbrev top_price : List (OrderBookLevel D) → Option D
  top_price [] = none
  top_price (l ∷ ls) = some l.price

  unfoldable pub best_bid : OrderBook D → Option D
  best_bid b = top_price b.bids

  unfoldable pub best_ask : OrderBook D → Option D
  best_ask b = top_price b.asks

  unfoldable pub mid : OrderBook D → Option D
  unfolding best_bid best_ask
  mid b = elim (best_bid b) [
    | none ↦ none
    | some bid ↦ elim (best_ask b) [ none ↦ none | some ask ↦ some ((bid + ask) / lit 2 0) ]
  ]
