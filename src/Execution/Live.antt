-- ===== src/Execution/Live.antt =====
-- src/poly_meridian/execution/live_executor.py: orders at the venue. The venue's client is a
-- third-party library, so what it answers to a call is an argument. Messages of the user channel
-- are taken as decoded. Log calls are left out.
use poly_meridian.Prelude.{
  ℕ, suc, ◌≡◌, refl, Bool, true, false, not, ◌&&◌, ◌||◌, Option, none, some, List, [], ◌∷◌, ◌++◌,
  map, String, if◌then◌else◌, get_or, filter, ◌==◌, string_eq,
}
use poly_meridian.Prelude.Dict.{Dict, get, insert, keys, values}
use poly_meridian.Num.{Num, Convert, Quantize, ◌+◌, ◌≤?◌, lit}
use poly_meridian.Domain.{
  Datetime, Side, OrderType, OrderStatus, Mode, TradeDecision, is_open, is_final,
}
use poly_meridian.Domain
use poly_meridian.Execution.Fees.{FeeSchedule, estimate_fee_usd}
use poly_meridian.Execution.Router.{Outcome, accepted}
pub mod Sweep
pub mod Events
pub mod Reconcile
pub mod Flight

-- A call of `on_fill`: the order, the quantity, the price and the fee.
pub record Reported (D : Type 0) : Type 0 where
  pub order : Domain.Order D
  pub qty : D
  pub price : D
  pub fee : D

pub record LiveExecutor (F D : Type 0) : Type 0 where
  pub mode : Mode
  pub fees : FeeSchedule F
  pub us_mode : Bool
  pub has_on_fill : Bool
  pub token_category : Dict String String
  pub orders : Dict String (Domain.Order D)
  pub venue_id : Dict String String
  pub reported : List (Reported D)

abbrev pub is_live_mode : Mode → Bool
is_live_mode Mode.live_conservative = true
is_live_mode Mode.live_normal = true
is_live_mode _ = false

-- What the venue answers when an order is posted: the call raises, or returns a dict.
pub data Posted : Type 0 where
  post_failed : Posted
  posted : Dict String String → Posted

-- What it answers to a cancellation: the call raises, or returns a dict or any other value.
pub data Cancellation : Type 0 where
  cancel_failed : Cancellation
  reply : Bool → String → Cancellation
  flag : Bool → Cancellation

-- The listing of the open orders, each with its id if it has one.
pub data Listing : Type 0 where
  unauthenticated fetch_failed : Listing
  listed : List (Option String) → Listing

-- A field of a message.
pub data Field (D : Type 0) : Type 0 where
  absent unreadable : Field D
  value : D → Field D

-- A message of the user channel. The status is one of the five that are known, or none.
pub data Update (D : Type 0) : Type 0 where
  order_update : Option OrderStatus → Field D → Update D
  trade : Field D → Field D → Field D → Update D
  unknown : Update D

-- `d.get(k)` where an empty text counts as missing.
abbrev pub truthy : Option String → Option String
truthy none = none
truthy (some s) = if s == "" then none else some s

abbrev pub or_else : {A : Type 0} → Option A → Option A → Option A
or_else none b = b
or_else (some a) b = some a

-- `d.get("orderID") or d.get("order_id") or d.get("id")`
unfoldable pub venue_id_of : Dict String String → Option String
venue_id_of d =
    or_else (truthy (get "orderID" d)) (or_else (truthy (get "order_id" d)) (truthy (get "id" d)))

abbrev pub with_id : String → Option String → Dict String String → Dict String String
with_id order_id none d = d
with_id order_id (some v) d = insert order_id v d

-- The result of `_cancel_venue`.
abbrev pub is_cancelled : Bool → String → Bool
is_cancelled canceled status = canceled || status == "canceled"

-- `next((k for k, v in d.items() if v == x), None)`
unfoldable pub key_of : String → Dict String String → Option String
key_of x [] = none
key_of x ((k, v) ∷ d) = let rest = key_of x d in if v == x then some k else rest

abbrev pub with_status : {D : Type 0} → OrderStatus → Domain.Order D → Domain.Order D
with_status st o = record o { status = st }

abbrev pub is_listed : String → List (Option String) → Bool
is_listed v [] = false
is_listed v (none ∷ os) = is_listed v os
is_listed v (some w ∷ os) = w == v || is_listed v os

module _ {D : Type 0} where
  abbrev pub open_ids : Dict String (Domain.Order D) → List String
  open_ids [] = []
  open_ids ((id, o) ∷ os) = let rest = open_ids os in if is_open o.status then id ∷ rest else rest

module _ {F D : Type 0} where
  -- The constructor refuses any mode that is not live.
  unfoldable pub new_live : Mode → FeeSchedule F → Bool → Bool → Option (LiveExecutor F D)
  new_live mode fees us_mode has_on_fill =
      if is_live_mode mode
      then some (record {
        mode = mode;
        fees = fees;
        us_mode = us_mode;
        has_on_fill = has_on_fill;
        token_category = [];
        orders = [];
        venue_id = [];
        reported = [];
      })
      else none

  unfoldable pub attach_category : String → Option String → LiveExecutor F D → LiveExecutor F D
  attach_category token category x = elim (truthy category) [
    | none ↦ x
    | some c ↦ record x { token_category = insert token c x.token_category }
  ]

  unfoldable pub get_order : String → LiveExecutor F D → Option (Domain.Order D)
  get_order order_id x = get order_id x.orders

  unfoldable pub open_orders : LiveExecutor F D → List (Domain.Order D)
  open_orders x = filter (λ (o : Domain.Order D). is_open o.status) (values x.orders)

  abbrev pub put_order : String → Domain.Order D → LiveExecutor F D → LiveExecutor F D
  put_order order_id o x = record x { orders = insert order_id o x.orders }

  -- The part of `cancel` once the order is known: the answer is asked for only if the venue knows it.
  unfoldable pub cancel_known :
      (String → Cancellation) → String → Domain.Order D → LiveExecutor F D → Bool × LiveExecutor F D
  cancel_known venue order_id o x =
      if is_final o.status then (false, x) else elim (get order_id x.venue_id) [
        | none ↦ (true, put_order order_id (with_status OrderStatus.cancelled o) x)
        | some v ↦ elim (venue v) [
          | cancel_failed ↦ (false, x)
          | reply canceled status ↦ (
            is_cancelled canceled status,
            if is_cancelled canceled status
                then put_order order_id (with_status OrderStatus.cancelled o) x
                else x,
          )
          | flag ok ↦
              (ok, if ok then put_order order_id (with_status OrderStatus.cancelled o) x else x)
        ]
      ]

  unfoldable pub cancel :
      (String → Cancellation) → String → LiveExecutor F D → Bool × LiveExecutor F D
  unfolding cancel_known
  cancel venue order_id x = elim (get order_id x.orders) [
    | none ↦ (false, x)
    | some o ↦ cancel_known venue order_id o x
  ]

  -- The loop of `cancel_all_open_orders` over the ids that are open at its start.
  unfoldable pub cancel_each :
      (String → Cancellation) → List String → ℕ → LiveExecutor F D → ℕ × LiveExecutor F D
  unfolding cancel
  cancel_each venue [] n x = (n, x)
  cancel_each venue (id ∷ ids) n x =
      let (ok, y) = cancel venue id x in cancel_each venue ids (if ok then suc n else n) y

  unfoldable pub cancel_all_open_orders :
      (String → Cancellation) → LiveExecutor F D → ℕ × LiveExecutor F D
  unfolding cancel_each
  cancel_all_open_orders venue x = cancel_each venue (open_ids x.orders) 0 x

  -- A live order that the venue no longer lists is taken as filled.
  unfoldable pub settle_one :
      Datetime → List (Option String) → String → String → LiveExecutor F D → LiveExecutor F D
  settle_one now opens our_id v x = if is_listed v opens then x else elim (get our_id x.orders) [
    | none ↦ x
    | some o ↦ elim o.status [
      | OrderStatus.live ↦
          put_order our_id (record o { status = OrderStatus.filled; ts_filled = some now }) x
      | _ ↦ x
    ]
  ]

  unfoldable pub settle_each :
      Datetime → List (Option String) → Dict String String → LiveExecutor F D → LiveExecutor F D
  unfolding settle_one
  settle_each now opens [] x = x
  settle_each now opens ((our_id, v) ∷ rest) x =
      settle_each now opens rest (settle_one now opens our_id v x)

  unfoldable pub reconcile : Datetime → Listing → LiveExecutor F D → LiveExecutor F D
  unfolding settle_each
  reconcile now unauthenticated x = x
  reconcile now fetch_failed x = x
  reconcile now (listed opens) x = settle_each now opens x.venue_id x

module _ {F D : Type 0} ⦃nf : Num F⦄ ⦃nd : Num D⦄ ⦃qd : Quantize D⦄ ⦃cv : Convert F D⦄ where
  unfoldable pub estimate_fill_fee : String → D → F → Bool → LiveExecutor F D → D
  estimate_fill_fee token notional_usd price is_maker x =
      estimate_fee_usd notional_usd (get token x.token_category) is_maker (some price) x.us_mode
        x.fees

module _ {D : Type 0} ⦃nd : Num D⦄ where
  abbrev pub order_of : String → Mode → OrderStatus → TradeDecision D → Domain.Order D
  order_of order_id mode status d = record {
    order_id = order_id;
    ts_created = d.ts;
    ts_filled = none;
    strategy = d.strategy;
    token_id = d.token_id;
    side = d.side;
    order_type = d.order_type;
    price = d.price;
    size = d.size;
    filled_size = lit 0 0;
    avg_fill_price = none;
    status = status;
    mode = mode;
  }

  abbrev pub with_filled : Field D → Domain.Order D → Domain.Order D
  with_filled (value d) o = record o { filled_size = d }
  with_filled _ o = o

  abbrev pub with_update : Option OrderStatus → Domain.Order D → Domain.Order D
  with_update none o = o
  with_update (some st) o = with_status st o

  unfoldable pub fill_order : Datetime → D → D → Domain.Order D → Domain.Order D
  fill_order now price qty o =
      let total = o.filled_size + qty in
      record o {
        avg_fill_price = some price;
        filled_size = total;
        ts_filled = some now;
        status = if o.size ≤? total then OrderStatus.filled else OrderStatus.partial;
      }

  abbrev pub report : Bool → Domain.Order D → D → D → D → List (Reported D) → List (Reported D)
  report wanted o qty price fee rs =
      if wanted then rs ++ record { order = o; qty = qty; price = price; fee = fee } ∷ [] else rs

  -- A fee that is missing is zero.
  abbrev pub fee_or_zero : Field D → Field D
  fee_or_zero absent = value (lit 0 0)
  fee_or_zero f = f

module _ {F D : Type 0} ⦃nd : Num D⦄ where
  -- `submit` up to the call of the venue: the order is stored as pending.
  abbrev pub begin_submit : String → TradeDecision D → LiveExecutor F D → LiveExecutor F D
  begin_submit order_id d x = put_order order_id (order_of order_id x.mode OrderStatus.pending d) x

  -- `submit` from the venue's answer on, which changes the order as it is by then.
  unfoldable pub finish_submit :
      Posted → String → Domain.Order D → LiveExecutor F D → Domain.Order D × LiveExecutor F D
  finish_submit post_failed order_id o x =
      let done = with_status OrderStatus.rejected o in (done, put_order order_id done x)
  finish_submit (posted answer) order_id o x =
      let done = with_status OrderStatus.live o in
      (
        done,
        record (put_order order_id done x) {
          venue_id = with_id order_id (venue_id_of answer) x.venue_id;
        },
      )

  -- A submission during which nothing else happens.
  unfoldable pub submit :
      Posted → String → TradeDecision D → LiveExecutor F D → Domain.Order D × LiveExecutor F D
  unfolding finish_submit
  submit post order_id d x =
      finish_submit post order_id (order_of order_id x.mode OrderStatus.pending d)
        (begin_submit order_id d x)

  unfoldable pub apply_trade :
      Datetime
      → Field D
      → Field D
      → Field D
      → String
      → Domain.Order D
      → LiveExecutor F D
      → LiveExecutor F D
  unfolding fill_order
  apply_trade now (value price) (value qty) (value fee) our_id o x =
      let done = fill_order now price qty o in
      record (put_order our_id done x) {
        reported = report x.has_on_fill done qty price fee x.reported;
      }
  apply_trade now _ _ _ our_id o x = x

  unfoldable pub apply_update :
      Datetime → Update D → String → Domain.Order D → LiveExecutor F D → LiveExecutor F D
  unfolding apply_trade
  apply_update now (order_update status size_matched) our_id o x =
      put_order our_id (with_filled size_matched (with_update status o)) x
  apply_update now (trade price size fee) our_id o x =
      apply_trade now price size (fee_or_zero fee) our_id o x
  apply_update now unknown our_id o x = x

  -- The order of a message is found by its venue id.
  unfoldable pub apply_user_ws_event :
      Datetime → Option String → Update D → LiveExecutor F D → LiveExecutor F D
  unfolding apply_update
  apply_user_ws_event now venue update x = elim (truthy venue) [
    | none ↦ x
    | some v ↦ elim (key_of v x.venue_id) [
      | none ↦ x
      | some our_id ↦ elim (get our_id x.orders) [
        | none ↦ x
        | some o ↦ apply_update now update our_id o x
      ]
    ]
  ]
