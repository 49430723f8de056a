-- ===== src/Execution/Paper.antt =====
-- src/poly_meridian/execution/paper_executor.py: fills simulated against the local books.
-- An order object is shared between `_orders` and `_resting`, so a resting entry refers to its
-- order by id. The order id and the time are arguments; the calls of the slippage monitor and of
-- `on_fill` are listed in `calls`, newest last. Log calls are left out.
pub mod Order
pub mod Sweep
pub mod Standing
pub mod Entries
pub mod Rounds
pub mod Custody
use poly_meridian.Prelude.{
  ℕ, suc, ◌≡◌, refl, Bool, true, false, not, ◌&&◌, Option, none, some, List, [], ◌∷◌, ◌++◌, map,
  String, if◌then◌else◌, get_or, filter, string_eq, length,
}
use poly_meridian.Prelude.Dict.{Dict, get, insert, remove, values, keys}
use poly_meridian.Num.{
  Num, Convert, Quantize, quantize, to_float, ◌+◌, ◌-◌, ◌*◌, ◌/◌, ◌<?◌, ◌≤?◌, lit,
}
use poly_meridian.Domain.{
  Datetime, Clock, Side, buy, sell, OrderType, gtc, gtd, fok, fak, OrderStatus, Mode, TradeDecision,
  is_open, is_final,
}
use poly_meridian.Domain
use poly_meridian.Book.{LocalBook, best_bid, best_ask, depth_within}
use poly_meridian.Execution.Fees.{FeeSchedule, estimate_fee_usd}
use poly_meridian.Execution.Walk.{walk_book_for_fill}

-- A maker order on the virtual book.
pub record Resting (D : Type 0) : Type 0 where
  pub remaining : D
  pub submitted_at : Datetime

-- A call of a collaborator.
pub data Call (F D : Type 0) : Type 0 where
  record_fill : String → F → F → F → F → Call F D
  on_fill : Domain.Order D → D → D → D → Call F D

pub record PaperExecutor (F D : Type 0) : Type 0 where
  pub books : Dict String (LocalBook D)
  pub orders : Dict String (Domain.Order D)
  pub resting : Dict String (Resting D)
  pub maker_timeout_sec : F
  pub fees : FeeSchedule F
  pub us_mode : Bool
  pub token_category : Dict String String
  pub has_slippage_monitor : Bool
  pub has_on_fill : Bool
  pub calls : List (Call F D)

module _ {D : Type 0} where
  abbrev pub with_status : OrderStatus → Domain.Order D → Domain.Order D
  with_status st o = record o { status = st }

module _ {F D : Type 0} where
  unfoldable pub attach_slippage_monitor : PaperExecutor F D → PaperExecutor F D
  attach_slippage_monitor x = record x { has_slippage_monitor = true }

  unfoldable pub attach_book : String → LocalBook D → PaperExecutor F D → PaperExecutor F D
  attach_book token book x = record x { books = insert token book x.books }

  unfoldable pub attach_category : String → Option String → PaperExecutor F D → PaperExecutor F D
  attach_category token none x = x
  attach_category token (some c) x =
      if string_eq.beq c ""
      then x
      else record x { token_category = insert token c x.token_category }

  unfoldable pub get_order : String → PaperExecutor F D → Option (Domain.Order D)
  get_order order_id x = get order_id x.orders

  unfoldable pub open_orders : PaperExecutor F D → List (Domain.Order D)
  open_orders x = filter (λ (o : Domain.Order D). is_open o.status) (values x.orders)

module _ {D : Type 0} ⦃nd : Num D⦄ where
  unfoldable pub can_cross : Domain.Order D → LocalBook D → Bool
  can_cross o b = elim o.price [
    | none ↦ false
    | some price ↦ elim o.side [
      | buy ↦ elim (best_ask b) [ none ↦ false | some ask ↦ ask.0 ≤? price ]
      | sell ↦ elim (best_bid b) [ none ↦ false | some bid ↦ price ≤? bid.0 ]
    ]
  ]

  abbrev pub order_of : String → TradeDecision D → Domain.Order D
  order_of order_id d = record {
    order_id = order_id;
    ts_created = d.ts;
    ts_filled = none;
    strategy = d.strategy;
    token_id = d.token_id;
    side = d.side;
    order_type = d.order_type;
    price = d.price;
    size = d.size;
    filled_size = lit 0 0;
    avg_fill_price = none;
    status = OrderStatus.pending;
    mode = Mode.paper;
  }

module _ {D : Type 0} ⦃nd : Num D⦄ ⦃qd : Quantize D⦄ where
  -- The order after a fill.
  unfoldable pub fill_order : Datetime → D → D → Domain.Order D → Domain.Order D
  fill_order now vwap qty o =
      let total = o.filled_size + qty in
      record o {
        avg_fill_price = some (elim o.avg_fill_price [
          | none ↦ vwap
          | some prior ↦ quantize 4 ((prior * o.filled_size + vwap * qty) / total)
        ]);
        filled_size = total;
        ts_filled = some now;
        status = if o.size ≤? total then OrderStatus.filled else OrderStatus.partial;
      }

abbrev pub mark_stale : Bool → String → List String → List String
mark_stale stale id ids = if stale then id ∷ ids else ids

module _ {D : Type 0} where
  abbrev pub store_resting :
      String → Option (Resting D) → Dict String (Resting D) → Dict String (Resting D)
  store_resting id none d = d
  store_resting id (some r) d = insert id r d

  abbrev pub remove_all : List String → Dict String (Resting D) → Dict String (Resting D)
  remove_all [] d = d
  remove_all (id ∷ ids) d = remove_all ids (remove id d)

module _ {F D : Type 0} where
  unfoldable pub cancel : String → PaperExecutor F D → Bool × PaperExecutor F D
  cancel order_id x = elim (get order_id x.orders) [
    | none ↦ (false, x)
    | some o ↦
        (if is_final o.status then (false, x) else (
          true,
          record x {
            orders = insert order_id (with_status OrderStatus.cancelled o) x.orders;
            resting = remove order_id x.resting;
          },
        ))
  ]

  -- One round of the loop of `cancel_all_open_orders`, over the orders listed at its start.
  unfoldable pub cancel_open :
      ℕ → Dict String (Domain.Order D) → PaperExecutor F D → ℕ × PaperExecutor F D
  cancel_open n [] x = (n, x)
  cancel_open n ((order_id, o) ∷ os) x = cancel_open (if is_open o.status then suc n else n) os (
      if is_open o.status
      then record x {
        orders = insert order_id (with_status OrderStatus.cancelled o) x.orders;
        resting = remove order_id x.resting;
      }
      else x)

  unfoldable pub cancel_all_open_orders : PaperExecutor F D → ℕ × PaperExecutor F D
  unfolding cancel_open
  cancel_all_open_orders x = cancel_open 0 x.orders x

-- Everything that a fill reads and writes of one order.
pub record Filling (F D : Type 0) : Type 0 where
  pub order : Domain.Order D
  pub remaining : D
  pub made : List (Call F D)

abbrev pub is_maker : OrderType → Bool
is_maker gtc = true
is_maker gtd = true
is_maker _ = false

module _ {F D : Type 0} ⦃nf : Num F⦄ ⦃nd : Num D⦄ ⦃qd : Quantize D⦄ ⦃cv : Convert F D⦄ where
  unfoldable pub estimate_fill_fee : String → D → F → Bool → PaperExecutor F D → D
  estimate_fill_fee token notional_usd price maker x =
      estimate_fee_usd notional_usd (get token x.token_category) maker (some price) x.us_mode x.fees

  -- The depth that the monitor is told, measured on the side that the order takes.
  unfoldable pub depth_after : Domain.Order D → PaperExecutor F D → F
  depth_after o x = elim (get o.token_id x.books) [
    | none ↦ lit 0 0
    | some b ↦ to_float (depth_within (elim o.side [ buy ↦ false | sell ↦ true ]) (lit 5 2) b)
  ]

  abbrev monitor_call : PaperExecutor F D → Domain.Order D → D → D → List (Call F D)
  monitor_call x o vwap qty =
      if x.has_slippage_monitor
      then elim o.price [
        | none ↦ []
        | some price ↦
            record_fill o.token_id (to_float qty) (depth_after o x) (to_float price) (to_float vwap)
            ∷ []
      ]
      else []

  abbrev fill_call : PaperExecutor F D → Domain.Order D → D → D → List (Call F D)
  fill_call x o vwap qty =
      if x.has_on_fill
      then on_fill o qty vwap
          (estimate_fill_fee o.token_id (vwap * qty) (to_float vwap) (is_maker o.order_type) x)
        ∷ []
      else []

  -- `_apply_fill`: the order, with the calls that it makes.
  unfoldable pub apply_fill :
      PaperExecutor F D → Datetime → D → D → Domain.Order D → Domain.Order D × List (Call F D)
  unfolding fill_order depth_after estimate_fill_fee
  apply_fill x now vwap qty o =
      let done = fill_order now vwap qty o in
      (done, monitor_call x done vwap qty ++ fill_call x done vwap qty)

  unfoldable pub fill_maker_from_book :
      PaperExecutor F D → Datetime → LocalBook D → D → Domain.Order D → Filling F D
  unfolding apply_fill
  fill_maker_from_book x now b remaining o =
      let (vwap, taken) = walk_book_for_fill b o.side remaining in
      elim vwap [
        | none ↦ record { order = o; remaining = remaining; made = [] }
        | some price ↦
            (if taken ≤? lit 0 0
              then record { order = o; remaining = remaining; made = [] }
              else record {
                order = (apply_fill x now price taken o).0;
                remaining = remaining - taken;
                made = (apply_fill x now price taken o).1;
              })
      ]

  unfoldable pub fill_taker :
      PaperExecutor F D → Datetime → Bool → Domain.Order D → Domain.Order D × List (Call F D)
  unfolding apply_fill
  fill_taker x now all_or_nothing o = elim (get o.token_id x.books) [
    | none ↦ (with_status OrderStatus.rejected o, [])
    | some b ↦
        (let (vwap, taken) = walk_book_for_fill b o.side o.size in
          elim vwap [
            | none ↦ (with_status OrderStatus.rejected o, [])
            | some price ↦
                (if taken ≤? lit 0 0
                  then (with_status OrderStatus.rejected o, [])
                  else if all_or_nothing && (taken <? o.size)
                  then (with_status OrderStatus.cancelled o, [])
                  else apply_fill x now price taken o)
          ])
  ]

  -- What `_post_maker` leaves: the order, its resting entry if it has one, and the calls.
  unfoldable pub post_maker :
      PaperExecutor F D
      → Datetime
      → Domain.Order D
      → Domain.Order D × Option (Resting D) × List (Call F D)
  unfolding fill_maker_from_book can_cross
  post_maker x now o = elim (get o.token_id x.books) [
    | none ↦ (with_status OrderStatus.rejected o, none, [])
    | some b ↦ elim o.price [
      | none ↦ (with_status OrderStatus.rejected o, none, [])
      | some _ ↦
          (if can_cross o b
            then (let f = fill_maker_from_book x now b o.size o in
                if lit 0 0 <? f.remaining
                then (
                  with_status OrderStatus.partial f.order,
                  some (record { remaining = f.remaining; submitted_at = now }),
                  f.made,
                )
                else (f.order, none, f.made))
            else (
              with_status OrderStatus.live o,
              some (record { remaining = o.size; submitted_at = now }),
              [],
            ))
    ]
  ]

  -- `submit` through the taker path or the maker path, by the order type.
  abbrev pub execute :
      PaperExecutor F D
      → Datetime
      → Domain.Order D
      → Domain.Order D × Option (Resting D) × List (Call F D)
  execute x now o = elim o.order_type [
    | fok ↦ ((fill_taker x now true o).0, none, (fill_taker x now true o).1)
    | fak ↦ ((fill_taker x now false o).0, none, (fill_taker x now false o).1)
    | gtc ↦ post_maker x now o
    | gtd ↦ post_maker x now o
  ]

  unfoldable pub submit :
      String → Datetime → TradeDecision D → PaperExecutor F D → Domain.Order D × PaperExecutor F D
  unfolding post_maker fill_taker
  submit order_id now d x =
      let (o, rest, made) = execute x now (order_of order_id d) in
      (
        o,
        record x {
          orders = insert order_id o x.orders;
          resting = store_resting order_id rest x.resting;
          calls = x.calls ++ made;
        },
      )

module _ {F D : Type 0} ⦃nf : Num F⦄ ⦃nd : Num D⦄ ⦃qd : Quantize D⦄ ⦃cv : Convert F D⦄
    ⦃ck : Clock F⦄ where
  -- One resting order in `reconcile`: the executor, and whether the entry is stale.
  unfoldable pub reconcile_one :
      Datetime → String → Resting D → Domain.Order D → PaperExecutor F D → Bool × PaperExecutor F D
  unfolding fill_maker_from_book can_cross
  reconcile_one now id r o x = elim (get o.token_id x.books) [
    | none ↦ (false, x)
    | some b ↦
        (if x.maker_timeout_sec <? ck.seconds_between now r.submitted_at
          then (
            true,
            record x { orders = insert id (with_status OrderStatus.cancelled o) x.orders },
          )
          else if can_cross o b
          then (let f = fill_maker_from_book x now b r.remaining o in
              (
                f.remaining ≤? lit 0 0,
                record x {
                  orders = insert id f.order x.orders;
                  resting = insert id (record r { remaining = f.remaining }) x.resting;
                  calls = x.calls ++ f.made;
                },
              ))
          else (false, x))
  ]

  -- The loop of `reconcile` over the entries listed at its start, with the ids found stale.
  unfoldable pub reconcile_from :
      Datetime
      → Dict String (Resting D)
      → List String
      → PaperExecutor F D
      → List String × PaperExecutor F D
  unfolding reconcile_one
  reconcile_from now [] stale x = (stale, x)
  reconcile_from now ((id, r) ∷ rs) stale x =
      let done : Bool × PaperExecutor F D = elim (get id x.orders) [
        | none ↦ (false, x)
        | some o ↦ reconcile_one now id r o x
      ] in
      reconcile_from now rs (mark_stale done.0 id stale) done.1

  unfoldable pub reconcile : Datetime → PaperExecutor F D → PaperExecutor F D
  unfolding reconcile_from
  reconcile now x =
      let (stale, y) = reconcile_from now x.resting [] x in
      record y { resting = remove_all stale y.resting }
