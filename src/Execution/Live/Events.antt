-- ===== src/Execution/Live/Events.antt =====
-- LiveExecutor.apply_user_ws_event: the fills that the user channel reports.
use Prim.Native.Nat.{◌+◌ as ◌+ℕ◌}
use poly_meridian.Prelude.{
  ◌≡◌, refl, Option, some, List, [], ◌∷◌, String, if◌then◌else◌, arith, string_eq, length,
  length-append,
}
use poly_meridian.Prelude.Dict.{get, get-insert_self}
use poly_meridian.Num.{Num, ◌+◌, ◌≤?◌, sum_from}
use poly_meridian.Domain.{Datetime, OrderStatus}
use poly_meridian.Domain
use poly_meridian.Execution.Live.{
  LiveExecutor, value, Update, order_update, trade, truthy, key_of, with_update, with_filled,
  fill_order, apply_trade, apply_update, apply_user_ws_event,
}

-- A trade message: its time, price, size and fee.
pub record Trade (D : Type 0) : Type 0 where
  pub at : Datetime
  pub price : D
  pub size : D
  pub fee : D

module _ {F D : Type 0} ⦃nd : Num D⦄ where
  -- The messages of one venue order, one after the other.
  unfoldable pub apply_trades : String → List (Trade D) → LiveExecutor F D → LiveExecutor F D
  apply_trades v [] x = x
  apply_trades v (t ∷ ts) x =
      apply_trades v ts
        (apply_user_ws_event t.at (some v) (trade (value t.price) (value t.size) (value t.fee)) x)

  -- The order that a venue id leads to.
  pub record Known (v our_id : String) (x : LiveExecutor F D) (o : Domain.Order D) : Type 0 where
    pub named : truthy (some v) ≡ some v
    pub mapped : key_of v x.venue_id ≡ some our_id
    pub stored : get our_id x.orders ≡ some o

  event_lem :
      (now : Datetime) (u : Update D) (v our_id : String) (x : LiveExecutor F D)
      (o : Domain.Order D)
      → Known v our_id x o
      → apply_user_ws_event now (some v) u x ≡ apply_update now u our_id o x
  unfolding apply_user_ws_event
  event_lem now u v our_id x o k = ground (arith, k.named, k.mapped, k.stored)

module _ {D : Type 0} where
  abbrev pub sizes : List (Trade D) → List D
  sizes [] = []
  sizes (t ∷ ts) = t.size ∷ sizes ts

  -- The status that a list of trades leaves: none changes it, the last one decides it.
  abbrev pub last_status : ⦃nd : Num D⦄ → OrderStatus → D → D → List (Trade D) → OrderStatus
  last_status st size total [] = st
  last_status st size total (t ∷ ts) =
      last_status (if size ≤? total + t.size then OrderStatus.filled else OrderStatus.partial) size
        (total + t.size) ts

module _ {F D : Type 0} ⦃nd : Num D⦄ where
  Known-trade :
      (t : Trade D) (v our_id : String) (x : LiveExecutor F D) (o : Domain.Order D)
      → Known v our_id x o
      → Known v our_id
          (apply_update t.at (trade (value t.price) (value t.size) (value t.fee)) our_id o x)
          (fill_order t.at t.price t.size o)
  unfolding apply_update apply_trade
  Known-trade t v our_id x o k = record {
    named = k.named;
    mapped = k.mapped;
    stored = get-insert_self our_id (fill_order t.at t.price t.size o) x.orders;
  }

  -- What a sequence of trade messages leaves of an order.
  pub record Traded (ts : List (Trade D)) (our_id : String) (x y : LiveExecutor F D)
      (o : Domain.Order D) : Type 0 where
    pub order : Domain.Order D
    pub stored : get our_id y.orders ≡ some order
    pub filled : order.filled_size ≡ sum_from o.filled_size (sizes ts)
    pub status : order.status ≡ last_status o.status o.size o.filled_size ts
    pub told : length y.reported ≡ length x.reported +ℕ (if x.has_on_fill then length ts else 0)

  -- After any sequence of readable trade messages for an order that the executor knows, its
  -- filled quantity is what was filled before with the sizes of the messages added in order, its
  -- status is filled or partial by the last total, and each message is reported once if fills
  -- are reported at all.
  pub apply_trades-Traded :
      (ts : List (Trade D)) (v our_id : String) (x : LiveExecutor F D) (o : Domain.Order D)
      → Known v our_id x o
      → Traded ts our_id x (apply_trades v ts x) o
  unfolding apply_trades apply_update apply_trade fill_order
  apply_trades-Traded [] v our_id x o k = record {
    order = o;
    stored = k.stored;
    filled = refl;
    status = refl;
    told = ground arith;
  }
  apply_trades-Traded (t ∷ ts) v our_id x o k =
      let done = fill_order t.at t.price t.size o in
      let y = apply_update t.at (trade (value t.price) (value t.size) (value t.fee)) our_id o x in
      let r = apply_trades-Traded ts v our_id y done (Known-trade t v our_id x o k) in
      rw (event_lem t.at (trade (value t.price) (value t.size) (value t.fee)) v our_id x o k)
        (record {
          order = r.order;
          stored = r.stored;
          filled = r.filled;
          status = r.status;
          told = ground (
            arith,
            r.told,
            length-append x.reported
                (record { order = done; qty = t.size; price = t.price; fee = t.fee } ∷ []),
          );
        })

  -- A quantity that an order update and a trade message both carry is counted twice: when the
  -- update gives it as the matched size and the trade follows, the order's filled quantity is
  -- its double.
  pub update_trade_doubles :
      (now later : Datetime) (v our_id : String) (st : Option OrderStatus) (price qty fee : D)
      (x : LiveExecutor F D) (o : Domain.Order D)
      → Known v our_id x o
      → let y =
          apply_user_ws_event later
            (some v)
            (trade (value price) (value qty) (value fee))
            (apply_user_ws_event now (some v) (order_update st (value qty)) x) in
        (p : Domain.Order D) × (get our_id y.orders ≡ some p) × (p.filled_size ≡ qty + qty)
  unfolding apply_update apply_trade fill_order
  update_trade_doubles now later v our_id st price qty fee x o k =
      let half = with_filled (value qty) (with_update st o) in
      let y = apply_update now (order_update st (value qty)) our_id o x in
      let k' : Known v our_id y half = record {
        named = k.named;
        mapped = k.mapped;
        stored = get-insert_self our_id half x.orders;
      } in
      rw
        (
          event_lem now (order_update st (value qty)) v our_id x o k,
          event_lem later (trade (value price) (value qty) (value fee)) v our_id y half k',
        )
        (
          fill_order later price qty half,
          get-insert_self our_id (fill_order later price qty half) y.orders,
          refl,
        )
