-- ===== src/Tests/Live.antt =====
-- The live executor on concrete orders and answers of the venue.
use poly_meridian.Prelude.{◌≡◌, refl, true, false, some, [], ◌∷◌, String, count, string_eq, ◌==◌}
use poly_meridian.Prelude.Dict.{get}
use poly_meridian.Num.Fixed.{ℤ, pos, fixed, fixed_quantize, fixed_convert}
use poly_meridian.Domain.{OrderStatus, Mode, TradeDecision}
use poly_meridian.Domain
use poly_meridian.Execution.Fees.{default_fees}
use poly_meridian.Execution.Live.{
  LiveExecutor, key_of, Cancellation, reply, cancel_failed, Posted, posted, order_of, with_status,
  begin_submit, finish_submit, cancel, cancel_all_open_orders, listed, reconcile, order_update,
  trade, value, apply_user_ws_event,
}
use poly_meridian.Execution.Live.Sweep.{cancel_all_live, closed, lets_go, closable}
use poly_meridian.Execution.Live.Events.{
  Trade, Known, Traded, apply_trades, apply_trades-Traded, update_trade_doubles,
}
use poly_meridian.Execution.Live.Flight.{submit_in_flight}
use poly_meridian.Execution.Live.Reconcile.{reconcile_settles, settled}
use poly_meridian.Execution.Router.{route, submit_both, partner_of}
use poly_meridian.Execution.Router.Paper.{paper}
use poly_meridian.Execution.Contract.{
  IsLawful, live, live-IsLawful, paper-IsLawful, route-KeptOrCancelled, KeptOrCancelled,
}
use poly_meridian.Tests.{trade as decision, executor}
use poly_meridian.Tests.Trading.{new_id, paired_trade}

abbrev resting : String → Domain.Order ℤ
resting id = order_of id Mode.live_normal OrderStatus.live decision

-- Two live orders that the venue knows, and a filled one.
abbrev live_executor : LiveExecutor ℤ ℤ
live_executor = record {
  mode = Mode.live_normal;
  fees = default_fees;
  us_mode = false;
  has_on_fill = true;
  token_category = [];
  orders =
      ("a", resting "a")
      ∷ ("b", resting "b")
      ∷ ("c", record (resting "c") { status = OrderStatus.filled })
      ∷ [];
  venue_id = ("a", "v1") ∷ ("b", "v2") ∷ [];
  reported = [];
}

-- The venue cancels one order and raises on the other.
abbrev venue : String → Cancellation
venue v = elim (v == "v1") [ true ↦ reply true "canceled" | false ↦ cancel_failed ]

cancel_all_live_example :
    let (n, y) = cancel_all_open_orders venue live_executor in
    (get "a" y.orders
      ≡ closed (lets_go venue (get "a" live_executor.venue_id)) (get "a" live_executor.orders))
    × (n ≡ count (closable venue live_executor.venue_id) live_executor.orders)
cancel_all_live_example = cancel_all_live venue live_executor "a" (refl, (refl, (refl, tt)))

reconcile_settles_example :
    let y = reconcile 9 (listed (some "v2" ∷ [])) live_executor in
    (get "a" y.orders
      ≡ settled 9 (some "v2" ∷ []) (get "a" live_executor.venue_id) (get "a" live_executor.orders))
    × (y.reported ≡ live_executor.reported)
reconcile_settles_example =
    reconcile_settles 9 (some "v2" ∷ []) live_executor "a" (refl, (refl, tt))

abbrev bought : ℤ → Trade ℤ
bought q = record { at = 5; price = pos 4200; size = q; fee = pos 10 }

known : Known {F = ℤ} "v1" "a" live_executor (resting "a")
unfolding key_of
known = record { named = refl; mapped = refl; stored = refl }

apply_trades-Traded_example :
    Traded
      (bought (pos 50000) ∷ bought (pos 100000) ∷ [])
      "a"
      live_executor
      (apply_trades "v1" (bought (pos 50000) ∷ bought (pos 100000) ∷ []) live_executor)
      (resting "a")
apply_trades-Traded_example =
    apply_trades-Traded (bought (pos 50000) ∷ bought (pos 100000) ∷ []) "v1" "a" live_executor
      (resting "a") known

update_trade_doubles_example :
    let y =
      apply_user_ws_event 6
        (some "v1")
        (trade (value (pos 4200)) (value (pos 50000)) (value (pos 10)))
        (apply_user_ws_event 5
          (some "v1")
          (order_update (some OrderStatus.partial) (value (pos 50000)))
          live_executor) in
    (p : Domain.Order ℤ) × (get "a" y.orders ≡ some p) × (p.filled_size ≡ pos 100000)
update_trade_doubles_example =
    update_trade_doubles 5 6 "v1" "a" (some OrderStatus.partial) (pos 4200) (pos 50000) (pos 10)
      live_executor (resting "a") known

abbrev post : TradeDecision ℤ → Posted
post d = posted (("orderID", "v9") ∷ [])

abbrev live_id : LiveExecutor ℤ ℤ → String
live_id x = "d"

live-IsLawful_example : IsLawful (live {F = ℤ} post venue live_id)
live-IsLawful_example = live-IsLawful post venue live_id

paper-IsLawful_example : IsLawful (paper new_id 0)
paper-IsLawful_example = paper-IsLawful new_id 0

route-KeptOrCancelled_example :
    let ex = paper new_id 0 in
    KeptOrCancelled
      (ex.order_now "a"
        (submit_both ex true paired_trade (partner_of "no" paired_trade) executor).2)
      (ex.order_now "a" (route ex true paired_trade executor).1)
route-KeptOrCancelled_example =
    route-KeptOrCancelled (paper new_id 0) (paper-IsLawful new_id 0) true "no" paired_trade executor
      "a" refl

submit_in_flight_example :
    let o = order_of "d" Mode.live_normal OrderStatus.pending decision in
    let (ok, y) = cancel venue "d" (begin_submit "d" decision live_executor) in
    let (p, z) =
      finish_submit (posted (("orderID", "v9") ∷ [])) "d" (with_status OrderStatus.cancelled o) y in
    (ok ≡ true)
    × (get "d" y.orders ≡ some (with_status OrderStatus.cancelled o))
    × (get "d" z.orders ≡ some p)
    × (p.status ≡ OrderStatus.live)
submit_in_flight_example =
    submit_in_flight venue (("orderID", "v9") ∷ []) "d" decision live_executor refl
