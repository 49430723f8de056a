-- ===== src/Execution/Live/Flight.antt =====
-- LiveExecutor.submit and cancel, interleaved: a cancellation while the venue has not answered yet.
use poly_meridian.Prelude.{◌≡◌, true, none, some, String, arith, string_eq}
use poly_meridian.Prelude.Dict.{Dict, get, get-insert_self}
use poly_meridian.Num.{Num}
use poly_meridian.Domain.{OrderStatus, TradeDecision}
use poly_meridian.Execution.Live.{
  LiveExecutor, Cancellation, posted, order_of, with_status, begin_submit, finish_submit, cancel,
  cancel_known,
}

module _ {F D : Type 0} ⦃nd : Num D⦄ where
  -- An order whose id the venue has not been told of yet can be cancelled while its submission
  -- waits for the venue: the cancellation answers that it succeeded and the order is cancelled,
  -- and when the venue then accepts the order, it is live.
  pub submit_in_flight :
      (venue : String → Cancellation) (answer : Dict String String) (id : String)
      (d : TradeDecision D) (x : LiveExecutor F D)
      → get id x.venue_id ≡ none
      → let o = order_of id x.mode OrderStatus.pending d in
        let (ok, y) = cancel venue id (begin_submit id d x) in
        let (p, z) = finish_submit (posted answer) id (with_status OrderStatus.cancelled o) y in
        (ok ≡ true)
        × (get id y.orders ≡ some (with_status OrderStatus.cancelled o))
        × (get id z.orders ≡ some p)
        × (p.status ≡ OrderStatus.live)
  unfolding cancel cancel_known finish_submit
  submit_in_flight venue answer id d x unknown =
      let o = order_of id x.mode OrderStatus.pending d in
      let gone = with_status OrderStatus.cancelled o in
      let stored = get-insert_self id o x.orders in
      ground (
        arith,
        stored,
        get-insert_self id gone (begin_submit id d x).orders,
        get-insert_self id (with_status OrderStatus.live gone)
            (cancel venue id (begin_submit id d x)).1.orders,
      )
