-- ===== src/Execution/Router/Legs.antt =====
-- OrderRouter.route on a pair: the legs, the unwinding and the result.
use poly_meridian.Prelude.{◌≡◌, Bool, true, false, ◌&&◌, some, String, if◌then◌else◌, arith}
use poly_meridian.Domain.{OrderStatus, Side, TradeDecision, is_final}
use poly_meridian.Domain
use poly_meridian.Execution.Router.{
  accepted, Executor, leg_ok, partner_of, submit_both, cancel_leg, unwind, reread, route,
}

module _ {E D : Type 0} (ex : Executor E D) where
  -- A routed pair submits both legs. When both or neither was accepted nothing is cancelled, and
  -- otherwise the accepted leg is; unless both were accepted, the caller sees the primary as it is
  -- after that.
  pub route_unwinds :
      (first : Bool) (token : String) (d : TradeDecision D) (e : E)
      → d.paired_token ≡ some token
      → let (a, b, sent) = submit_both ex first d (partner_of token d) e in
        let e' = (route ex first d e).1 in
        (e' ≡ (
          if leg_ok a
          then (if leg_ok b then sent else cancel_leg ex a sent)
          else (if leg_ok b then cancel_leg ex b sent else sent)))
        × ((route ex first d e).0 ≡ (if leg_ok a && leg_ok b then a else reread ex a e'))
  unfolding route unwind
  route_unwinds first token d e paired = ground arith

  -- When cancelling leaves a final order alone, a pair whose primary leg is filled, and is still
  -- known as such to the executor, and whose partner is not accepted ends with the fill in place,
  -- and the caller is given the filled order.
  pub route_unhedged :
      (first : Bool) (token : String) (d : TradeDecision D) (e : E) (o : Domain.Order D)
      → ((x : E) (p : Domain.Order D)
          → ex.order_now p.order_id x ≡ some p
          → is_final p.status ≡ true
          → ex.cancel p.order_id x ≡ x)
      → d.paired_token ≡ some token
      → (submit_both ex first d (partner_of token d) e).0 ≡ accepted o
      → o.status ≡ OrderStatus.filled
      → leg_ok (submit_both ex first d (partner_of token d) e).1 ≡ false
      → ex.order_now o.order_id (submit_both ex first d (partner_of token d) e).2 ≡ some o
      → route ex first d e ≡ (accepted o, (submit_both ex first d (partner_of token d) e).2)
  unfolding route unwind
  route_unhedged first token d e o final_stays paired is whole failed known =
      let stays =
        final_stays (submit_both ex first d (partner_of token d) e).2 o known (ground arith) in
      ground (arith, stays)
