-- ===== src/Execution/Router/Pair.antt =====
-- OrderRouter.route on a pair: what becomes of a leg that is accepted alone.
use poly_meridian.Prelude.{◌≡◌, ◌⊎◌, inl, inr, Bool, true, false, some, String, get_or, arith}
use poly_meridian.Domain.{TradeDecision, Side, is_open}
use poly_meridian.Domain
use poly_meridian.Execution.Contract.{IsLawful, Asked}
use poly_meridian.Execution.Router.{
  Executor, Outcome, accepted, leg_ok, partner_of, submit_both, route,
}
use poly_meridian.Execution.Router.Legs.{route_unwinds}

module _ {D : Type 0} where
  -- One leg was accepted and the other was not.
  abbrev pub IsAlone : Outcome D → Outcome D → Domain.Order D → Type 0
  IsAlone leg other o = (leg ≡ accepted o) × (leg_ok leg ≡ true) × (leg_ok other ≡ false)

module _ {E D : Type 0} (ex : Executor E D) (lawful : IsLawful ex) where
  submit_both-Asked :
      (first : Bool) (d partner : TradeDecision D) (e : E) (o : Domain.Order D)
      → (((submit_both ex first d partner e).0 ≡ accepted o) → Asked d o)
        × (((submit_both ex first d partner e).1 ≡ accepted o) → Asked partner o)
  unfolding submit_both
  submit_both-Asked true d partner e o =
      (lawful.asked d e o, lawful.asked partner (ex.submit d e).1 o)
  submit_both-Asked false d partner e o =
      (lawful.asked d (ex.submit partner e).1 o, lawful.asked partner e o)

  -- On a lawful executor whose cancellations leave no order open, the leg of a pair that is accepted
  -- alone is not open when the router returns. It has the size of the trade, and either the trade's
  -- token, side and price or the partner's.
  pub route_closes :
      (first : Bool) (token : String) (d : TradeDecision D) (e : E) (o p : Domain.Order D)
      → ((id : String) (x : E) (q : Domain.Order D)
          → ex.order_now id (ex.cancel id x) ≡ some q
          → is_open q.status ≡ false)
      → d.paired_token ≡ some token
      → (let (a, b, _) = submit_both ex first d (partner_of token d) e in
          IsAlone a b o ⊎ IsAlone b a o)
      → ex.order_now o.order_id (route ex first d e).1 ≡ some p
      → (is_open p.status ≡ false)
        × (o.size ≡ d.size)
        × ((o.token_id ≡ d.token_id) × (o.side ≡ d.side) × (o.price ≡ d.price)
            ⊎ (o.token_id ≡ token)
              × (o.side ≡ get_or d.paired_side Side.buy)
              × (o.price ≡ d.paired_price))
  unfolding partner_of
  route_closes first token d e o p closes paired alone known =
      let (a, b, sent) = submit_both ex first d (partner_of token d) e in
      let left = (route_unwinds ex first token d e paired).0 in
      let (of_primary, of_partner) = submit_both-Asked first d (partner_of token d) e o in
      elim alone [
        | inl (is, ok, failed) ↦
            (let asked = of_primary is in
              (
                closes o.order_id sent p (ground (arith, left, known, is, ok, failed)),
                asked.same_size,
                inl (asked.same_token, asked.same_side, asked.same_price),
              ))
        | inr (is, ok, failed) ↦
            (let asked = of_partner is in
              (
                closes o.order_id sent p (ground (arith, left, known, is, ok, failed)),
                asked.same_size,
                inr (asked.same_token, asked.same_side, asked.same_price),
              ))
      ]
