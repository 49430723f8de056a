-- ===== src/Execution/Router.antt =====
-- src/poly_meridian/execution/order_router.py: one leg, or two legs submitted together.
-- The executor is an interface (src/poly_meridian/execution/base.py): a submission ends with an
-- order or raises, and `order_now` reads the shared order object again. `asyncio.gather` runs the
-- two submissions in either order; each holds the executor's lock, so they do not overlap.
use poly_meridian.Prelude.{
  ◌≡◌, refl, Bool, true, false, not, ◌&&◌, Option, none, some, String, if◌then◌else◌, get_or,
}
use poly_meridian.Domain.{OrderStatus, Side, TradeDecision}
use poly_meridian.Domain
pub mod Legs
pub mod Paper
pub mod Pair

pub data Outcome (D : Type 0) : Type 0 where
  accepted : Domain.Order D → Outcome D
  raised : Outcome D

pub record Executor (E D : Type 0) : Type 0 where
  pub submit : TradeDecision D → E → Outcome D × E
  pub cancel : String → E → E
  pub order_now : String → E → Option (Domain.Order D)

-- `isinstance(leg, Order) and leg.status not in (REJECTED, CANCELLED)`
abbrev pub is_good_status : OrderStatus → Bool
is_good_status OrderStatus.rejected = false
is_good_status OrderStatus.cancelled = false
is_good_status _ = true

module _ {D : Type 0} where
  abbrev pub leg_ok : Outcome D → Bool
  leg_ok (accepted o) = is_good_status o.status
  leg_ok raised = false

  -- The second leg: the partner token at its own price, with the partner fields cleared.
  unfoldable pub partner_of : String → TradeDecision D → TradeDecision D
  partner_of token d = record d {
    token_id = token;
    side = get_or d.paired_side Side.buy;
    price = d.paired_price;
    paired_token = none;
    paired_price = none;
    paired_side = none;
  }

module _ {E D : Type 0} (ex : Executor E D) where
  -- Both submissions, the primary's first or second.
  unfoldable pub submit_both :
      Bool → TradeDecision D → TradeDecision D → E → Outcome D × Outcome D × E
  submit_both true d partner e =
      let (a, mid_state) = ex.submit d e in
      let (b, sent) = ex.submit partner mid_state in (a, b, sent)
  submit_both false d partner e =
      let (b, mid_state) = ex.submit partner e in
      let (a, sent) = ex.submit d mid_state in (a, b, sent)

  abbrev pub cancel_leg : Outcome D → E → E
  cancel_leg (accepted o) e = ex.cancel o.order_id e
  cancel_leg raised e = e

  -- The unwinding of an asymmetric outcome.
  unfoldable pub unwind : Outcome D → Outcome D → E → E
  unwind primary partner e =
      let first : E = if leg_ok primary && not (leg_ok partner) then cancel_leg primary e else e in
      if leg_ok partner && not (leg_ok primary) then cancel_leg partner first else first

  -- The primary's order object as it is after the unwinding.
  abbrev pub reread : Outcome D → E → Outcome D
  reread (accepted o) e = accepted (get_or (ex.order_now o.order_id e) o)
  reread raised e = raised

  unfoldable pub route_pair : Bool → String → TradeDecision D → E → Outcome D × E
  unfolding submit_both unwind partner_of
  route_pair first token d e =
      let (a, b, e') = submit_both first d (partner_of token d) e in
      if leg_ok a && leg_ok b then (a, e') else (reread a (unwind a b e'), unwind a b e')

  unfoldable pub route : Bool → TradeDecision D → E → Outcome D × E
  unfolding route_pair
  route first d e = elim d.paired_token [
    | none ↦ ex.submit d e
    | some token ↦ route_pair first token d e
  ]
