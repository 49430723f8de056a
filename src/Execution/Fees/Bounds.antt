-- ===== src/Execution/Fees/Bounds.antt =====
-- The price curve of FeeSchedule.fee_bps_for_price.
use poly_meridian.Prelude.{◌≡◌, true, string_eq}
use poly_meridian.Num.{Num, ◌-◌, ◌*◌, ◌≤?◌, lit, min, abs}
use poly_meridian.Num.Order.{le_max_left, max-le, min_le_left}
use poly_meridian.Execution.Fees.{price_scale}

module _ {F : Type 0} ⦃nf : Num F⦄ where
  -- Given that 0.30 is at most 1.0, the price curve stays between the two at every price.
  pub price_scale_bounds :
      (price : F)
      → (let floor : F = lit 30 2 in floor ≤? lit 1 0) ≡ true
      → ((lit 30 2 ≤? price_scale price) ≡ true) × ((price_scale price ≤? lit 1 0) ≡ true)
  unfolding price_scale
  price_scale_bounds price h =
      let line : F = min (lit 1 0) (lit 1 0 - lit 14 1 * abs (price - lit 5 1)) in
      (
        le_max_left {A = F} (lit 30 2) line,
        max-le {A = F} (lit 30 2) line (lit 1 0) h
            (min_le_left {A = F} (lit 1 0) (lit 1 0 - lit 14 1 * abs (price - lit 5 1))),
      )
