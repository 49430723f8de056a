-- ===== src/Risk/Kelly/Bounds.antt =====
-- Bounds of `sized_kelly`.
use poly_meridian.Prelude.{◌≡◌, true, arith, if◌then◌else◌}
use poly_meridian.Num.{Num, Convert, Quantize, ◌-◌, ◌*◌, ◌/◌, ◌≤?◌, lit, min}
use poly_meridian.Num.Order.{le_refl, le_max_left, max-le, min_le_right}
use poly_meridian.Risk.Kelly.{kelly_fraction, sized_kelly}

module _ {F D : Type 0} ⦃nf : Num F⦄ ⦃nd : Num D⦄ ⦃qd : Quantize D⦄ ⦃cv : Convert F D⦄ where
  -- With a hard cap that is not negative, the fraction used is between zero and the cap, the raw
  -- Kelly fraction is not negative, and it is zero whenever the probability is at most the price.
  pub sized_kelly_bounds :
      (p market_price : F) (bankroll : D) (multiplier hard_cap : F)
      → (lit 0 0 ≤? hard_cap) ≡ true
      → let r = sized_kelly p market_price bankroll multiplier hard_cap in
        ((lit 0 0 ≤? r.f_used) ≡ true)
        × ((r.f_used ≤? hard_cap) ≡ true)
        × ((lit 0 0 ≤? r.f_star) ≡ true)
        × ((if p ≤? market_price then r.f_star else lit 0 0) ≡ lit 0 0)
  unfolding sized_kelly
  sized_kelly_bounds p market_price bankroll multiplier hard_cap h =
      let f = kelly_fraction p market_price in
      let b = (lit 1 0 - market_price) / market_price in
      let raw = (b * p - (lit 1 0 - p)) / b in
      (
        le_max_left {A = F} (lit 0 0) (min (f * multiplier) hard_cap),
        max-le {A = F} (lit 0 0) (min (f * multiplier) hard_cap) hard_cap h
            (min_le_right {A = F} (f * multiplier) hard_cap),
        ground (arith, le_max_left {A = F} (lit 0 0) raw, le_refl {A = F} (lit 0 0)),
        ground arith,
      )
