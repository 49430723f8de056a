-- ===== src/Execution/Fees.antt =====
-- src/poly_meridian/execution/fees.py: the fee schedule.
pub mod Bounds
use poly_meridian.Prelude.{
  ◌≡◌, refl, Bool, true, false, Option, none, some, List, [], ◌∷◌, String, if◌then◌else◌, get_or,
  string_eq,
}
use poly_meridian.Prelude.Dict.{Dict, get}
use poly_meridian.Num.{
  Num, Convert, Quantize, quantize, to_decimal, ◌-◌, ◌*◌, ◌/◌, lit, neg, abs, min, max,
}

pub record FeeSchedule (F : Type 0) : Type 0 where
  pub taker_bps_by_category : Dict String F
  pub maker_bps : F
  pub us_taker_bps : F
  pub us_maker_rebate_bps : F

module _ {F : Type 0} ⦃nf : Num F⦄ where
  abbrev pub default_fees : FeeSchedule F
  default_fees = record {
    taker_bps_by_category =
        ("Crypto", lit 180 0)
        ∷ ("Mentions", lit 156 0)
        ∷ ("Economics", lit 150 0)
        ∷ ("Culture", lit 125 0)
        ∷ ("Weather", lit 125 0)
        ∷ ("Finance", lit 100 0)
        ∷ ("Politics", lit 100 0)
        ∷ ("Tech", lit 100 0)
        ∷ ("Sports", lit 75 0)
        ∷ ("Geopolitics", lit 0 0)
        ∷ ("Uncategorized", lit 150 0)
        ∷ [];
    maker_bps = lit 0 0;
    us_taker_bps = lit 30 0;
    us_maker_rebate_bps = lit 20 0;
  }

  unfoldable pub taker_bps : Option String → FeeSchedule F → F
  taker_bps none s = get_or (get "Uncategorized" s.taker_bps_by_category) (lit 150 0)
  taker_bps (some c) s = get_or (get c s.taker_bps_by_category) (lit 150 0)

  -- `max(0.30, min(1.0, 1.0 - 1.4 * |price - 0.5|))`
  unfoldable pub price_scale : F → F
  price_scale price = max (lit 30 2) (min (lit 1 0) (lit 1 0 - lit 14 1 * abs (price - lit 5 1)))

  unfoldable pub fee_bps_for_price : Option String → F → FeeSchedule F → F
  unfolding taker_bps price_scale
  fee_bps_for_price category price s = taker_bps category s * price_scale price

  -- The rate that `estimate_fee_usd` applies.
  unfoldable pub fee_bps : Option String → Bool → Option F → Bool → FeeSchedule F → F
  unfolding fee_bps_for_price
  fee_bps category true price us_mode s =
      if us_mode then neg s.us_maker_rebate_bps else neg s.maker_bps
  fee_bps category false price us_mode s =
      if us_mode
      then s.us_taker_bps
      else elim price [ some p ↦ fee_bps_for_price category p s | none ↦ taker_bps category s ]

module _ {F D : Type 0} ⦃nf : Num F⦄ ⦃nd : Num D⦄ ⦃qd : Quantize D⦄ ⦃cv : Convert F D⦄ where
  unfoldable pub estimate_fee_usd : D → Option String → Bool → Option F → Bool → FeeSchedule F → D
  unfolding fee_bps
  estimate_fee_usd notional_usd category is_maker price us_mode s =
      quantize 4
        (notional_usd * to_decimal (fee_bps category is_maker price us_mode s / lit 10000 0))
