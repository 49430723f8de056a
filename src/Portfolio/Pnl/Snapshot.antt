-- ===== src/Portfolio/Pnl/Snapshot.antt =====
-- The figures of a snapshot: exposures, and the day's P&L that the kill switch reads.
use poly_meridian.Prelude.{
  ◌≡◌, refl, ap, ◌∙◌, false, none, List, [], ◌∷◌, map, String, get_or, arith, string_eq,
}
use poly_meridian.Prelude.Dict.{Dict, get, insert, values}
use poly_meridian.Num.{Num, Convert, Exact, ◌+◌, ◌<?◌, lit, neg, sum, sum_from}
use poly_meridian.Domain.{Datetime}
use poly_meridian.Risk.KillSwitch.{KillSwitch, observe_daily_pnl}
use poly_meridian.Portfolio.Ledger.{Ledger, PositionState, positions}
use poly_meridian.Portfolio.Pnl.{
  add_exposures, category_exposure_usd, total_exposure_usd, exposure_of, snapshot,
}

module _ {D : Type 0} ⦃nd : Num D⦄ (exact : Exact D) where
  sum_from-add : (a x : D) (ys : List D) → sum_from (a + x) ys ≡ sum_from a ys + x
  sum_from-add a x [] = refl
  sum_from-add a x (y ∷ ys) =
      ap (λ (s : D). sum_from s ys) (exact.add_swap a x y) ∙ sum_from-add (a + y) x ys

  sum_from-insert :
      (a x : D) (k : String) (d : Dict String D)
      → sum_from a (values (insert k (get_or (get k d) (lit 0 0) + x) d))
        ≡ sum_from a (values d) + x
  sum_from-insert a x k [] = ap (λ (s : D). a + s) (exact.add_zero x)
  sum_from-insert a x k ((j, v) ∷ d) = ground (
    arith,
    exact.add_assoc a v x,
    sum_from-add (a + v) x (values d),
    sum_from-insert (a + v) x k d,
  )

module _ {F D : Type 0} ⦃nd : Num D⦄ (exact : Exact D) where
  add_exposures-sum :
      (categories : Dict String String) (ps : List (PositionState F D)) (out : Dict String D)
      → sum (values (add_exposures categories ps out))
        ≡ sum_from (sum (values out)) (map exposure_of ps)
  unfolding add_exposures
  add_exposures-sum categories [] out = refl
  add_exposures-sum categories (p ∷ ps) out =
      let cat = get_or (get p.token_id categories) "uncategorized" in
      add_exposures-sum categories ps
        (insert cat (get_or (get cat out) (lit 0 0) + exposure_of p) out)
      ∙ ap (λ (s : D). sum_from s (map exposure_of ps))
          (sum_from-insert exact (lit 0 0) (exposure_of p) cat out)

  -- When sums of decimals are exact, the exposures by category add up to the total exposure,
  -- whatever the categories are.
  pub category_exposure-total :
      (categories : Dict String String) (l : Ledger F D)
      → sum (values (category_exposure_usd categories l)) ≡ total_exposure_usd l
  unfolding category_exposure_usd total_exposure_usd
  category_exposure-total categories l = add_exposures-sum categories (positions l) []

module _ {F D : Type 0} ⦃nf : Num F⦄ ⦃nd : Num D⦄ ⦃cv : Convert F D⦄ where
  -- A snapshot taken before the day's starting value is known leaves the kill switch as it is,
  -- when the switch's loss threshold, minus its trigger, is not positive.
  pub snapshot_no_day_start :
      (now : F) (k : KillSwitch F) (categories : Dict String String) (ts : Datetime)
      (l : Ledger F D)
      → (lit 0 0 <? neg k.config.daily_loss_trigger_pct) ≡ false
      → observe_daily_pnl now (snapshot categories none ts l).daily_pnl_pct k ≡ k
  unfolding observe_daily_pnl snapshot
  snapshot_no_day_start now k categories ts l h = ground arith
