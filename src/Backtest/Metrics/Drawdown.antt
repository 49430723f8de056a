-- ===== src/Backtest/Metrics/Drawdown.antt =====
-- src/poly_meridian/backtest/metrics.py: the maximum drawdown, against the declines of all points.
use poly_meridian.Prelude.{
  ◌≡◌, refl, sym, ap, ◌∙◌, Bool, true, false, List, [], ◌∷◌, ◌++◌, arith, if◌then◌else◌,
}
use poly_meridian.Num.{Num, ◌/◌, ◌<?◌, ◌≤?◌, lit, max}
use poly_meridian.Num.Order.{le_max_left, le_max_right, le_antisymm, le_trans, max-le}
use poly_meridian.Book.{max_from}
use poly_meridian.Backtest.Metrics.{drawdown_from, max_drawdown}

module _ {F : Type 0} ⦃nf : Num F⦄ where
  -- How far a point lies under a top, as a share of it, where the top is positive.
  abbrev pub decline : F → F → List F
  decline top v = if lit 0 0 <? top then nf.sub top v / top ∷ [] else []

  -- The declines of the points, each from all the points before it, the latest of them first:
  -- the top is the highest of the point and those before it.
  unfoldable pub declines : List F → List F → List F
  declines before [] = []
  declines before (v ∷ vs) = decline (max_from v before) v ++ declines (v ∷ before) vs

  max_comm : (a b : F) → max a b ≡ max b a
  max_comm a b = ground (arith, nf.lt_total a b, nf.lt_trans a b a, nf.lt_irrefl a)

  under_left : (a b c : F) → (a ≤? b) ≡ true → (a ≤? max b c) ≡ true
  under_left a b c h = le_trans {A = F} a b (max b c) h (le_max_left {A = F} b c)

  under_right : (a b c : F) → (a ≤? c) ≡ true → (a ≤? max b c) ≡ true
  under_right a b c h = le_trans {A = F} a c (max b c) h (le_max_right {A = F} b c)

  max_assoc : (a b c : F) → max (max a b) c ≡ max a (max b c)
  max_assoc a b c =
      le_antisymm {A = F} (max (max a b) c) (max a (max b c))
        (max-le {A = F} (max a b) c (max a (max b c))
          (max-le {A = F} a b (max a (max b c)) (le_max_left {A = F} a (max b c))
            (under_right b a (max b c) (le_max_left {A = F} b c)))
          (under_right c a (max b c) (le_max_right {A = F} b c)))
        (max-le {A = F} a (max b c) (max (max a b) c)
          (under_left a (max a b) c (le_max_left {A = F} a b))
          (max-le {A = F} b c (max (max a b) c)
            (under_left b (max a b) c (le_max_right {A = F} a b))
            (le_max_right {A = F} (max a b) c)))

  max_from-max : (a b : F) (xs : List F) → max_from (max a b) xs ≡ max a (max_from b xs)
  max_from-max a b [] = refl
  max_from-max a b (x ∷ xs) =
      ap (λ (m : F). max_from m xs) (max_assoc a b x) ∙ max_from-max a (max b x) xs

  -- The loop's peak is the highest point so far, whatever the order it is looked for in.
  peak_lem : (x v : F) (xs : List F) → max_from v (x ∷ xs) ≡ max (max_from x xs) v
  peak_lem x v xs = max_from-max v x xs ∙ max_comm v (max_from x xs)

  decline_lem :
      (worst top v : F) (rest : List F)
      → max_from (if lit 0 0 <? top then max worst (nf.sub top v / top) else worst) rest
        ≡ max_from worst (decline top v ++ rest)
  decline_lem worst top v rest = go (lit 0 0 <? top)
    where
      go :
          (b : Bool)
          → max_from (if b then max worst (nf.sub top v / top) else worst) rest
            ≡ max_from worst ((if b then nf.sub top v / top ∷ [] else []) ++ rest)
      go true = refl
      go false = refl

  drawdown_from-declines :
      (x : F) (xs vs : List F) (worst peak : F)
      → peak ≡ max_from x xs
      → drawdown_from peak worst vs ≡ max_from worst (declines (x ∷ xs) vs)
  unfolding drawdown_from declines
  drawdown_from-declines x xs [] worst peak at = refl
  drawdown_from-declines x xs (v ∷ vs) worst peak at =
      let top = ap (λ (p : F). max p v) at ∙ sym (peak_lem x v xs) in
      drawdown_from-declines v (x ∷ xs) vs _ (max peak v) top
      ∙ decline_lem worst (max peak v) v (declines (v ∷ x ∷ xs) vs)
      ∙ ap (λ (t : F). max_from worst (decline t v ++ declines (v ∷ x ∷ xs) vs)) top

  -- The maximum drawdown, computed in one pass with a running peak, is the largest of zero and the
  -- declines of the points after the first, each measured from the highest of all points up to it.
  pub max_drawdown-declines :
      (x : F) (xs : List F) → max_drawdown (x ∷ xs) ≡ max_from (lit 0 0) (declines (x ∷ []) xs)
  unfolding max_drawdown
  max_drawdown-declines x xs = drawdown_from-declines x [] xs (lit 0 0) x refl
