-- ===== src/Backtest/Folds/Layout.antt =====
-- src/poly_meridian/backtest/walkforward.py: where the folds lie.
use poly_meridian.Prelude.{
  ℕ, zero, suc, ◌≡◌, refl, ap, ◌∙◌, ◌⊎◌, inl, inr, ◌<◌, ◌≤◌, false, Option, none, some, List, [],
  ◌∷◌, arith, leb, Bool-cases,
}
use mathlib.Core.Option
use native.Mathlib.Nat.{zero-mul}
use Prim.Native.Nat.{◌+◌, ◌*◌}
use poly_meridian.Backtest.Folds.{Fold, days, step_of, fold_from, folds_from, make_folds}

-- `n` folds from the `idx`-th on, each in its own place.
unfoldable pub laid : ℕ → ℕ → ℕ → ℕ → ℕ → ℕ → List Fold
laid first train test step idx zero = []
laid first train test step idx (suc n) =
    fold_from train test (first + idx * step) idx ∷ laid first train test step (suc idx) n

-- The folds are laid in their places until the next one would end after `end`.
unfoldable pub IsLaid : Option (List Fold) → ℕ → ℕ → ℕ → ℕ → ℕ → ℕ → Type 0
IsLaid folds end first train test step idx =
    (n : ℕ) × (folds ≡ some (laid first train test step idx n))
    × (end < (first + (idx + n) * step) + test)
    × ((n ≡ 0) ⊎ ((first + (idx + n) * step) + test ≤ end + step))

folds_from_goes :
    (fuel end train test step cursor idx : ℕ)
    → (cursor + test ≤ end)
    → folds_from (suc fuel) end train test step cursor idx
      ≡ Option.map
          (λ (rest : List Fold). fold_from train test cursor idx ∷ rest)
          (folds_from fuel end train test step (cursor + step) (suc idx))
unfolding folds_from
folds_from_goes fuel end train test step cursor idx fits = ground arith

last_end :
    (first step test idx n end : ℕ)
    → (n ≡ 0) ⊎ ((first + (suc idx + n) * step) + test ≤ end + step)
    → (first + idx * step) + test ≤ end
    → (first + (idx + suc n) * step) + test ≤ end + step
last_end first step test idx n end (inr last) fits = omega arith
last_end first step test idx n end (inl one) fits =
    let nothing : n * step ≡ 0 = ap (λ (k : ℕ). k * step) one ∙ zero-mul step in omega arith

folds_from-IsLaid :
    (fuel end first train test step idx cursor : ℕ)
    → 0 < step
    → 0 < fuel
    → suc end < fuel + cursor
    → cursor ≡ first + idx * step
    → IsLaid (folds_from fuel end train test step cursor idx) end first train test step idx
unfolding folds_from IsLaid laid
folds_from-IsLaid zero end first train test step idx cursor pos some_fuel enough at =
    absurd (omega arith)
folds_from-IsLaid (suc fuel) end first train test step idx cursor pos some_fuel enough at =
    elim (Bool-cases (leb (cursor + test) end)) [
      | inr over ↦ (0, ground arith, ground arith, inl refl)
      | inl fits ↦
          (let bound : cursor + test ≤ end = ground arith in
            let (n, is, past, last) =
              folds_from-IsLaid fuel end first train test step (suc idx) (cursor + step) pos
                (omega arith) (omega arith) (omega arith) in
            (
              suc n,
              folds_from_goes fuel end train test step cursor idx bound
                  ∙ ap (Option.map _) is
                  ∙ (ap
                      (λ (c : ℕ).
                        some (fold_from train test c idx ∷ laid first train test step (suc idx) n))
                      at),
              omega arith,
              inr (last_end first step test idx n end last (omega arith)),
            ))
    ]

-- With a positive step, `make_folds` returns within `end + 2` passes of its loop, and the folds are
-- laid every `step` from the first training window's end on: each tests right after it trains,
-- the last one ends at `end` or before it, and one more would end after it.
pub make_folds-IsLaid :
    (start end train_days test_days : ℕ) (step_days : Option ℕ)
    → 0 < step_of step_days test_days
    → (start < end)
    → IsLaid
        (make_folds (end + 2) start end train_days test_days step_days)
        end
        (start + days train_days)
        (days train_days)
        (days test_days)
        (days (step_of step_days test_days))
        0
unfolding make_folds IsLaid laid
make_folds-IsLaid start end train_days test_days step_days pos later =
    rw (not_leb, make_folds)
      (folds_from-IsLaid (end + 2) end (start + days train_days) (days train_days) (days test_days)
        (days (step_of step_days test_days)) 0 (start + days train_days) (omega arith) (omega arith)
        (omega arith) (omega arith))
  where
    not_leb : leb end start ≡ false
    not_leb = ground arith

-- The loop of `make_folds` does not move with a step of zero days: from a window that fits, no
-- number of passes is enough.
pub folds_from_stuck :
    (fuel end train test cursor idx : ℕ)
    → cursor + test ≤ end
    → folds_from fuel end train test 0 cursor idx ≡ none
unfolding folds_from
folds_from_stuck zero end train test cursor idx fits = refl
folds_from_stuck (suc fuel) end train test cursor idx fits =
    folds_from_goes fuel end train test 0 cursor idx fits
    ∙ ap (Option.map _) (folds_from_stuck fuel end train test (cursor + 0) (suc idx) (omega arith))
