-- ===== src/Backtest/Folds.antt =====
-- src/poly_meridian/backtest/walkforward.py: the folds of a walk-forward validation. A moment is
-- its count of microseconds, and the loop of `make_folds` runs on fuel.
use poly_meridian.Prelude.{
  ℕ, zero, suc, Bool, true, false, Option, none, some, List, [], ◌∷◌, ◌&&◌, filter, leb, ltb,
}
use Prim.Native.Nat.{◌+◌, ◌*◌, ◌-◌}
use mathlib.Core.Option
use poly_meridian.Backtest.Metrics.{PerformanceMetrics}
pub mod Layout

pub record Fold : Type 0 where
  pub fold_index : ℕ
  pub train_start : ℕ
  pub train_end : ℕ
  pub test_start : ℕ
  pub test_end : ℕ

-- `timedelta(days=n)`.
abbrev pub days : ℕ → ℕ
days n = n * 86400000000

-- `step_days or test_days`.
abbrev pub step_of : Option ℕ → ℕ → ℕ
step_of none test_days = test_days
step_of (some zero) test_days = test_days
step_of (some (suc n)) test_days = suc n

abbrev pub fold_from : ℕ → ℕ → ℕ → ℕ → Fold
fold_from train test cursor idx = record {
  fold_index = idx;
  train_start = cursor - train;
  train_end = cursor;
  test_start = cursor;
  test_end = cursor + test;
}

-- The loop of `make_folds`; none is a loop that the fuel does not finish.
unfoldable pub folds_from : ℕ → ℕ → ℕ → ℕ → ℕ → ℕ → ℕ → Option (List Fold)
folds_from zero end train test step cursor idx = none
folds_from (suc fuel) end train test step cursor idx = elim (leb (cursor + test) end) [
  | false ↦ some []
  | true ↦
      (Option.map (λ (rest : List Fold). fold_from train test cursor idx ∷ rest)
        (folds_from fuel end train test step (cursor + step) (suc idx)))
]

unfoldable pub make_folds : ℕ → ℕ → ℕ → ℕ → ℕ → Option ℕ → Option (List Fold)
make_folds fuel start end train_days test_days step_days = elim (leb end start) [
  | true ↦ some []
  | false ↦
      folds_from fuel end (days train_days) (days test_days) (days (step_of step_days test_days))
        (start + days train_days) 0
]

pub record Dataset (M T N S : Type 0) : Type 0 where
  pub markets : M
  pub ticks : List T
  pub news_signals : List N
  pub smart_money_state : S

-- `start <= ts < end`.
abbrev pub within : ℕ → ℕ → ℕ → Bool
within start end ts = leb start ts && ltb ts end

abbrev pub or_start : ℕ → Option ℕ → ℕ
or_start start none = start
or_start start (some ts) = ts

-- A tick's time, and that of a news signal where it has one.
unfoldable pub slice_dataset :
    {M T N S : Type 0} → (T → ℕ) → (N → Option ℕ) → Dataset M T N S → ℕ → ℕ → Dataset M T N S
slice_dataset time_of news_ts dataset start end = record dataset {
  ticks = filter (λ (t : _). within start end (time_of t)) dataset.ticks;
  news_signals =
      filter (λ (s : _). within start end (or_start start (news_ts s))) dataset.news_signals;
}
