-- ===== src/Tests/State.antt =====
-- The book, the kill switch and the ledger on concrete messages, triggers and fills.
use poly_meridian.Prelude.{
  zero, suc, ℕ, ◌≡◌, refl, Bool, true, false, some, List, [], ◌∷◌, All, count, string_eq,
}
use poly_meridian.Prelude.Dict.{get}
use poly_meridian.Num.{◌≤?◌, ◌<?◌, num_eq}
use poly_meridian.Num.Fixed.{ℤ, pos, negsuc, fixed, fixed_quantize, fixed_convert}
use poly_meridian.Domain.{Side}
use poly_meridian.Book.{apply_snapshot, apply_price_change, best_bid, best_ask}
use poly_meridian.Book.Levels.{IsPositive, snapshot_changes-IsPositive, best_prices}
use poly_meridian.Risk.KillSwitch.{KillSwitch, new, default_config, disengage, rate_of}
use poly_meridian.Risk.KillSwitch.{KillReason}
use poly_meridian.Risk.KillSwitch.Latch.{
  daily_pnl, api_call, run, SameEngagement, IsConsistent, run-SameEngagement, run-IsConsistent,
}
use poly_meridian.Risk.KillSwitch.Window.{Outcome, is_failure, observe_calls, observe_calls_window}
use poly_meridian.Portfolio.Ledger.{Fill, new_ledger}
use poly_meridian.Portfolio.Ledger.History.{Op, fill_of, mark_of, Agrees, run-Agrees}
use poly_meridian.Portfolio.Ledger.History
use poly_meridian.Execution.Paper.{order_of}
use poly_meridian.Tests.{book, trade}

snapshot_changes-IsPositive_example : IsPositive (
    apply_price_change
      (record { price = pos 3800; size = pos 0; is_bid = true }
        ∷ record { price = pos 4300; size = pos 50000; is_bid = false }
        ∷ [])
      (apply_snapshot (record { price = pos 3800; size = pos 10000 } ∷ []) [] book))
snapshot_changes-IsPositive_example =
    snapshot_changes-IsPositive (record { price = pos 3800; size = pos 10000 } ∷ []) []
      (record { price = pos 3800; size = pos 0; is_bid = true }
        ∷ record { price = pos 4300; size = pos 50000; is_bid = false }
        ∷ [])
      book (refl, (refl, tt))

best_prices_example :
    ((get (pos 3900) book.bids ≡ some (pos 100000))
      × All (λ (e : ℤ × ℤ). (e.0 ≤? pos 3900) ≡ true) book.bids)
    × (get (pos 4100) book.asks ≡ some (pos 100000))
    × All (λ (e : ℤ × ℤ). (pos 4100 ≤? e.0) ≡ true) book.asks
unfolding best_bid best_ask
best_prices_example = best_prices book (pos 3900, pos 100000) (pos 4100, pos 100000) refl refl

abbrev stopped : KillSwitch ℤ
stopped = record (new {F = ℤ} default_config) {
  engaged = true;
  reason = some KillReason.manual;
  engaged_at = some (pos 10000);
}

run-SameEngagement_example :
    SameEngagement stopped
      (run (daily_pnl (pos 20000) (negsuc 999) ∷ api_call (pos 30000) false ∷ []) stopped)
run-SameEngagement_example =
    run-SameEngagement (daily_pnl (pos 20000) (negsuc 999) ∷ api_call (pos 30000) false ∷ [])
      stopped refl

run-IsConsistent_example :
    IsConsistent (
      run
        (api_call (pos 0) false ∷ daily_pnl (pos 20000) (negsuc 999) ∷ [])
        (new {F = ℤ} default_config))
    × IsConsistent
        (disengage (
          run
            (api_call (pos 0) false ∷ daily_pnl (pos 20000) (negsuc 999) ∷ [])
            (new {F = ℤ} default_config))).1
run-IsConsistent_example =
    run-IsConsistent default_config
      (api_call (pos 0) false ∷ daily_pnl (pos 20000) (negsuc 999) ∷ [])

abbrev calls_of : ℕ → Bool → List (Outcome ℤ) → List (Outcome ℤ)
calls_of zero ok cs = cs
calls_of (suc n) ok cs = (pos 0, ok) ∷ calls_of n ok cs

-- Eighteen successes and two failures.
abbrev twenty_calls : List (Outcome ℤ)
twenty_calls = calls_of 18 true (calls_of 2 false [])

observe_calls_window_example :
    let j = observe_calls twenty_calls (new {F = ℤ} default_config) in
    (j.engaged ≡ (pos 500 <? rate_of (count is_failure twenty_calls) 20))
    × (j.api_call_count ≡ 0)
    × (j.api_error_count ≡ 0)
observe_calls_window_example =
    observe_calls_window twenty_calls (new {F = ℤ} default_config) refl refl refl refl

-- Ten units bought at 0.40 for a fee of 0.01.
abbrev bought : Fill ℤ
bought = record {
  ts = 0;
  order = order_of "a" trade;
  filled_qty = pos 100000;
  fill_price = pos 4000;
  fee = pos 100;
}

-- Four of them sold at 0.50.
abbrev sold : Fill ℤ
sold = record {
  ts = 1000000;
  order = order_of "b" (record trade { side = Side.sell; strategy = "exit" });
  filled_qty = pos 40000;
  fill_price = pos 5000;
  fee = pos 100;
}

abbrev operations : List (Op ℤ)
operations = fill_of bought ∷ mark_of "yes" (pos 4500) 500000 ∷ fill_of sold ∷ []

run-Agrees_example : Agrees {F = ℤ} (History.run operations (new_ledger (pos 10000000)))
run-Agrees_example = run-Agrees (pos 10000000) operations
