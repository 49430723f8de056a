-- ===== src/Tests/Tick.antt =====
-- A tick on concrete data: one strategy that signals, over the paper executor.
use poly_meridian.Prelude.{◌≡◌, refl, true, false, Option, none, some, [], ◌∷◌, string_eq}
use poly_meridian.Num.Fixed.{ℤ, pos, fixed, fixed_quantize, fixed_convert}
use poly_meridian.Domain.{Market}
use poly_meridian.Portfolio.Ledger.{Ledger}
use poly_meridian.Portfolio.Ledger.History.{Agrees}
use poly_meridian.Pipeline.Tick.{Pipeline, Claim, emitted, tick}
use poly_meridian.Pipeline.Tick.Loss.{tick-kill_switch}
use poly_meridian.Pipeline.Tick.Log.{tick-Agrees}
use poly_meridian.Tests.{policy, book, executor, fixed_clock}
use poly_meridian.Tests.Signals.{helpers, aggregator, ledger, yes_signal}
use poly_meridian.Tests.Trading.{new_id}

abbrev pub market : Market ℤ
market = record {
  condition_id = "election";
  question = "Who wins?";
  category = some "Politics";
  sub_category = none;
  event_id = none;
  yes_token_id = "yes";
  no_token_id = "no";
  end_date_iso = none;
  active = true;
  closed = false;
  liquidity_usd = some (pos 500000000);
  volume_usd = none;
}

-- Nine tenths of the starting cash are gone.
abbrev losing : Ledger ℤ ℤ
losing = record ledger { cash = pos 1000000; positions_by_token = [] }

abbrev pipeline : Pipeline (ℤ × ℤ) ℤ ℤ
pipeline = record {
  books = ("yes", book) ∷ [];
  token_to_category = ("yes", "Politics") ∷ [];
  pairs = [];
  strategies = record { enabled = true; evaluate = λ m. emitted (some yes_signal) } ∷ [];
  aggregator = aggregator;
  ledger = losing;
  risk = policy;
  executor = executor;
}

abbrev no_claim : (ℤ × ℤ) → Option (Claim ℤ)
no_claim r = none

tick-kill_switch_example :
    (tick helpers no_claim new_id true (pos 0) 0 market pipeline).1.risk.kill_switch
    ≡ pipeline.risk.kill_switch
tick-kill_switch_example =
    tick-kill_switch helpers no_claim new_id true (pos 0) 0 market pipeline refl

abbrev started : Pipeline (ℤ × ℤ) ℤ ℤ
started = record pipeline { ledger = record losing { starting_cash = pos 1000000 } }

tick-Agrees_example : Agrees (tick helpers no_claim new_id true (pos 0) 0 market started).1.ledger
tick-Agrees_example =
    tick-Agrees helpers no_claim new_id true (pos 0) 0 market started
      (record { cash_agrees = refl; qty_agrees = λ token. refl })
