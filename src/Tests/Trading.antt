-- ===== src/Tests/Trading.antt =====
-- Execution on a concrete book: orders, pairs, fees and exits.
use poly_meridian.Prelude.{
  ◌≡◌, refl, ◌⊎◌, inl, true, false, none, some, [], ◌∷◌, String, arith, count, if◌then◌else◌,
  string_eq,
}
use poly_meridian.Prelude.Dict.{get}
use poly_meridian.Num.{◌≤?◌}
use poly_meridian.Num.Fixed.{ℤ, pos, fixed, fixed_quantize, fixed_convert, fixed-Exact}
use poly_meridian.Domain.{TradeDecision, Side, buy, OrderType, fok, OrderStatus, is_open}
use poly_meridian.Domain
use poly_meridian.Book.{best_ask}
use poly_meridian.Execution.Walk.{walk_book_for_fill}
use poly_meridian.Execution.Walk.Bounds.{walk_book_for_fill_bounds}
use poly_meridian.Execution.Paper.{
  PaperExecutor, submit, cancel, cancel_all_open_orders, fill_maker_from_book, order_of, get_order,
  fill_taker, post_maker,
}
use poly_meridian.Execution.Paper.Order.{FilledWhole, submit_fok, fill_maker-ignores_limit}
use poly_meridian.Execution.Paper.Sweep.{swept_at, is_open_at, cancel_all_sweeps}
use poly_meridian.Execution.Paper.Entries.{InCustody}
use poly_meridian.Execution.Paper.Custody.{
  serve_all, serve_all-InCustody, submit_order, cancel_order, reconcile_at,
}
use poly_meridian.Execution.Router.{route, route_pair, unwind, submit_both, partner_of, accepted}
use poly_meridian.Execution.Router.Paper.{paper, paper-final_stays, paper-closes}
use poly_meridian.Execution.Router.Legs.{route_unhedged}
use poly_meridian.Execution.Router.Pair.{route_closes}
use poly_meridian.Execution.Contract.{paper-IsLawful}
use poly_meridian.Execution.Exit.{ExitMonitor, scan_position, Scan}
use poly_meridian.Execution.Exit.Rules.{scan_position_cools}
use poly_meridian.Portfolio.Ledger.{PositionState, intraday}
use poly_meridian.Tests.{book, trade, executor, fixed_clock}

walk_book_for_fill_bounds_example :
    ((pos 0 ≤? (walk_book_for_fill book buy (pos 150000)).1) ≡ true)
    × (((walk_book_for_fill book buy (pos 150000)).1 ≤? pos 150000) ≡ true)
walk_book_for_fill_bounds_example = walk_book_for_fill_bounds fixed-Exact book buy (pos 150000) refl

abbrev kill_trade : TradeDecision ℤ
kill_trade = record trade { order_type = OrderType.fok }

submit_fok_example :
    let (o, y) = submit "a" 0 kill_trade executor in
    (FilledWhole o
      ⊎ ((o.status ≡ OrderStatus.cancelled) ⊎ (o.status ≡ OrderStatus.rejected))
        × (o.filled_size ≡ pos 0)
        × (y.calls ≡ executor.calls))
    × (y.resting ≡ executor.resting)
submit_fok_example = submit_fok fixed-Exact "a" 0 kill_trade executor refl refl

fill_maker-ignores_limit_example :
    let o = order_of "a" trade in
    let f = fill_maker_from_book executor 0 book (pos 150000) o in
    let g =
      fill_maker_from_book executor 0 book (pos 150000) (record o { price = some (pos 4100) }) in
    (g.order.filled_size ≡ f.order.filled_size)
    × (g.order.avg_fill_price ≡ f.order.avg_fill_price)
    × (g.remaining ≡ f.remaining)
fill_maker-ignores_limit_example =
    fill_maker-ignores_limit executor 0 book (pos 150000) (order_of "a" trade) (some (pos 4100))

-- The executor with one order that rests after a partial fill.
abbrev busy_executor : PaperExecutor ℤ ℤ
busy_executor = (submit "a" 0 (record trade { size = pos 500000 }) executor).1

cancel_all_sweeps_example :
    let (n, y) = cancel_all_open_orders busy_executor in
    (get "a" y.orders ≡ swept_at (get "a" busy_executor.orders) none)
    × (get "a" y.resting ≡ (
        if is_open_at (get "a" busy_executor.orders) then none else get "a" busy_executor.resting))
    × (n ≡ count (λ (e : String × Domain.Order ℤ). is_open e.1.status) busy_executor.orders)
unfolding submit
cancel_all_sweeps_example = cancel_all_sweeps busy_executor "a" (refl, tt)

serve_all-InCustody_example : InCustody (
    serve_all
      (submit_order "a" 0 (record trade { size = pos 500000 })
        ∷ submit_order "b" 0 kill_trade
        ∷ reconcile_at 1000000
        ∷ cancel_order "a"
        ∷ [])
      executor)
unfolding submit serve_all fill_taker post_maker best_ask walk_book_for_fill
serve_all-InCustody_example =
    serve_all-InCustody fixed-Exact
      (submit_order "a" 0 (record trade { size = pos 500000 })
        ∷ submit_order "b" 0 kill_trade
        ∷ reconcile_at 1000000
        ∷ cancel_order "a"
        ∷ [])
      executor ((refl, refl), ((refl, refl), (tt, (tt, tt))))
      (record { distinct = tt; each = λ id r e. cc })

-- A pair whose partner has no book.
abbrev pub paired_trade : TradeDecision ℤ
paired_trade = record kill_trade {
  paired_token = some "no";
  paired_price = some (pos 5500);
  paired_side = some Side.buy;
}

abbrev pub new_id : PaperExecutor ℤ ℤ → String
new_id x = elim x.orders [ [] ↦ "a" | _ ∷ _ ↦ "b" ]

-- The primary leg as the executor fills it.
abbrev filled_leg : Domain.Order ℤ
filled_leg = (submit "a" 0 paired_trade executor).0

route_unhedged_example : route (paper new_id 0) true paired_trade executor ≡ (
  accepted filled_leg,
  (submit_both (paper new_id 0) true paired_trade (partner_of "no" paired_trade) executor).2,
)
unfolding submit submit_both partner_of get_order walk_book_for_fill
route_unhedged_example =
    route_unhedged (paper new_id 0) true "no" paired_trade executor filled_leg
      (paper-final_stays new_id 0) refl refl refl refl refl

route_closes_example :
    (is_open filled_leg.status ≡ false)
    × (filled_leg.size ≡ paired_trade.size)
    × ((filled_leg.token_id ≡ paired_trade.token_id)
          × (filled_leg.side ≡ paired_trade.side)
          × (filled_leg.price ≡ paired_trade.price)
        ⊎ (filled_leg.token_id ≡ "no")
          × (filled_leg.side ≡ buy)
          × (filled_leg.price ≡ paired_trade.paired_price))
unfolding submit submit_both partner_of get_order walk_book_for_fill route route_pair unwind cancel
route_closes_example =
    route_closes (paper new_id 0) (paper-IsLawful new_id 0) true "no" paired_trade executor
      filled_leg filled_leg (paper-closes new_id 0) refl (inl (refl, refl, refl)) refl

abbrev monitor : ExitMonitor ℤ
monitor = record {
  profit_take_pct = pos 2000;
  stop_loss_pct = pos 1500;
  time_decay_safety_hours = pos 20000;
  min_position_notional_usd = pos 5000;
  cooldown_until = [];
}

-- A position bought at 0.40 and marked at 0.60.
abbrev winning : PositionState ℤ ℤ
winning = record {
  token_id = "yes";
  qty = pos 100000;
  avg_cost = pos 4000;
  realized_pnl = pos 0;
  last_mark = pos 6000;
  last_updated = 0;
  fees_paid = pos 0;
  entry_strategy = some "arbitrage";
  horizon = some intraday;
  claimed_p_long = none;
  claimed_confidence = none;
  claimed_base_rate = none;
}

abbrev no_scan : Scan ℤ
no_scan = record { n_exits = 0; submitted = []; until = [] }

scan_position_cools_example :
    let t = scan_position {F = ℤ} (λ e. false) monitor [] [] 0 winning no_scan in
    scan_position {F = ℤ} (λ e. false) monitor [] [] 29000000 winning t ≡ t
unfolding scan_position
scan_position_cools_example =
    scan_position_cools (λ e. false) monitor [] [] 0 29000000 winning no_scan refl refl
      (omega arith)
