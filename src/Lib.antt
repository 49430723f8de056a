-- ===== src/Lib.antt =====
-- Poly Meridian: the trading core of the agent, from the order book to the closed position.
--
-- The program watches prediction markets. Strategies propose signals, an aggregator merges them,
-- the risk policy approves, reduces or rejects each one and sizes what passes, the router submits
-- one leg or a pair to an executor, the executor fills orders against replicas of the order books,
-- the ledger books the fills, and the exit monitor closes positions. A kill switch stops new
-- orders. This library models that core and leaves out the network, the database, the web API and
-- the language-model clients, which are I/O.
--
-- Files, and the code that each one models (paths from the repository's root):
--   Prelude          shared names, lists, Boolean tests; Prelude/Dict: Python's dict with its order
--   Num              `float` and `Decimal` as an interface; Num/Fixed: numbers that compute
--   Domain           src/poly_meridian/domain.py
--   Book             src/poly_meridian/ingestion/book.py (LocalBook)
--   Aggregator       src/poly_meridian/strategies/aggregator.py (SignalAggregator.aggregate)
--   Features         src/poly_meridian/features (prices, books, news and dates)
--   Strategies       src/poly_meridian/strategies: StatQuant stat_quant.py, Arbitrage arbitrage.py,
--                    Sentiment sentiment.py, SmartMoney smart_money.py, Fundamentals fundamentals.py,
--                    ClusterBuilder cluster_builder.py
--   Fundamentals/Calibration src/poly_meridian/fundamentals/calibration.py (CalibrationStore)
--   Fundamentals/Calibration/Table src/poly_meridian/storage/writers.py
--                    (insert_calibration_entry, fetch_calibration_entries)
--   Fundamentals/Resolvers src/poly_meridian/fundamentals/sports.py, src/poly_meridian/fundamentals/macro.py
--   Fundamentals/Forecasts src/poly_meridian/fundamentals/politics.py,
--                    src/poly_meridian/fundamentals/crypto.py
--   Risk/KillSwitch  src/poly_meridian/risk/kill_switch.py (KillSwitch)
--   Risk/Limits      src/poly_meridian/risk/limits.py (RiskLimits and the check functions)
--   Risk/Policy      src/poly_meridian/risk/policy.py (DefaultRiskPolicy: evaluate, size, ...)
--   Risk/Kelly       src/poly_meridian/risk/kelly.py, src/poly_meridian/risk/trade_metrics.py
--   Pipeline         src/poly_meridian/pipeline.py (Pipeline.tick, from evaluate to size)
--   Pipeline/Tick    src/poly_meridian/pipeline.py (Pipeline: tick, attach_book, on_fill, ...)
--   Portfolio/Ledger src/poly_meridian/portfolio/ledger.py (Ledger: apply_fill, mark, ...)
--   Portfolio/Pnl    src/poly_meridian/portfolio/pnl.py, src/poly_meridian/portfolio/mark_to_market.py
--   Execution/Fees   src/poly_meridian/execution/fees.py (FeeSchedule)
--   Execution/Walk   src/poly_meridian/execution/slippage_model.py (walk_book_for_fill)
--   Execution/Slippage src/poly_meridian/execution/slippage_model.py (fit_from_fills, ...),
--                    src/poly_meridian/execution/slippage_monitor.py (SlippageMonitor)
--   Execution/Paper  src/poly_meridian/execution/paper_executor.py (PaperExecutor)
--   Execution/Live   src/poly_meridian/execution/live_executor.py (LiveExecutor)
--   Execution/Contract src/poly_meridian/execution/base.py (what both executors promise)
--   Execution/Router src/poly_meridian/execution/order_router.py (OrderRouter.route)
--   Execution/Exit   src/poly_meridian/execution/exit_monitor.py (ExitMonitor.scan_once)
--   Backtest/Metrics src/poly_meridian/backtest/metrics.py
--   Backtest/Folds   src/poly_meridian/backtest/walkforward.py (make_folds, slice_dataset)
--   Promotion        src/poly_meridian/promotion.py (run_gate)
--   Tests            the theorems applied to concrete data
-- A definition has the name of the method or function that it models; a child module of a file
-- holds what is proved about it.
--
-- How the code is read:
--   State. An object is a record, and a method is a function that takes the record last and returns
--   it changed, with the method's result first when it has one. An order that the executor keeps
--   in two dicts at once is kept in one, and the other refers to it by its id.
--   Numbers. `F` is a float and `D` a decimal. The operations are an interface, with the laws of the
--   comparisons on finite values; nothing is assumed of float arithmetic. Where a proof needs that
--   sums of decimals are exact, it takes the record `Exact`, which holds while amounts fit the
--   28 digits of the decimal context. Equal decimals with different exponents count as one value.
--   Time. A datetime is its count of microseconds; the time that a call reads is an argument.
--   Early returns. A strategy's refusals are steps of a chain (Prelude/Chain) that ends with none.
--   Errors. What raises is a value: a lookup or a submission that raised, a row that is malformed, an
--   `evaluate` that ends with a TypeError, after which the tick is aborted.
--   Asynchrony. The executor's calls hold its lock, so they run one after the other; the router's two
--   submissions run in either order, which is an argument. The live executor's submission waits for
--   the venue without the lock, so it comes in two halves between which other calls may run.
--   Services. What the venue answers to a call of the live executor is an argument: the client is
--   third-party code. So is the order in which the database returns rows.
--   Loops are recursions on the list that the loop runs over. Only the loop of make_folds runs on
--   fuel, which is none when it is too little; `end + 2` passes are enough for a positive step, since
--   each one moves the cursor by a microsecond at least.
--   Log calls and metrics are left out.
--
-- Not modelled: the replay, the sentiment scorers and the language model; the ingestion and
-- storage clients but for the table of predictions, the API, alerts, settings and the main loop, which are I/O.
pub mod Prelude
pub mod Num
pub mod Domain
pub mod Book
pub mod Risk
pub mod Portfolio
pub mod Execution
pub mod Pipeline
pub mod Aggregator
pub mod Backtest
pub mod Fundamentals
pub mod Features
pub mod Strategies
pub mod Promotion
pub mod Tests
