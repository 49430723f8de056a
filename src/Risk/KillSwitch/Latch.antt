-- ===== src/Risk/KillSwitch/Latch.antt =====
-- The kill switch under sequences of observations: what it keeps, and what clears it.
use poly_meridian.Prelude.{
  ◌≤◌, ◌<◌, ◌≡◌, Bool, true, List, [], ◌∷◌, String, if◌then◌else◌, arith, is_some,
}
use poly_meridian.Num.{Num}
use poly_meridian.Risk.KillSwitch.{
  KillSwitch, KillSwitchConfig, disengage, observe_daily_pnl, observe_slippage, observe_api_call,
  observe_ws_disconnect, manual_engage, observe_wallet_balance, new,
}

-- A call of one of the triggers, with the time at which it is made.
pub data Event (F : Type 0) : Type 0 where
  daily_pnl : F → F → Event F
  slippage : F → F → String → Event F
  api_call : F → Bool → Event F
  ws_silence : F → F → Event F
  operator_stop : F → String → Event F
  wallet : F → F → F → F → Event F

module _ {F : Type 0} ⦃nf : Num F⦄ where
  unfoldable pub observe : Event F → KillSwitch F → KillSwitch F
  unfolding observe_daily_pnl observe_slippage observe_api_call observe_ws_disconnect manual_engage
      observe_wallet_balance
  observe (daily_pnl now x) k = observe_daily_pnl now x k
  observe (slippage now x token) k = observe_slippage now x token k
  observe (api_call now ok) k = observe_api_call now ok k
  observe (ws_silence now x) k = observe_ws_disconnect now x k
  observe (operator_stop now note) k = manual_engage now note k
  observe (wallet now expected actual tol) k = observe_wallet_balance now expected actual tol k

  unfoldable pub run : List (Event F) → KillSwitch F → KillSwitch F
  unfolding observe
  run [] k = k
  run (e ∷ es) k = run es (observe e k)

  -- Two switches agree in everything but the counters of the API window.
  pub record SameEngagement (k j : KillSwitch F) : Type 0 where
    pub same_engaged : j.engaged ≡ k.engaged
    pub same_reason : j.reason ≡ k.reason
    pub same_time : j.engaged_at ≡ k.engaged_at
    pub same_detail : j.detail ≡ k.detail
    pub same_config : j.config ≡ k.config

  pub observe-SameEngagement :
      (e : Event F) (k : KillSwitch F) → k.engaged ≡ true → SameEngagement k (observe e k)
  unfolding observe
  observe-SameEngagement (daily_pnl now x) k h = ground arith
  observe-SameEngagement _ k h = ground arith

  -- Once engaged, the switch stays engaged for its first reason, with the time and the detail of
  -- that engagement, whatever triggers follow.
  pub run-SameEngagement :
      (es : List (Event F)) (k : KillSwitch F) → k.engaged ≡ true → SameEngagement k (run es k)
  unfolding run
  run-SameEngagement [] k h = ground arith
  run-SameEngagement (e ∷ es) k h =
      ground (arith, observe-SameEngagement e k h, run-SameEngagement es (observe e k))

  -- An engaged switch names a reason and a time, a clear one names neither; the error counter
  -- is at most the call counter, which stays below the window of twenty.
  pub record IsConsistent (k : KillSwitch F) : Type 0 where
    pub reason_given : is_some k.reason ≡ k.engaged
    pub time_given : is_some k.engaged_at ≡ k.engaged
    pub clear_detail : (if k.engaged then [] else k.detail) ≡ []
    pub errors_counted : k.api_error_count ≤ k.api_call_count
    pub window_open : k.api_call_count < 20

  pub observe-IsConsistent :
      (e : Event F) (k : KillSwitch F) → IsConsistent k → IsConsistent (observe e k)
  unfolding observe
  observe-IsConsistent (daily_pnl now x) k v = ground arith
  observe-IsConsistent _ k v = ground arith

  -- A new switch is consistent after any sequence of triggers, and after a manual clear that
  -- follows it.
  pub run-IsConsistent :
      (c : KillSwitchConfig F) (es : List (Event F))
      → IsConsistent (run es (new c)) × IsConsistent (disengage (run es (new c))).1
  unfolding disengage run
  run-IsConsistent c es = ground (arith, go es (new c) (ground arith))
    where
      go : (ds : List (Event F)) (k : KillSwitch F) → IsConsistent k → IsConsistent (run ds k)
      go [] k v = v
      go (d ∷ ds) k v = go ds (observe d k) (observe-IsConsistent d k v)
